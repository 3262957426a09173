-- ===== src/Irc/Metadata/Values.antt =====
-- irc/client_connection.cpp: whose values a METADATA command changes.
use chatripper.Common.{
  ℕ, ◌≡◌, refl, ap, ◌∙◌, Bool, false, ◌&&◌, ◌||◌, Option, none, some, List, ◌∷◌, Bytes, codes,
  starts_with, if◌then◌else◌, find, insert, find-insert, drop, if_both, nat_key, bytes_key, ◌==◌,
  arith,
}
use chatripper.Bitflags
use chatripper.Caps
use chatripper.Caps.{capability_flags}
use chatripper.State.{World, Variant, Metadata, is_null}
use chatripper.Env.{Env}
use chatripper.Core.Caches.{get_channel, irc_nick_get}
use chatripper.Core.Metadata.{MetadataEvent, get, handle}
use chatripper.Core.Metadata.Guard.{value_after, handle-get}
use chatripper.Core.Metadata.Objects.{account_metadata, handle_account, handle_channel, load}
use chatripper.Irc.Reply.{account_nick, nick, send_raw}
use chatripper.Irc.Metadata.{
  metadata, metadata_of_account, metadata_of_channel, metadata_of_nick, handle_metadata, new_event,
}
use chatripper.Irc.Metadata.Answers.{metadata_lem}

found-insert :
    (a p : ℕ) (m other : Metadata) (w : World)
    → (elim (find p (insert a m w.account_metadata)) as (λ _. Metadata) [
      | some x ↦ x
      | none ↦ other
    ])
      ≡ (if a == p
          then m
          else elim (find p w.account_metadata) as (λ _. Metadata) [ some x ↦ x | none ↦ other ])
found-insert a p m other w = ground (arith, find-insert a p m w.account_metadata)

-- A result at the key that was changed.
at_key {ℓ κ} :
    {M : Type ℓ} {V : Type κ} (a p : ℕ) (view : M → V) (new : M) (old : ℕ → M) (spec : ℕ → V)
    → view new ≡ spec a
    → view (if a == p then new else old p) ≡ (if a == p then spec p else view (old p))
at_key a p view new old spec h = ground arith

module _ (env : Env) where
  -- The value of a key of an account.
  unfoldable pub value : ℕ → Bytes → World → Variant
  unfolding get account_metadata
  value p key w = get env.text key (account_metadata env p w)

  pub metadata-account :
      (c p : ℕ) (ev : MetadataEvent) (w : World)
      → account_metadata env p (metadata env c ev w) ≡ account_metadata env p w
  unfolding account_metadata load
  metadata-account c p ev w = ap (account_metadata env p) (metadata_lem env c ev w)

  pub handle_account-account :
      (a p : ℕ) (ev : MetadataEvent) (w : World)
      → account_metadata env p (handle_account env a ev w).1 ≡ (
          if a == p
          then (handle env.text env.upper w ev (account_metadata env a w)).1
          else account_metadata env p w)
  unfolding account_metadata handle_account load
  handle_account-account a p ev w = found-insert a p _ _ w

  pub handle_channel-account :
      (ch p : ℕ) (ev : MetadataEvent) (w : World)
      → account_metadata env p (handle_channel env ch ev w).1 ≡ account_metadata env p w
  unfolding account_metadata handle_channel load
  handle_channel-account ch p ev w = refl

  -- The account whose metadata a command is about; none if it is a channel's, or nobody's.
  unfoldable pub addressee : ℕ → Bytes → World → Option ℕ
  unfolding account_nick irc_nick_get
  addressee c target w =
      let own = (w.connection_at c).account in
      if starts_with b'#' target
      then none
      else if target == codes "*" || target == account_nick own w
      then some own
      else if is_null (irc_nick_get target w)
      then none
      else some (irc_nick_get target w)

  abbrev changes : ℕ → Bytes → World → ℕ → Bool
  changes c target w p = elim (addressee c target w) [ none ↦ false | some a ↦ a == p ]

  -- The value of a key after a command.
  abbrev pub value_then : ℕ → Bytes → Bytes → List Bytes → ℕ → Bytes → World → Variant
  value_then c target subcmd args p key w =
      if Bitflags.has Caps.metadata (w.connection_at c).capabilities && changes c target w p
      then value_after env.text env.upper key
          (record (new_event (w.connection_at c).account subcmd args) { dest = p })
          (account_metadata env p w)
      else value p key w

  of_account :
      (c a p : ℕ) (key : Bytes) (ev : MetadataEvent) (w : World)
      → value p key (metadata_of_account env c a ev w) ≡ (
          if a == p
          then value_after env.text env.upper key
              (record ev { dest = p })
              (account_metadata env p w)
          else value p key w)
  unfolding metadata_of_account value
  of_account c a p key ev w =
      let named = record ev { dest = a } in
      let (after, v) = handle_account env a named w in
      ap (get env.text key) (metadata-account c p after v ∙ handle_account-account a p named w)
      ∙ at_key a p (get env.text key)
          (handle env.text env.upper w named (account_metadata env a w)).1
          (λ q. account_metadata env q w)
          (λ q.
            value_after env.text env.upper key (record ev { dest = q }) (account_metadata env q w))
          (handle-get env.text env.upper key w named (account_metadata env a w))

  of_channel :
      (c p : ℕ) (target key : Bytes) (ev : MetadataEvent) (w : World)
      → value p key (metadata_of_channel env c target ev w) ≡ value p key w
  unfolding metadata_of_channel value send_raw nick load account_metadata
  of_channel c p target key ev w =
      let ch = get_channel (drop 1 target) w in
      let (after, v) = handle_channel env ch (record ev { channel = ch }) w in
      if_both (λ u. value p key u ≡ value p key w) (is_null ch) refl
        (ap (get env.text key) (
          metadata-account c p after v
          ∙ handle_channel-account ch p (record ev { channel = ch }) w))

  -- What a METADATA command with its parameters does to the value of any key of any account. The
  -- command changes nothing without the capability, and nothing of an account that is not its
  -- addressee: the own account for `*` and the own nickname, the holder of another registered
  -- nickname, and none for a channel or an unknown nickname. A key of the addressee has afterwards
  -- the value that the store gives it for this event.
  pub handle_metadata-value :
      (c : ℕ) (target subcmd : Bytes) (args : List Bytes) (p : ℕ) (key : Bytes) (w : World)
      → value p key (handle_metadata env c (target ∷ subcmd ∷ args) w)
        ≡ value_then c target subcmd args p key w
  unfolding handle_metadata addressee metadata_of_nick value
  handle_metadata-value c target subcmd args p key w =
      let own = (w.connection_at c).account in
      let ev = new_event own subcmd args in
      ground (
        arith,
        of_channel c p target key ev w,
        of_account c own p key ev w,
        of_account c (irc_nick_get target w) p key ev w,
      )
