-- ===== src/Irc/Metadata/Owners.antt =====
-- irc/client_connection.cpp and core/metadata.cpp: metadata belongs to its account, and a METADATA
-- command of another account leaves it alone.
use chatripper.Common.{
  ℕ, ◌≡◌, ◌≢◌, refl, ap, ◌∙◌, none, some, List, [], ◌∷◌, Bytes, arith, nat_key, ◌==◌, if◌then◌else◌,
  if_both, drop, find,
}
use chatripper.Caps.{capability_flags}
use chatripper.State.{World, Variant, Metadata, Target, to_account, is_null}
use chatripper.Env.{Env}
use chatripper.Core.Caches.{get_channel, irc_nick_get}
use chatripper.Core.Metadata.{
  MetadataEvent, handle, handle_set, handle_clear, handle_other, set, remove_key, sub, unsub, get,
  is_foreign,
}
use chatripper.Core.Metadata.Guard.{value_after}
use chatripper.Core.Metadata.Objects.{
  account_metadata, handle_account, handle_channel, load, read_rows,
}
use chatripper.Irc.Reply.{nick, send_raw, reply_num}
use chatripper.Irc.Metadata.{
  metadata_of_account, metadata_of_channel, metadata_of_nick, handle_metadata, new_event,
}
use chatripper.Irc.Metadata.Values.{
  value, handle_metadata-value, metadata-account, handle_account-account, handle_channel-account,
}

handle_set-owner :
    (text : Bytes → Bytes) (args : List Bytes) (w : World) (e : MetadataEvent) (m : Metadata)
    → (handle_set text w (record e { args = args }) m).1.owner ≡ m.owner
unfolding handle_set set
handle_set-owner text [] w e m = refl
handle_set-owner text (k ∷ []) w e m = refl
handle_set-owner text (k ∷ v ∷ more) w e m = ground arith

handle_clear-owner :
    (text : Bytes → Bytes) (args : List Bytes) (w : World) (e : MetadataEvent) (m : Metadata)
    → (handle_clear text w (record e { args = args }) m).1.owner ≡ m.owner
unfolding handle_clear remove_key
handle_clear-owner text [] w e m = refl
handle_clear-owner text (k ∷ more) w e m = ground arith

handle_other-owner :
    (text : Bytes → Bytes) (cmd : Bytes) (w : World) (ev : MetadataEvent) (m : Metadata)
    → (handle_other text cmd w ev m).1.owner ≡ m.owner
unfolding handle_other sub unsub
handle_other-owner text cmd w ev m = ground arith

handle-owner :
    (text upper : Bytes → Bytes) (w : World) (ev : MetadataEvent) (m : Metadata)
    → (handle text upper w ev m).1.owner ≡ m.owner
unfolding handle
handle-owner text upper w ev m = ground (
  arith,
  handle_set-owner text ev.args w ev m,
  handle_clear-owner text ev.args w ev m,
  handle_other-owner text (upper (text ev.subcmd)) w ev m,
)

read_rows-owner :
    (accounts : List (ℕ × ℕ)) (rows : List (Bytes × Variant × ℕ)) (m : Metadata)
    → (read_rows accounts rows m).owner ≡ m.owner
unfolding read_rows
read_rows-owner accounts [] m = refl
read_rows-owner accounts ((k, v, id) ∷ rows) m = read_rows-owner accounts rows _

-- The object that was changed, and any other.
at_owner :
    (a p : ℕ) (new : Metadata) (old : ℕ → Metadata)
    → new.owner ≡ (old a).owner
    → ((q : ℕ) → (old q).owner ≡ to_account q)
    → (if a == p then new else old p).owner ≡ to_account p
at_owner a p new old h owners = ground (arith, owners p, owners a)

-- For another account than the owner a request has no effect.
value_after-foreign :
    (text upper : Bytes → Bytes) (key : Bytes) (ev : MetadataEvent) (m : Metadata) (p : ℕ)
    → m.owner ≡ to_account p
    → ev.account ≢ 0
    → ev.account ≢ p
    → value_after text upper key ev m ≡ get text key m
unfolding value_after is_foreign
value_after-foreign text upper key ev m p h own other = rw h (ground arith)

module _ (env : Env) where
  -- The metadata of each account names that account.
  abbrev pub HasOwners : World → Type 0
  HasOwners w = (p : ℕ) → (account_metadata env p w).owner ≡ to_account p

  load-owner : (owner : Target) (ref : ℕ) (w : World) → (load env owner ref w).owner ≡ owner
  unfolding load
  load-owner owner ref w = read_rows-owner w.accounts_lookup_uuid (env.metadata_rows ref) _

  -- Metadata that is read from the database names its account.
  HasOwners-init : (w : World) → w.account_metadata ≡ [] → HasOwners w
  unfolding account_metadata find
  HasOwners-init w h p =
      let fresh = load env (to_account p) (w.account_at p).uid w in
      ap
        (λ t.
          (elim (find {V = Metadata} p t) as (λ _. Metadata) [ some m ↦ m | none ↦ fresh ]).owner)
        h
      ∙ load-owner (to_account p) (w.account_at p).uid w

  of_account-HasOwners :
      (c a : ℕ) (ev : MetadataEvent) (w : World)
      → HasOwners w
      → HasOwners (metadata_of_account env c a ev w)
  unfolding metadata_of_account
  of_account-HasOwners c a ev w h p =
      let named = record ev { dest = a } in
      let (after, v) = handle_account env a named w in
      ap (λ m. m.owner) (metadata-account env c p after v ∙ handle_account-account env a p named w)
      ∙ at_owner a p _ (λ q. account_metadata env q w)
          (handle-owner env.text env.upper w named (account_metadata env a w)) h

  of_channel-HasOwners :
      (c : ℕ) (target : Bytes) (ev : MetadataEvent) (w : World)
      → HasOwners w
      → HasOwners (metadata_of_channel env c target ev w)
  unfolding metadata_of_channel send_raw nick load account_metadata
  of_channel-HasOwners c target ev w h p =
      let ch = get_channel (drop 1 target) w in
      let named = record ev { channel = ch } in
      let (after, v) = handle_channel env ch named w in
      if_both (λ u. (account_metadata env p u).owner ≡ to_account p) (is_null ch) (h p)
        (ap (λ m. m.owner)
            (metadata-account env c p after v ∙ handle_channel-account env ch p named w)
          ∙ h p)

  -- A METADATA command keeps it so that the metadata of each account names that account.
  handle_metadata-HasOwners :
      (c : ℕ) (args : List Bytes) (w : World)
      → HasOwners w
      → HasOwners (handle_metadata env c args w)
  unfolding handle_metadata metadata_of_nick reply_num send_raw nick account_metadata load
  handle_metadata-HasOwners c [] w h p = h p
  handle_metadata-HasOwners c (target ∷ []) w h p = h p
  handle_metadata-HasOwners c (target ∷ subcmd ∷ args) w h p =
      let own = (w.connection_at c).account in
      let ev = new_event own subcmd args in
      ground (
        arith,
        h p,
        of_channel-HasOwners c target ev w h p,
        of_account-HasOwners c own ev w h p,
        of_account-HasOwners c (irc_nick_get target w) ev w h p,
      )

  -- Where the metadata of each account names that account, a METADATA command of a connection that is
  -- logged in to an account changes no value of any key of any other account.
  pub handle_metadata_protects :
      (c : ℕ) (args : List Bytes) (p : ℕ) (key : Bytes) (w : World)
      → HasOwners w
      → (w.connection_at c).account ≢ 0
      → (w.connection_at c).account ≢ p
      → value env p key (handle_metadata env c args w) ≡ value env p key w
  unfolding handle_metadata reply_num send_raw nick account_metadata load value
  handle_metadata_protects c [] p key w h own other = refl
  handle_metadata_protects c (target ∷ []) p key w h own other = refl
  handle_metadata_protects c (target ∷ subcmd ∷ args) p key w h own other =
      let ev = record (new_event (w.connection_at c).account subcmd args) { dest = p } in
      let m = account_metadata env p w in
      handle_metadata-value env c target subcmd args p key w
      ∙ if_both (λ v. v ≡ value env p key w) _
          (value_after-foreign env.text env.upper key ev m p (h p) own other) refl
