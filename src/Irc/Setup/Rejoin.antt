-- ===== src/Irc/Setup/Rejoin.antt =====
-- irc/client_connection.cpp: the loop at the end of the setup that joins the channels of the account.
use chatripper.Common.{
  ℕ, nat_key, ◌≡◌, ◌≢◌, refl, ap, sym, subst, ◌∙◌, Bool, true, false, List, [], ◌∷◌, ◌++◌, Bytes,
  codes, Map, contains, is_empty, if◌then◌else◌, arith, beq_self, Bool-cases, inl, inr, split,
}
use chatripper.Common.Outcome.{Outcome, done, fault}
use chatripper.State.{World, Channel, is_null, for_each, JoinEvent}
use chatripper.Env.{Env}
use chatripper.Core.Channels.{join, join_event, join_connections, add_member}
use chatripper.Core.Channels.Members.{join_connections-rooms, join_members-rooms}
use chatripper.Core.Caches.{get_channel, account_insert_cache, irc_nicks_insert_cache}
use chatripper.Core.Accounts.{new_account, create, add_connection}
use chatripper.Irc.Reply.{account_nick, nick, send_raw, reply_num}
use chatripper.Irc.Info.{motd_chunks, handle_lusers, handle_motd}
use chatripper.Irc.Modes.{change_user}
use chatripper.Irc.Setup.{
  isupport_lines, ensure_account, sync_nick, register, send_each, send_welcome, greet, rejoin,
  is_disturbed,
}

-- Each pointer of the table is a channel, and the account is a member of it.
abbrev Seats : ℕ → Map Bytes ℕ → (ℕ → Channel) → Type 0
Seats a [] channels = Unit
Seats a ((name, ch) ∷ rest) channels =
    (ch ≢ 0) × (contains (channels ch).members a ≡ true) × Seats a rest channels

-- What the rest of the setup leaves alone: channels, the tables of the accounts, and whose the
-- connection is.
pub record Keeps (c : ℕ) (w v : World) : Type 0 where
  rooms_kept : v.channel_at ≡ w.channel_at
  tables_kept : (q : ℕ) → (v.account_at q).channels ≡ (w.account_at q).channels
  owner_kept : (v.connection_at c).account ≡ (w.connection_at c).account

Keeps-trans : {c : ℕ} {u v w : World} → Keeps c u v → Keeps c v w → Keeps c u w
Keeps-trans h k = record {
  rooms_kept = k.rooms_kept ∙ h.rooms_kept;
  tables_kept = λ q. k.tables_kept q ∙ h.tables_kept q;
  owner_kept = k.owner_kept ∙ h.owner_kept;
}

pub Keeps-refl : {c : ℕ} {w : World} → Keeps c w w
Keeps-refl = record { rooms_kept = refl; tables_kept = λ q. refl; owner_kept = refl }

goes_on :
    (b d : Bool) (rest : Outcome World)
    → b ≡ false
    → d ≡ false
    → (if b then fault else if d then fault else rest) ≡ rest
goes_on b d rest hb hd = rw hb (rw hd refl)

module _ (env : Env) where
  member_joins :
      (ch a : ℕ) (w : World)
      → contains (w.channel_at ch).members a ≡ true
      → (join env ch (record { channel = ch; account = a; from_system = true }) w).channel_at
        ≡ w.channel_at
  unfolding join join_event add_member
  member_joins ch a w seat =
      let ev : JoinEvent = record { channel = ch; account = a; from_system = true } in
      let own = get_channel (w.channel_at ch).name w in
      let added = add_member env ch own a w in
      let stays : added ≡ w = rw seat refl in
      join_members-rooms env ch own ev (join_connections env ch ev added)
      ∙ (join_connections-rooms env ch ev added ∙ ap (λ (v : World). v.channel_at) stays)

  -- The loop returns.
  pub rejoin_returns :
      (a : ℕ) (table : Map Bytes ℕ) (w : World)
      → Seats a table w.channel_at
      → (v : World) × (rejoin env a table w ≡ done v)
  unfolding rejoin
  rejoin_returns a [] w h = (w, refl)
  rejoin_returns a ((name, ch) ∷ rest) w h =
      let after = join env ch (record { channel = ch; account = a; from_system = true }) w in
      let there : is_null ch ≡ false = ground (arith, h.0) in
      let calm : is_disturbed env a ch w ≡ false = rw h.1 refl in
      let (v, e) =
        rejoin_returns a rest after (subst (Seats a rest) (sym (member_joins ch a w h.1)) h.2) in
      (v, goes_on (is_null ch) (is_disturbed env a ch w) (rejoin env a rest after) there calm ∙ e)

  module _ (c : ℕ) where
    send_raw-Keeps : (line : Bytes) (w : World) → Keeps c w (send_raw env c line w)
    unfolding send_raw
    send_raw-Keeps line w = record { rooms_kept = refl; tables_kept = λ q. refl; owner_kept = refl }

    reply_num-Keeps :
        (code : ℕ) (text : Bytes) (w : World) → Keeps c w (reply_num env c code text w)
    unfolding reply_num
    reply_num-Keeps code text w = send_raw-Keeps _ w

    send_each-Keeps : (lines : List Bytes) (w : World) → Keeps c w (send_each env c lines w)
    unfolding send_each
    send_each-Keeps [] w = Keeps-refl
    send_each-Keeps (line ∷ rest) w =
        Keeps-trans (send_raw-Keeps line w) (send_each-Keeps rest (send_raw env c line w))

    send_welcome-Keeps : (w : World) → Keeps c w (send_welcome env c w)
    unfolding send_welcome reply_num send_raw
    send_welcome-Keeps w =
        let base = codes "005 " ++ (account_nick (w.connection_at c).account w ++ codes " ") in
        let greeted =
          reply_num env c 4 (env.server_name ++ codes " wut-7.2.2+bla.7.3 what is this.") (
            reply_num env c 3 (codes "This server was created Dec 21 1989 at 13:37:00 (lie)") (
              reply_num env c 2
                (codes "Your host is "
                  ++ (env.server_name ++ codes ", running version chatripper-0.1"))
                (reply_num env c 1 (codes "Hi, welcome to IRC") w))) in
        let rest = send_each-Keeps (isupport_lines base env.isupport base) greeted in
        record {
          rooms_kept = rest.rooms_kept;
          tables_kept = rest.tables_kept;
          owner_kept = rest.owner_kept;
        }

    handle_lusers-Keeps : (w : World) → Keeps c w (handle_lusers env c w)
    unfolding handle_lusers send_raw
    handle_lusers-Keeps w = record { rooms_kept = refl; tables_kept = λ q. refl; owner_kept = refl }

    say_each-Keeps :
        (make : Bytes → Bytes) (lines : List Bytes) (w : World)
        → Keeps c w (for_each lines (λ line v. send_raw env c (make line) v) w)
    unfolding for_each
    say_each-Keeps make [] w = Keeps-refl
    say_each-Keeps make (line ∷ rest) w =
        Keeps-trans (send_raw-Keeps (make line) w)
          (say_each-Keeps make rest (send_raw env c (make line) w))

    handle_motd-Keeps : (w : World) → Keeps c w (handle_motd env c w)
    unfolding handle_motd send_raw
    handle_motd-Keeps w =
        let own = nick c w in
        let text = if is_empty env.motd then codes "Welcome!" else env.motd in
        let opened =
          send_raw env c
            (codes "375 "
              ++ (own ++ (codes " :- " ++ (env.server_name ++ codes " Message of the day -"))))
            w in
        let told =
          say_each-Keeps (λ chunk. codes "372 " ++ (own ++ (codes " :" ++ chunk)))
            (motd_chunks (split 10 text)) opened in
        record {
          rooms_kept = told.rooms_kept;
          tables_kept = told.tables_kept;
          owner_kept = told.owner_kept;
        }

    sync_nick-Keeps : (w : World) → Keeps c w (sync_nick env c w)
    unfolding sync_nick
    sync_nick-Keeps w = record {
      rooms_kept = ground arith;
      tables_kept = λ q. ground arith;
      owner_kept = ground (arith, beq_self c);
    }

    register-Keeps : (w : World) → Keeps c w (register env c w)
    unfolding register add_connection irc_nicks_insert_cache
    register-Keeps w = record {
      rooms_kept = refl;
      tables_kept = λ q. ground arith;
      owner_kept = refl;
    }

    pub change_user-Keeps :
        (letters : Bytes) (w : World) → Keeps c w (change_user env c true letters w)
    unfolding change_user send_raw reply_num
    change_user-Keeps letters w = record {
      rooms_kept = ground arith;
      tables_kept = λ q. ground arith;
      owner_kept = ground (arith, beq_self c);
    }

    -- The table of the account and its channels, when the loop comes.
    abbrev pub Ready : World → Type 0
    Ready w = let a = (w.connection_at c).account in Seats a (w.account_at a).channels w.channel_at

    pub Ready-Keeps : {v w : World} → Keeps c w v → Ready w → Ready v
    Ready-Keeps {v} {w} k h =
        let a = (w.connection_at c).account in
        subst (λ b. Seats b (v.account_at b).channels v.channel_at) (sym k.owner_kept)
          (subst (λ t. Seats a t v.channel_at) (sym (k.tables_kept a))
            (subst (Seats a (w.account_at a).channels) (sym k.rooms_kept) h))

    -- A new account has an empty table.
    ensure_account-Ready : (w : World) → Ready w → Ready (ensure_account env c w)
    unfolding ensure_account create account_insert_cache new_account
    ensure_account-Ready w h = elim (Bool-cases (is_null (w.connection_at c).account)) [
      | inl fresh ↦ rw (fresh, beq_self c, beq_self w.next_account) tt
      | inr known ↦ rw known h
    ]

    pub greet-Ready : (w : World) → Ready w → Ready (greet env c w)
    unfolding greet
    greet-Ready w h =
        Ready-Keeps
          (Keeps-trans (sync_nick-Keeps (ensure_account env c w)) (
            Keeps-trans (register-Keeps _) (
              Keeps-trans (send_welcome-Keeps _)
                (Keeps-trans (handle_lusers-Keeps _) (handle_motd-Keeps _)))))
          (ensure_account-Ready w h)
