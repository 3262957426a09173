-- ===== src/Sql/Servers/Once.antt =====
-- lib/sql.cpp, `server_add_member`: an account becomes a member of a server once.
use chatripper.Common.{
  if◌then◌else◌, ℕ, ◌≡◌, ◌≢◌, ◌∙◌, ap, refl, Bool, true, false, ◌||◌, [], ◌∷◌, ◌++◌, arith,
}
use chatripper.Common.Outcome.{Outcome, done, deadlock, fault, ◌>>=◌}
use chatripper.State.{is_null}
use chatripper.Core.Caches.{get_by_uid}
use chatripper.Core.Directory.{Directory, add_account}
use chatripper.Core.Directory.Tables.{lookup}
use chatripper.Sql.Channels.{is_member}
use chatripper.Sql.Channels.Members.{same_pair, is_member-append}
use chatripper.Sql.Servers.Free.{Calm, Any, Fine}
use chatripper.Sql.Servers.Returns.{server_add_member-Fine}
use chatripper.Sql.Database.{via, has_account, has_server, Store}
use chatripper.Sql.Roles.{assign_role_to_account}
use chatripper.Sql.Servers.{enter_member, server_add_member}

done-Kept :
    (m : Outcome Directory) (f : Directory → Bool × Store) (s t : Store) (b : Bool)
    → ((d : Directory)
        → ((f d).0 ≡ true)
          × ((f d).1.tables.up ≡ s.tables.up)
          × ((f d).1.tables.server_members ≡ s.tables.server_members))
    → (m >>= λ d. done (f d)) ≡ done (b, t)
    → (b ≡ true) × (t.tables.up ≡ s.tables.up) × (t.tables.server_members ≡ s.tables.server_members)
done-Kept (done d) f s t b keeps h = ground (arith, h, keeps d)
done-Kept deadlock f s t b keeps h = ground (arith, h)
done-Kept fault f s t b keeps h = ground (arith, h)

enter_member-Kept :
    (account server : ℕ) (s t : Store) (b : Bool)
    → enter_member account server s ≡ done (b, t)
    → (b ≡ true) × (t.tables.up ≡ s.tables.up) × (t.tables.server_members ≡ s.tables.server_members)
unfolding enter_member assign_role_to_account
enter_member-Kept account server s t b h =
    done-Kept
      (if s.writer_waits
        then deadlock
        else via server (add_account s.world server (get_by_uid account s.world) s.directory))
      _ s t b (λ d. ground arith) h

-- What a call with a connection and two ids comes to, if it returns.
add-members :
    (account server b d : ℕ) (s t : Store) (r : Bool)
    → is_null account ≡ false
    → is_null server ≡ false
    → s.tables.up ≡ true
    → has_account account s.tables.accounts ≡ true
    → has_server server s.tables.servers ≡ true
    → server_add_member account server s ≡ done (r, t)
    → (r ≡ true)
      × (t.tables.up ≡ true)
      × (is_member b d t.tables.server_members
          ≡ (same_pair account server b d || is_member b d s.tables.server_members))
unfolding server_add_member
add-members account server b d s t r k l up account_there server_there h =
    let stored = record s {
      tables = record s.tables {
        server_members = s.tables.server_members ++ (account, server) ∷ [];
      };
    } in
    let entered = enter_member-Kept account (lookup server s.directory.servers) stored t r in
    ground (arith, h, entered, is_member-append account server b d s.tables.server_members)

add-known :
    (account server : ℕ) (t : Store)
    → is_null account ≡ false
    → is_null server ≡ false
    → t.tables.up ≡ true
    → is_member account server t.tables.server_members ≡ true
    → server_add_member account server t ≡ done (true, t)
unfolding server_add_member
add-known account server t k l up known = ground (arith, k, l, up, known)

-- The call succeeds from `s` with `t`, which has one member more; no lock is held there, and a second
-- call changes nothing.
abbrev pub JoinsOnce : ℕ → ℕ → Store → Store → Type 0
JoinsOnce account server s t =
    (server_add_member account server s ≡ done (true, t))
    × Calm t
    × ((b d : ℕ)
        → is_member b d t.tables.server_members
          ≡ (same_pair account server b d || is_member b d s.tables.server_members))
    × (server_add_member account server t ≡ done (true, t))

-- With a working connection, two ids that are not null and have a row of their own, no server that this
-- thread has locked, and no writer that comes to wait for `mtx_cache`, `server_add_member` succeeds;
-- the members are then those that were there and the new one, it holds no lock of a server, and a
-- second call changes nothing.
pub server_add_member_lem :
    (account server : ℕ) (s : Store)
    → account ≢ 0
    → server ≢ 0
    → s.tables.up ≡ true
    → has_account account s.tables.accounts ≡ true
    → has_server server s.tables.servers ≡ true
    → Calm s
    → (t : Store) × JoinsOnce account server s t
server_add_member_lem account server s account_given server_given up account_there server_there
      free =
    returned (server_add_member account server s) (server_add_member-Fine account server s free)
      refl
  where
    given : is_null account ≡ false
    given = ground (arith, account_given)

    known : is_null server ≡ false
    known = ground (arith, server_given)

    returned :
        (m : Outcome (Bool × Store))
        → Fine Any m
        → server_add_member account server s ≡ m
        → (t : Store) × JoinsOnce account server s t
    returned (done (r, t)) k h =
        let after = λ (b d : ℕ).
          add-members account server b d s t r given known up account_there server_there h in
        let itself = after account server in
        (
          t,
          (
            h ∙ ap (λ x. done (x, t)) itself.0,
            k.returned.1,
            λ b d. (after b d).2,
            add-known account server t given known itself.1 (ground (arith, itself.2)),
          ),
        )
    returned deadlock k h = absurd k.returned
    returned fault k h = absurd k.returned
