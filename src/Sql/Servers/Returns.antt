-- ===== src/Sql/Servers/Returns.antt =====
-- lib/sql.cpp: loading a server takes no lock that the thread holds.
use chatripper.Common.{
  ℕ, ◌≢◌, ◌&&◌, Bool, true, false, not, List, [], ◌∷◌, Bytes, codes, bytes_key, find, nat_key,
  arith, Option-cases, inl, inr, ◌++◌,
}
use chatripper.Common.Outcome.{done}
use chatripper.Common.Time.{ℤ, pos}
use chatripper.Bitflags.{Flags}
use chatripper.State.{is_null, or_null}
use chatripper.Core.Directory.Objects.{Right}
use chatripper.Core.Directory.Tables.{lookup}
use chatripper.Core.Directory.{server_named, role_from_db, add_role, add_account}
use chatripper.Sql.Database.{RoleRow, Store, via, has_account, has_server}
use chatripper.Core.Caches.{get_by_uid}
use chatripper.Sql.Channels.{is_member}
use chatripper.Sql.Roles.{
  insert_role, assign_existing, role_row, load_role, create_role_for_server,
  permission_get_or_create, assign_role_to_account,
}
use chatripper.Sql.Servers.{
  take_members, server_row, enter_member, server_add_member, load_members, find_or_insert,
  server_get_or_create,
}
use chatripper.Sql.Servers.Free.{
  Calm, Any, Fine, ok, ok_directory, bind-Fine, enter-Fine, given_lem, via-Fine, via-FineDirectory,
  branch-Fine, branch-FineDirectory, found-Fine, add_role-Fine, add_account-Fine,
  server_from_db-Free, server_from_db-given, permission_get_or_create-Calm, loosen,
  unblocked-FineDirectory,
}

assign_existing-Calm :
    (assign : Bool) (role server : ℕ) (s : Store)
    → Calm s
    → Calm (assign_existing assign role server s)
unfolding assign_existing
assign_existing-Calm true role server s h = h
assign_existing-Calm false role server s h = h

load_role-Fine :
    (server : ℕ) (r : RoleRow) (s : Store) → server ≢ 0 → Calm s → Fine Any (load_role server r s)
unfolding load_role role_from_db
load_role-Fine server r s given h =
    let (role, d) =
      role_from_db r.id r.server_id r.name r.icon r.color r.priority r.creation_date s.directory in
    enter-Fine (via server (add_role server role d)) (λ e. done (role, record s { directory = e }))
      (via-FineDirectory server (add_role server role d) given (add_role-Fine server role d h.0))
      (λ e k. ok role (record s { directory = e }) tt (k, h.1))

module _ (fresh : ℕ → ℕ) (now : ℕ) where
  insert_role-Fine :
      (server : ℕ) (name : Bytes) (priority : ℤ) (icon : ℕ) (assign : Bool) (flags : Flags Right)
      (s : Store)
      → server ≢ 0
      → Calm s
      → Fine Any (insert_role fresh server name priority icon assign flags now s)
  unfolding insert_role
  insert_role-Fine server name priority icon assign flags s given h =
      let row : RoleRow = record {
        id = fresh 1;
        server_id = (s.directory.servers.object_at server).uid;
        name = name;
        icon = icon;
        color = pos 0;
        priority = priority;
        creation_date = now;
      } in
      let stored = record s { tables = record s.tables { roles = s.tables.roles ++ row ∷ [] } } in
      let permitted = λ (t : Store). (permission_get_or_create (fresh 2) (fresh 1) flags now t).1 in
      bind-Fine (load_role server row stored)
        (λ made. done (made.0, assign_existing assign (fresh 1) server (permitted made.1)))
        (load_role-Fine server row stored given h)
        (λ made t any k. ok made (assign_existing assign (fresh 1) server (permitted t)) tt (
          assign_existing-Calm assign (fresh 1) server (permitted t)
            (permission_get_or_create-Calm (fresh 2) (fresh 1) flags now t k)))

  create_role_for_server-Fine :
      (server : ℕ) (name : Bytes) (priority : ℤ) (icon : ℕ) (assign : Bool) (flags : Flags Right)
      (s : Store)
      → Calm s
      → Fine Any (create_role_for_server fresh server name priority icon assign flags now s)
  unfolding create_role_for_server
  create_role_for_server-Fine server name priority icon assign flags s h =
      let server_uid = (s.directory.servers.object_at server).uid in
      let refused = ok 0 s tt h in
      branch-Fine (is_null server) (done (0, s)) _ refused (λ there.
        branch-Fine (is_null server_uid) (done (0, s)) _ refused (λ known.
          branch-Fine (not s.tables.up) (done (0, s)) _ refused (λ up.
            found-Fine (role_row server_uid name s.tables.roles) _ (λ r. load_role server r s)
              (insert_role-Fine server name priority icon assign flags s (given_lem server there) h)
              (λ r row. load_role-Fine server r s (given_lem server there) h))))

enter_member-Fine :
    (account server : ℕ) (s : Store)
    → server ≢ 0
    → Calm s
    → Fine Any (enter_member account server s)
unfolding enter_member assign_role_to_account
enter_member-Fine account server s given h =
    enter-Fine _ _
      (unblocked-FineDirectory s.writer_waits _ h.1 (
        via-FineDirectory server
          (add_account s.world server (get_by_uid account s.world) s.directory) given
          (add_account-Fine s.world server (get_by_uid account s.world) s.directory h.0)))
      (λ d k. ok true _ tt ((ground (arith, k.0), λ q. ground (arith, k.1 q)), ground (arith, h.1)))

pub server_add_member-Fine :
    (account server : ℕ) (s : Store) → Calm s → Fine Any (server_add_member account server s)
unfolding server_add_member
server_add_member-Fine account server s h =
    let stored = record s {
      tables = record s.tables {
        server_members = s.tables.server_members ++ (account, server) ∷ [];
      };
    } in
    let rows = has_account account s.tables.accounts && has_server server s.tables.servers in
    let refused = ok false s tt h in
    branch-Fine (is_null account) (done (false, s)) _ refused (λ a.
      branch-Fine (is_null server) (done (false, s)) _ refused (λ b.
        branch-Fine (not s.tables.up) (done (false, s)) _ refused (λ up.
          branch-Fine (is_member account server s.tables.server_members) (done (true, s)) _
            (ok true s tt h)
            (λ new. branch-Fine (not rows) (done (false, s)) _ refused (λ stands.
              branch-Fine (is_null (lookup server s.directory.servers)) (done (true, stored)) _
                (ok true stored tt h)
                (λ there. enter_member-Fine account _ stored (given_lem _ there) h))))))

load_members-Fine :
    (p server : ℕ) (rows : List (ℕ × ℕ)) (s : Store)
    → p ≢ 0
    → Calm s
    → Fine (λ q. q ≢ 0) (load_members p server rows s)
unfolding load_members
load_members-Fine p server [] s given h = ok p s given h
load_members-Fine p server ((account, other) ∷ rest) s given h =
    let member = or_null (find account s.world.accounts_lookup_uuid) in
    enter-Fine _ _
      (branch-FineDirectory _ _ _
        (via-FineDirectory p (add_account s.world p member s.directory) given
          (add_account-Fine s.world p member s.directory h.0))
        (λ other_row. ok_directory s.directory h.0))
      (λ d k. load_members-Fine p server rest (record s { directory = d }) given (k, h.1))

find_or_insert-Calm :
    (id : ℕ) (name : Bytes) (owner now : ℕ) (s : Store)
    → Calm s
    → ((find_or_insert id name owner now s).0 ≢ 0) × Calm (find_or_insert id name owner now s).1
unfolding find_or_insert
find_or_insert-Calm id name owner now s h = elim (Option-cases (server_row name s.tables.servers)) [
  | inl none_such ↦
      rw (none_such, find_or_insert)
        (
          server_from_db-given id name owner now s.directory h.0,
          (server_from_db-Free id name owner now s.directory h.0, h.1),
        )
  | inr (r, found) ↦
      let owned = get_by_uid r.owner_id s.world in
      rw (found, find_or_insert)
        (
          server_from_db-given r.id r.name owned r.creation_date s.directory h.0,
          (server_from_db-Free r.id r.name owned r.creation_date s.directory h.0, h.1),
        )
]

take_members-Fine :
    (server owner : ℕ) (s : Store)
    → server ≢ 0
    → Calm s
    → Fine (λ q. q ≢ 0) (take_members server owner s)
unfolding take_members
take_members-Fine server owner s given h =
    let server_uid = (s.directory.servers.object_at server).uid in
    let owner_uid = (s.world.account_at owner).uid in
    bind-Fine (via server (server_add_member owner_uid server_uid s)) _
      (via-Fine server (server_add_member owner_uid server_uid s) given
        (server_add_member-Fine owner_uid server_uid s h))
      (λ added t any k.
        enter-Fine (via server (add_account t.world server owner t.directory)) _
          (via-FineDirectory server (add_account t.world server owner t.directory) given
            (add_account-Fine t.world server owner t.directory k.0))
          (λ d l.
            load_members-Fine server server_uid t.tables.server_members (record t { directory = d })
              given (l, k.1)))

pub server_get_or_create-Fine :
    (fresh : ℕ → ℕ) (name : Bytes) (owner now : ℕ) (s : Store)
    → Calm s
    → Fine Any (server_get_or_create fresh name owner now s)
unfolding server_get_or_create
server_get_or_create-Fine fresh name owner now s h =
    let cached = or_null (find name s.directory.servers.lookup_name) in
    let (server, s1) = find_or_insert (fresh 0) name owner now s in
    let (made_one, calm) = find_or_insert-Calm (fresh 0) name owner now s h in
    let everyone = codes "@everyone" in
    branch-Fine (is_null owner) (done (0, s)) _ (ok 0 s tt h) (λ owned.
      branch-Fine (not (is_null cached)) (done (cached, s)) _ (ok cached s tt h) (λ new.
        branch-Fine (not s.tables.up) (done (0, s)) _ (ok 0 s tt h) (λ up.
          bind-Fine
            (create_role_for_server fresh server everyone (pos 0) 0 true (record { bits = 0 }) now
              s1)
            (λ made. take_members server owner made.1)
            (create_role_for_server-Fine fresh now server everyone (pos 0) 0 true
              (record { bits = 0 }) s1 calm)
            (λ made t any k. loosen (take_members-Fine server owner t made_one k)))))
