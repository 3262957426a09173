-- ===== src/Sql/Servers.antt =====
-- lib/sql.cpp: servers and their members. `fresh` gives the new ids and `now` is the time.
pub mod Free
pub mod Once
pub mod Returns
use chatripper.Common.{
  ℕ, ◌+◌, Bool, true, false, not, ◌&&◌, ◌||◌, nat_eqb, Option, none, some, List, [], ◌∷◌, ◌++◌,
  Bytes, codes, bytes_key, bytes_eqb, nat_key, Map, find, has_key, is_empty, if◌then◌else◌,
}
use chatripper.Common.Outcome.{Outcome, done, deadlock, ◌>>=◌}
use chatripper.Common.Time.{ℤ, pos}
use chatripper.Bitflags.{Flags}
use chatripper.State.{World, is_null, or_null}
use chatripper.Core.Caches.{get_by_uid}
use chatripper.Core.Directory.Objects.{Server, Right}
use chatripper.Core.Directory.Tables.{lookup}
use chatripper.Core.Directory.{
  Directory, server_from_db, role_from_db, permission_from_db, upload_from_db, add_role,
  add_account, role_by_name,
}
use chatripper.Sql.Roles.{assign_role_to_account, create_role_for_server}
use chatripper.Sql.Database.{
  via, has_account, has_server, Store, ServerRow, UploadRow, RoleRow, PermissionRow, Database,
}
use chatripper.Sql.Channels.{is_member}

-- The cached server takes in the account, and the account gets the role `@everyone`. `mtx_cache` is
-- held for reading, and `get_by_uid` takes it once more: if a writer has come to wait in between,
-- Qt lets no further reader in, and neither goes on.
unfoldable pub enter_member : ℕ → ℕ → Store → Outcome (Bool × Store)
unfolding add_account get_by_uid role_by_name assign_role_to_account
enter_member account server s =
    (if s.writer_waits
      then deadlock
      else via server (add_account s.world server (get_by_uid account s.world) s.directory))
    >>= λ d.
        let entered = record s { directory = d } in
        let everyone = role_by_name (codes "@everyone") (d.servers.object_at server).roles d in
        done (
          true,
          (if is_null everyone
              then entered
              else (assign_role_to_account account everyone entered).1),
        )

unfoldable pub server_add_member : ℕ → ℕ → Store → Outcome (Bool × Store)
unfolding is_member has_account has_server enter_member lookup
server_add_member account server s =
    let stored = record s {
      tables = record s.tables {
        server_members = s.tables.server_members ++ (account, server) ∷ [];
      };
    } in
    let cached = lookup server s.directory.servers in
    if is_null account
    then done (false, s)
    else if is_null server
    then done (false, s)
    else if not s.tables.up
    then done (false, s)
    else if is_member account server s.tables.server_members
    then done (true, s)
    else if not (has_account account s.tables.accounts && has_server server s.tables.servers)
    then done (false, s)
    else if is_null cached
    then done (true, stored)
    else enter_member account cached stored

-- `WHERE name = ?`
unfoldable pub server_row : Bytes → List ServerRow → Option ServerRow
server_row name [] = none
server_row name (r ∷ rs) =
    let later = server_row name rs in if bytes_eqb r.name name then some r else later

-- The accounts of the rows of a server that are in the cache.
unfoldable pub load_members : ℕ → ℕ → List (ℕ × ℕ) → Store → Outcome (ℕ × Store)
unfolding add_account
load_members p server [] s = done (p, s)
load_members p server ((account, other) ∷ rest) s =
    let known = has_key account s.world.accounts_lookup_uuid in
    let member = or_null (find account s.world.accounts_lookup_uuid) in
    let one =
      if nat_eqb other server && known
      then via p (add_account s.world p member s.directory)
      else done s.directory in
    one >>= λ d. load_members p server rest (record s { directory = d })

-- The server from its row, or from a new one.
unfoldable pub find_or_insert : ℕ → Bytes → ℕ → ℕ → Store → ℕ × Store
unfolding server_row server_from_db get_by_uid
find_or_insert id name owner now s =
    let owner_uid = (s.world.account_at owner).uid in
    let row : ServerRow = record {
      id = id;
      name = name;
      owner_id = owner_uid;
      creation_date = now;
    } in
    let made = server_from_db id name owner now s.directory in
    elim (server_row name s.tables.servers) [
      | some r ↦
          (let (p, d) =
              server_from_db r.id r.name (get_by_uid r.owner_id s.world) r.creation_date
                s.directory in
            (p, record s { directory = d }))
      | none ↦ (
        made.0,
        record s {
          directory = made.1;
          tables = record s.tables { servers = s.tables.servers ++ row ∷ [] };
        },
      )
    ]

-- The owner becomes a member, and the members that are stored come in.
unfoldable pub take_members : ℕ → ℕ → Store → Outcome (ℕ × Store)
unfolding server_add_member add_account load_members
take_members server owner s =
    let server_uid = (s.directory.servers.object_at server).uid in
    via server (server_add_member (s.world.account_at owner).uid server_uid s) >>= λ added.
    via server (add_account added.1.world server owner added.1.directory) >>= λ d.
    load_members server server_uid added.1.tables.server_members (record added.1 { directory = d })

unfoldable pub server_get_or_create : (ℕ → ℕ) → Bytes → ℕ → ℕ → Store → Outcome (ℕ × Store)
unfolding find_or_insert create_role_for_server take_members
server_get_or_create fresh name owner now s =
    let cached = or_null (find name s.directory.servers.lookup_name) in
    let (server, s1) = find_or_insert (fresh 0) name owner now s in
    if is_null owner
    then done (0, s)
    else if not (is_null cached)
    then done (cached, s)
    else if not s.tables.up
    then done (0, s)
    else create_role_for_server fresh server (codes "@everyone") (pos 0) 0 true
        (record { bits = 0 }) now s1
      >>= λ made. take_members server owner made.1
