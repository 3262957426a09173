-- ===== src/Sql/Roles.antt =====
-- lib/sql.cpp: uploads, and roles with their permissions. `fresh` gives the new ids and `now` is the
-- time.
use chatripper.Common.{
  ℕ, Bool, true, false, not, ◌&&◌, nat_eqb, Option, none, some, List, [], ◌∷◌, ◌++◌, Bytes,
  bytes_key, bytes_eqb, nat_key, Map, if◌then◌else◌,
}
use chatripper.Common.Outcome.{Outcome, done, ◌>>=◌}
use chatripper.Common.Time.{ℤ, pos}
use chatripper.Bitflags.{Flags}
use chatripper.State.{World, is_null}
use chatripper.Core.Directory.Objects.{Right}
use chatripper.Core.Directory.{role_from_db, permission_from_db, upload_from_db, add_role}
use chatripper.Sql.Database.{via, Store, UploadRow, RoleRow, PermissionRow}
use chatripper.Sql.Channels.{is_member}

-- `INSERT ... ON CONFLICT DO NOTHING` into a table of pairs.
unfoldable add_pair : ℕ → ℕ → List (ℕ × ℕ) → List (ℕ × ℕ)
unfolding is_member
add_pair a b pairs = if is_member a b pairs then pairs else pairs ++ (a, b) ∷ []

-- `WHERE account_owner_id = ? AND path = ?`
unfoldable upload_row : ℕ → Bytes → List UploadRow → Option UploadRow
upload_row owner path [] = none
upload_row owner path (r ∷ rs) =
    let later = upload_row owner path rs in
    if nat_eqb r.owner_id owner && bytes_eqb r.path path then some r else later

unfoldable upload_get_or_create : ℕ → ℕ → Bytes → ℤ → ℤ → ℕ → Store → ℕ × Store
unfolding upload_row upload_from_db
upload_get_or_create id owner path kind variant now s =
    let row : UploadRow = record {
      id = id;
      owner_id = owner;
      path = path;
      kind = kind;
      variant = variant;
      creation_date = now;
    } in
    let made = upload_from_db id owner path kind variant now s.directory in
    if not s.tables.up then (0, s) else elim (upload_row owner path s.tables.uploads) [
      | some r ↦
          (let (p, d) =
              upload_from_db r.id r.owner_id r.path r.kind r.variant r.creation_date s.directory in
            (p, record s { directory = d }))
      | none ↦ (
        made.0,
        record s {
          directory = made.1;
          tables = record s.tables { uploads = s.tables.uploads ++ row ∷ [] };
        },
      )
    ]

-- `WHERE role_id = ?`
unfoldable permission_row : ℕ → List PermissionRow → Option PermissionRow
permission_row role [] = none
permission_row role (r ∷ rs) =
    let later = permission_row role rs in if nat_eqb r.role_id role then some r else later

unfoldable pub permission_get_or_create : ℕ → ℕ → Flags Right → ℕ → Store → ℕ × Store
unfolding permission_row permission_from_db
permission_get_or_create id role flags now s =
    let row : PermissionRow = record { id = id; role_id = role; permission_bits = flags.bits } in
    let made = permission_from_db id role flags.bits now s.directory in
    if not s.tables.up then (0, s) else elim (permission_row role s.tables.permissions) [
      | some r ↦
          (let (p, d) = permission_from_db r.id r.role_id r.permission_bits now s.directory in
            (p, record s { directory = d }))
      | none ↦ (
        made.0,
        record s {
          directory = made.1;
          tables = record s.tables { permissions = s.tables.permissions ++ row ∷ [] };
        },
      )
    ]

-- `WHERE server_id = ? AND name = ?`
unfoldable pub role_row : ℕ → Bytes → List RoleRow → Option RoleRow
role_row server name [] = none
role_row server name (r ∷ rs) =
    let later = role_row server name rs in
    if nat_eqb r.server_id server && bytes_eqb r.name name then some r else later

-- The role of a row, put into the server.
unfoldable pub load_role : ℕ → RoleRow → Store → Outcome (ℕ × Store)
unfolding role_from_db add_role
load_role server r s =
    let (role, d) =
      role_from_db r.id r.server_id r.name r.icon r.color r.priority r.creation_date s.directory in
    via server (add_role server role d) >>= λ e. done (role, record s { directory = e })

-- The role for every member of the server.
unfoldable assign_members : World → ℕ → Map ℕ ℕ → List (ℕ × ℕ) → List (ℕ × ℕ)
unfolding add_pair
assign_members w role [] pairs = pairs
assign_members w role ((id, member) ∷ rest) pairs =
    assign_members w role rest (add_pair (w.account_at member).uid role pairs)

-- The role for the members that the server has, if `assign` says so.
unfoldable pub assign_existing : Bool → ℕ → ℕ → Store → Store
unfolding assign_members
assign_existing assign role server s =
    if assign
    then record s {
      tables = record s.tables {
        account_roles =
            assign_members s.world role (s.directory.servers.object_at server).accounts
              s.tables.account_roles;
      };
    }
    else s

-- The role that is not there yet, with its row and its permissions.
unfoldable pub insert_role :
    (ℕ → ℕ) → ℕ → Bytes → ℤ → ℕ → Bool → Flags Right → ℕ → Store → Outcome (ℕ × Store)
unfolding load_role permission_get_or_create assign_existing
insert_role fresh server name priority icon assign flags now s =
    let row : RoleRow = record {
      id = fresh 1;
      server_id = (s.directory.servers.object_at server).uid;
      name = name;
      icon = icon;
      color = pos 0;
      priority = priority;
      creation_date = now;
    } in
    let stored = record s { tables = record s.tables { roles = s.tables.roles ++ row ∷ [] } } in
    load_role server row stored >>= λ made.
    let permitted = permission_get_or_create (fresh 2) (fresh 1) flags now made.1 in
    done (made.0, assign_existing assign (fresh 1) server permitted.1)

unfoldable pub create_role_for_server :
    (ℕ → ℕ) → ℕ → Bytes → ℤ → ℕ → Bool → Flags Right → ℕ → Store → Outcome (ℕ × Store)
unfolding role_row load_role insert_role
create_role_for_server fresh server name priority icon assign flags now s =
    let server_uid = (s.directory.servers.object_at server).uid in
    if is_null server
    then done (0, s)
    else if is_null server_uid
    then done (0, s)
    else if not s.tables.up
    then done (0, s)
    else elim (role_row server_uid name s.tables.roles) [
      | some r ↦ load_role server r s
      | none ↦ insert_role fresh server name priority icon assign flags now s
    ]

unfoldable pub assign_role_to_account : ℕ → ℕ → Store → Bool × Store
unfolding add_pair
assign_role_to_account account role s =
    if is_null role
    then (false, s)
    else if is_null account
    then (false, s)
    else if not s.tables.up
    then (false, s)
    else (
      true,
      record s {
        tables = record s.tables {
          account_roles =
              add_pair account (s.directory.roles.object_at role).uid s.tables.account_roles;
        };
      },
    )
