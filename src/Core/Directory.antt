-- ===== src/Core/Directory.antt =====
-- core/server.cpp, core/role.cpp, core/permission.cpp and core/upload.cpp, and the caches of ctx.cpp
-- that hold their objects. The lock of a server is modelled, since `merge` calls methods that take it
-- while it holds it; the tables of a server hold no null pointer.
pub mod Objects
pub mod Setters
pub mod Tables
pub mod Filing
pub mod Merge
use chatripper.Common.{
  ℕ, Bool, true, false, not, ◌&&◌, Option, none, some, List, [], ◌∷◌, Bytes, Map, find, insert,
  remove, nat_key, bytes_key, nat_eqb, bytes_eqb, if◌then◌else◌,
}
use chatripper.Common.Outcome.{Outcome, done, deadlock, fault, ◌>>=◌}
use chatripper.Common.Time.{ℤ}
use chatripper.Bitflags.{Flags}
use chatripper.State.{World, is_null, or_null}
use chatripper.Core.Directory.Objects.{
  Server, Role, Right, Permission, Upload, new_server, new_role, new_permission, new_upload,
}
use chatripper.Core.Directory.Setters.{
  set_server_uid, set_server_name, set_account_owner, set_role_uid, set_role_name,
  set_server_of_role, set_icon, set_color, set_priority, set_permission_uid, set_role_of_permission,
  set_flags, set_upload_uid, set_upload_owner, set_path, set_kind, set_variant,
}
use chatripper.Core.Directory.Tables.{
  Named, Shelf, set_object, lookup, insert_cache, remove_cache, create_once,
}

instance abbrev pub server_named : Named Server
server_named = record { uid_of = λ o. o.uid; name_of = λ o. o.name }

instance abbrev pub role_named : Named Role
role_named = record { uid_of = λ o. o.uid; name_of = λ o. o.name }

instance abbrev pub permission_named : Named Permission
permission_named = record { uid_of = λ o. o.uid; name_of = λ o. [] }

instance abbrev pub upload_named : Named Upload
upload_named = record { uid_of = λ o. o.uid; name_of = λ o. [] }

-- ctx.h
pub record Directory : Type 0 where
  pub servers : Shelf Server
  pub roles : Shelf Role
  pub permissions : Shelf Permission
  pub uploads : Shelf Upload

-- The object is new where these are called, so that its lock is free.
unfoldable server_insert_cache : ℕ → Directory → Directory
unfolding insert_cache
server_insert_cache p d = record d { servers = insert_cache p d.servers }

unfoldable role_insert_cache : ℕ → Directory → Directory
unfolding insert_cache
role_insert_cache p d = record d { roles = insert_cache p d.roles }

unfoldable permission_insert_cache : ℕ → Directory → Directory
unfolding insert_cache
permission_insert_cache p d = record d { permissions = insert_cache p d.permissions }

unfoldable upload_insert_cache : ℕ → Directory → Directory
unfolding insert_cache
upload_insert_cache p d = record d { uploads = insert_cache p d.uploads }

-- The id and the name of the server are read under its lock.
unfoldable pub server_remove_cache : ℕ → Directory → Outcome Directory
unfolding remove_cache
server_remove_cache p d =
    if is_null p
    then done d
    else if (d.servers.object_at p).write_locked
    then deadlock
    else done (record d { servers = remove_cache p d.servers })

unfoldable pub role_remove_cache : ℕ → Directory → Directory
unfolding remove_cache
role_remove_cache p d = record d { roles = remove_cache p d.roles }

unfoldable pub permission_remove_cache : ℕ → Directory → Directory
unfolding remove_cache
permission_remove_cache p d = record d { permissions = remove_cache p d.permissions }

unfoldable pub upload_remove_cache : ℕ → Directory → Directory
unfolding remove_cache
upload_remove_cache p d = record d { uploads = remove_cache p d.uploads }

-- The four `create_from_db`: a pointer, and the directory afterwards.
unfoldable pub server_from_db : ℕ → Bytes → ℕ → ℕ → Directory → ℕ × Directory
unfolding create_once new_server
server_from_db id name owner creation d =
    let set_up =
      set_account_owner owner (set_server_name name (set_server_uid id (new_server name))) in
    let server = record set_up { creation_date = creation } in
    let (p, servers) = create_once id server d.servers in (p, record d { servers = servers })

unfoldable pub role_from_db : ℕ → ℕ → Bytes → ℕ → ℤ → ℤ → ℕ → Directory → ℕ × Directory
unfolding create_once new_role
role_from_db id server_id name icon color priority creation d =
    let named =
      set_role_name name (set_server_of_role server_id (set_role_uid id (new_role name))) in
    let set_up = set_priority priority (set_color color (set_icon icon named)) in
    let role = record set_up { creation_date = creation } in
    let (p, roles) = create_once id role d.roles in (p, record d { roles = roles })

unfoldable pub permission_from_db : ℕ → ℕ → ℕ → ℕ → Directory → ℕ × Directory
unfolding create_once new_permission
permission_from_db id role_id permission_bits creation d =
    let flags : Flags Right = record { bits = permission_bits } in
    let set_up =
      set_flags flags (set_role_of_permission role_id (set_permission_uid id new_permission)) in
    let permission = record set_up { creation_date = creation } in
    let (p, permissions) = create_once id permission d.permissions in
    (p, record d { permissions = permissions })

unfoldable pub upload_from_db : ℕ → ℕ → Bytes → ℤ → ℤ → ℕ → Directory → ℕ × Directory
unfolding create_once new_upload
upload_from_db id owner_id path kind variant creation d =
    let owned = set_upload_owner owner_id (set_upload_uid id new_upload) in
    let set_up = set_variant variant (set_kind kind (set_path path owned)) in
    let upload = record set_up { creation_date = creation } in
    let (p, uploads) = create_once id upload d.uploads in (p, record d { uploads = uploads })

-- `QWriteLocker locker(&mtx_lock)` around a change of the server at `p`.
abbrev pub change_server : ℕ → (Server → Server) → Directory → Outcome Directory
change_server p f d =
    let s = d.servers.object_at p in
    if s.write_locked then deadlock else done (record d { servers = set_object p (f s) d.servers })

unfoldable pub add_role : ℕ → ℕ → Directory → Outcome Directory
add_role p role d =
    change_server p (λ s. record s { roles = insert (d.roles.object_at role).uid role s.roles }) d

unfoldable remove_role : ℕ → ℕ → Directory → Outcome Directory
remove_role p role d =
    change_server p (λ s. record s { roles = remove (d.roles.object_at role).uid s.roles }) d

-- The first role of that name.
unfoldable pub role_by_name : Bytes → Map ℕ ℕ → Directory → ℕ
role_by_name name [] d = 0
role_by_name name ((id, role) ∷ rest) d =
    let later = role_by_name name rest d in
    if bytes_eqb (d.roles.object_at role).name name then role else later

unfoldable remove_account : ℕ → ℕ → Directory → Outcome Directory
remove_account p account_uid d =
    change_server p (λ s. record s { accounts = remove account_uid s.accounts }) d

module _ (w : World) where
  unfoldable pub add_channel : ℕ → ℕ → Directory → Outcome Directory
  add_channel p ch d =
      change_server p (λ s. record s { channels = insert (w.channel_at ch).uid ch s.channels }) d

  unfoldable remove_channel : ℕ → ℕ → Directory → Outcome Directory
  remove_channel p ch d =
      change_server p (λ s. record s { channels = remove (w.channel_at ch).uid s.channels }) d

  unfoldable pub add_account : ℕ → ℕ → Directory → Outcome Directory
  add_account p a d =
      if is_null a
      then done d
      else change_server p (λ s. record s { accounts = insert (w.account_at a).uid a s.accounts }) d

  unfoldable is_owned_by : Server → ℕ → Bool
  is_owned_by s account_uid =
      not (is_null s.owner) && nat_eqb (w.account_at s.owner).uid account_uid

  -- The loops of `merge`.
  unfoldable pub add_channels : ℕ → Map ℕ ℕ → Directory → Outcome Directory
  unfolding add_channel
  add_channels p [] d = done d
  add_channels p ((id, ch) ∷ rest) d = add_channel p ch d >>= λ e. add_channels p rest e

  unfoldable pub add_roles : ℕ → Map ℕ ℕ → Directory → Outcome Directory
  unfolding add_role
  add_roles p [] d = done d
  add_roles p ((id, role) ∷ rest) d = add_role p role d >>= λ e. add_roles p rest e

  abbrev pub set_server : ℕ → Server → Directory → Directory
  set_server p s d = record d { servers = set_object p s d.servers }

  -- `merge`: the server at `self` takes what the server at `from` has.
  unfoldable pub merge : ℕ → ℕ → Directory → Outcome Directory
  unfolding add_channels add_roles server_remove_cache
  merge self from d =
      let server_at = d.servers.object_at in
      if (server_at self).write_locked
      then deadlock
      else if is_null from
      then fault
      else add_channels self (server_at from).channels
          (set_server self (record (server_at self) { write_locked = true }) d)
        >>= λ d1. add_roles self (d1.servers.object_at from).roles d1 >>= λ d2.
            server_remove_cache from (
              set_server from (record (d2.servers.object_at from) { channels = []; roles = [] }) d2)
            >>= λ d3.
                done
                  (set_server self (record (d3.servers.object_at self) { write_locked = false }) d3)
