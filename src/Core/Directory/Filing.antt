-- ===== src/Core/Directory/Filing.antt =====
-- ctx.cpp: the caches of servers, roles, permissions and uploads stay in step with one another.
use chatripper.Common.{
  ℕ, ◌≡◌, ◌⊎◌, refl, sym, subst, true, [], Bytes, contains, nat_key, bytes_key, arith, inl, inr,
}
use chatripper.Common.Outcome.{done}
use chatripper.Common.Time.{ℤ}
use chatripper.Core.Directory.Objects.{
  Server, Role, Permission, Upload, new_server, new_role, new_permission, new_upload,
}
use chatripper.Core.Directory.{
  Directory, server_named, role_named, permission_named, upload_named, server_from_db, role_from_db,
  permission_from_db, upload_from_db, server_remove_cache, role_remove_cache,
  permission_remove_cache, upload_remove_cache,
}
use chatripper.Core.Directory.Tables.Filed.{
  remove_cache-IsFiled, create_once-IsFiled, set_object-IsFiled, empty_shelf-IsFiled, Found,
  found_lem,
}
use chatripper.Core.Directory.Tables.{Shelf, empty_shelf, set_object, remove_cache, IsFiled}

-- All four shelves are in order.
pub record IsOrdered (d : Directory) : Type 0 where
  servers_filed : IsFiled d.servers
  roles_filed : IsFiled d.roles
  permissions_filed : IsFiled d.permissions
  uploads_filed : IsFiled d.uploads

-- What may happen to the directory: objects come from the database, known ones are taken out, and
-- objects are changed in other fields than id and name.
pub data Step (d : Directory) : Directory → Type 0 where
  server_created :
      (id : ℕ) (name : Bytes) (owner creation : ℕ)
      → Step d (server_from_db id name owner creation d).1
  role_created :
      (id server : ℕ) (name : Bytes) (icon : ℕ) (color priority : ℤ) (creation : ℕ)
      → Step d (role_from_db id server name icon color priority creation d).1
  permission_created :
      (id role permission_bits creation : ℕ)
      → Step d (permission_from_db id role permission_bits creation d).1
  upload_created :
      (id owner : ℕ) (path : Bytes) (kind variant : ℤ) (creation : ℕ)
      → Step d (upload_from_db id owner path kind variant creation d).1
  server_removed :
      (p : ℕ) {e : Directory}
      → contains d.servers.objects p ≡ true
      → server_remove_cache p d ≡ done e
      → Step d e
  role_removed : (p : ℕ) → contains d.roles.objects p ≡ true → Step d (role_remove_cache p d)
  permission_removed :
      (p : ℕ) → contains d.permissions.objects p ≡ true → Step d (permission_remove_cache p d)
  upload_removed : (p : ℕ) → contains d.uploads.objects p ≡ true → Step d (upload_remove_cache p d)
  server_changed :
      (p : ℕ) (s : Server)
      → s.uid ≡ (d.servers.object_at p).uid
      → s.name ≡ (d.servers.object_at p).name
      → Step d (record d { servers = set_object p s d.servers })
  role_changed :
      (p : ℕ) (r : Role)
      → r.uid ≡ (d.roles.object_at p).uid
      → r.name ≡ (d.roles.object_at p).name
      → Step d (record d { roles = set_object p r d.roles })
  permission_changed :
      (p : ℕ) (r : Permission)
      → r.uid ≡ (d.permissions.object_at p).uid
      → Step d (record d { permissions = set_object p r d.permissions })
  upload_changed :
      (p : ℕ) (u : Upload)
      → u.uid ≡ (d.uploads.object_at p).uid
      → Step d (record d { uploads = set_object p u d.uploads })

pub data Reach (d : Directory) : Directory → Type 0 where
  here : Reach d d
  next : {e f : Directory} → Reach d e → Step e f → Reach d f

with_servers :
    {d : Directory} {s : Shelf Server}
    → IsOrdered d
    → IsFiled s
    → IsOrdered (record d { servers = s })
with_servers h k = record {
  servers_filed = k;
  roles_filed = h.roles_filed;
  permissions_filed = h.permissions_filed;
  uploads_filed = h.uploads_filed;
}

with_roles :
    {d : Directory} {s : Shelf Role} → IsOrdered d → IsFiled s → IsOrdered (record d { roles = s })
with_roles h k = record {
  servers_filed = h.servers_filed;
  roles_filed = k;
  permissions_filed = h.permissions_filed;
  uploads_filed = h.uploads_filed;
}

with_permissions :
    {d : Directory} {s : Shelf Permission}
    → IsOrdered d
    → IsFiled s
    → IsOrdered (record d { permissions = s })
with_permissions h k = record {
  servers_filed = h.servers_filed;
  roles_filed = h.roles_filed;
  permissions_filed = k;
  uploads_filed = h.uploads_filed;
}

with_uploads :
    {d : Directory} {s : Shelf Upload}
    → IsOrdered d
    → IsFiled s
    → IsOrdered (record d { uploads = s })
with_uploads h k = record {
  servers_filed = h.servers_filed;
  roles_filed = h.roles_filed;
  permissions_filed = h.permissions_filed;
  uploads_filed = k;
}

removed-IsOrdered :
    (p : ℕ) (d e : Directory)
    → contains d.servers.objects p ≡ true
    → server_remove_cache p d ≡ done e
    → IsOrdered d
    → IsOrdered e
unfolding server_remove_cache
removed-IsOrdered p d e known out h =
    let same : (e ≡ d) ⊎ (e ≡ record d { servers = remove_cache p d.servers }) = ground arith in
    elim same [
      | inl k ↦ subst IsOrdered (sym k) h
      | inr k ↦
          subst IsOrdered (sym k)
            (with_servers h (remove_cache-IsFiled p d.servers known h.servers_filed))
    ]

Step-IsOrdered : {d e : Directory} → Step d e → IsOrdered d → IsOrdered e
unfolding server_from_db role_from_db permission_from_db upload_from_db role_remove_cache
    permission_remove_cache upload_remove_cache
Step-IsOrdered {d} (server_created id name owner creation) h =
    with_servers h (create_once-IsFiled id _ d.servers refl h.servers_filed)
Step-IsOrdered {d} (role_created id server name icon color priority creation) h =
    with_roles h (create_once-IsFiled id _ d.roles refl h.roles_filed)
Step-IsOrdered {d} (permission_created id role bits creation) h =
    with_permissions h (create_once-IsFiled id _ d.permissions refl h.permissions_filed)
Step-IsOrdered {d} (upload_created id owner path kind variant creation) h =
    with_uploads h (create_once-IsFiled id _ d.uploads refl h.uploads_filed)
Step-IsOrdered {d} (server_removed p known out) h = removed-IsOrdered p d _ known out h
Step-IsOrdered {d} (role_removed p known) h =
    with_roles h (remove_cache-IsFiled p d.roles known h.roles_filed)
Step-IsOrdered {d} (permission_removed p known) h =
    with_permissions h (remove_cache-IsFiled p d.permissions known h.permissions_filed)
Step-IsOrdered {d} (upload_removed p known) h =
    with_uploads h (remove_cache-IsFiled p d.uploads known h.uploads_filed)
Step-IsOrdered {d} (server_changed p s e k) h =
    with_servers h (set_object-IsFiled p s d.servers e k h.servers_filed)
Step-IsOrdered {d} (role_changed p r e k) h =
    with_roles h (set_object-IsFiled p r d.roles e k h.roles_filed)
Step-IsOrdered {d} (permission_changed p r e) h =
    with_permissions h (set_object-IsFiled p r d.permissions e refl h.permissions_filed)
Step-IsOrdered {d} (upload_changed p u e) h =
    with_uploads h (set_object-IsFiled p u d.uploads e refl h.uploads_filed)

Reach-IsOrdered : {d e : Directory} → IsOrdered d → Reach d e → IsOrdered e
Reach-IsOrdered h here = h
Reach-IsOrdered h (next r s) = Step-IsOrdered s (Reach-IsOrdered h r)

-- The directory at the start.
abbrev pub empty_directory : Directory
empty_directory = record {
  servers = empty_shelf (new_server []);
  roles = empty_shelf (new_role []);
  permissions = empty_shelf new_permission;
  uploads = empty_shelf new_upload;
}

empty-IsOrdered : IsOrdered empty_directory
empty-IsOrdered = record {
  servers_filed = empty_shelf-IsFiled (new_server []);
  roles_filed = empty_shelf-IsFiled (new_role []);
  permissions_filed = empty_shelf-IsFiled new_permission;
  uploads_filed = empty_shelf-IsFiled new_upload;
}

-- Whatever was loaded, changed in other fields than id and name, and taken out of what was known: an
-- object is known exactly if it is found under its id, so that no two known objects share an id.
-- That holds of servers, roles, permissions and uploads.
pub reach-Found :
    (d : Directory) (id p : ℕ)
    → Reach empty_directory d
    → (Found d.servers id p)
      × (Found d.roles id p)
      × (Found d.permissions id p)
      × (Found d.uploads id p)
reach-Found d id p r =
    let h = Reach-IsOrdered empty-IsOrdered r in
    (
      found_lem id p d.servers h.servers_filed,
      found_lem id p d.roles h.roles_filed,
      found_lem id p d.permissions h.permissions_filed,
      found_lem id p d.uploads h.uploads_filed,
    )
