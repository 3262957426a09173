-- ===== src/Core/Directory/Setters.antt =====
-- core/server.cpp, core/role.cpp, core/permission.cpp and core/upload.cpp: the methods that set one
-- field. Each takes the lock of its object for itself. Nothing listens to `nameChanged`.
use chatripper.Common.{ℕ, Bytes}
use chatripper.Common.Time.{ℤ}
use chatripper.Bitflags.{Flags}
use chatripper.Core.Directory.Objects.{Server, Role, Right, Permission, Upload}

abbrev pub set_server_uid : ℕ → Server → Server
set_server_uid id s = record s { uid = id }

abbrev pub set_server_name : Bytes → Server → Server
set_server_name name s = record s { name = name }

abbrev pub set_account_owner : ℕ → Server → Server
set_account_owner owner s = record s { owner = owner }

abbrev pub set_role_uid : ℕ → Role → Role
set_role_uid id r = record r { uid = id }

abbrev pub set_role_name : Bytes → Role → Role
set_role_name name r = record r { name = name }

abbrev pub set_server_of_role : ℕ → Role → Role
set_server_of_role id r = record r { server_uid = id }

abbrev pub set_icon : ℕ → Role → Role
set_icon id r = record r { icon_uid = id }

abbrev pub set_color : ℤ → Role → Role
set_color color r = record r { color = color }

abbrev pub set_priority : ℤ → Role → Role
set_priority priority r = record r { priority = priority }

abbrev pub set_permission_uid : ℕ → Permission → Permission
set_permission_uid id r = record r { uid = id }

abbrev pub set_role_of_permission : ℕ → Permission → Permission
set_role_of_permission id r = record r { role_uid = id }

abbrev pub set_flags : Flags Right → Permission → Permission
set_flags flags r = record r { flags = flags }

abbrev pub set_upload_uid : ℕ → Upload → Upload
set_upload_uid id u = record u { uid = id }

abbrev pub set_upload_owner : ℕ → Upload → Upload
set_upload_owner id u = record u { owner_uid = id }

abbrev pub set_path : Bytes → Upload → Upload
set_path path u = record u { path = path }

abbrev pub set_kind : ℤ → Upload → Upload
set_kind kind u = record u { kind = kind }

abbrev pub set_variant : ℤ → Upload → Upload
set_variant variant u = record u { variant = variant }
