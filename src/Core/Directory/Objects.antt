-- ===== src/Core/Directory/Objects.antt =====
-- core/server.h, core/role.h, core/permission.h and core/upload.h: the objects of a server and the
-- methods that set a field. A setter takes the lock of its object for itself.
use chatripper.Common.{ℕ, ◌<◌, ◌≡◌, refl, arith, [], Bytes, Bool, false, Map, nat_key}
use chatripper.Common.Time.{ℤ, pos}
use chatripper.Bitflags.{FlagEnum, Flags, no_flags}

-- `write_locked`: this thread holds `mtx_lock` for writing.
pub record Server : Type 0 where
  pub uid : ℕ
  pub name : Bytes
  pub owner : ℕ
  pub channels : Map ℕ ℕ
  pub roles : Map ℕ ℕ
  pub accounts : Map ℕ ℕ
  pub creation_date : ℕ
  pub write_locked : Bool

pub record Role : Type 0 where
  pub uid : ℕ
  pub name : Bytes
  pub server_uid : ℕ
  pub icon_uid : ℕ
  pub color : ℤ
  pub priority : ℤ
  pub creation_date : ℕ

-- `Permission::Flags`
pub data Right : Type 0 where
  can_view can_send can_manage can_assign : Right

pub record Permission : Type 0 where
  pub uid : ℕ
  pub role_uid : ℕ
  pub flags : Flags Right
  pub creation_date : ℕ

pub record Upload : Type 0 where
  pub uid : ℕ
  pub owner_uid : ℕ
  pub path : Bytes
  pub kind : ℤ
  pub variant : ℤ
  pub creation_date : ℕ

abbrev right_shift : Right → ℕ
right_shift can_view = 0
right_shift can_send = 1
right_shift can_manage = 2
right_shift can_assign = 3

pub right_shift-lt : (r : Right) → right_shift r < 32
right_shift-lt can_view = omega arith
right_shift-lt _ = omega arith

pub right_shift_injective : (a b : Right) → right_shift a ≡ right_shift b → a ≡ b
right_shift_injective can_view can_view h = refl
right_shift_injective can_view can_send h = cc
right_shift_injective can_view can_manage h = cc
right_shift_injective can_view can_assign h = cc
right_shift_injective can_send can_view h = cc
right_shift_injective can_send can_send h = refl
right_shift_injective can_send can_manage h = cc
right_shift_injective can_send can_assign h = cc
right_shift_injective can_manage can_view h = cc
right_shift_injective can_manage can_send h = cc
right_shift_injective can_manage can_manage h = refl
right_shift_injective can_manage can_assign h = cc
right_shift_injective can_assign can_view h = cc
right_shift_injective can_assign can_send h = cc
right_shift_injective can_assign can_manage h = cc
right_shift_injective can_assign can_assign h = refl

instance abbrev pub right_flags : FlagEnum Right
right_flags = record {
  shift = right_shift;
  shift_lt = right_shift-lt;
  shift_injective = right_shift_injective;
}

-- The constructors.
unfoldable pub new_server : Bytes → Server
new_server name = record {
  uid = 0;
  name = name;
  owner = 0;
  channels = [];
  roles = [];
  accounts = [];
  creation_date = 0;
  write_locked = false;
}

unfoldable pub new_role : Bytes → Role
new_role name = record {
  uid = 0;
  name = name;
  server_uid = 0;
  icon_uid = 0;
  color = pos 0;
  priority = pos 0;
  creation_date = 0;
}

unfoldable pub new_permission : Permission
new_permission = record { uid = 0; role_uid = 0; flags = no_flags; creation_date = 0 }

unfoldable pub new_upload : Upload
new_upload = record {
  uid = 0;
  owner_uid = 0;
  path = [];
  kind = pos 0;
  variant = pos 0;
  creation_date = 0;
}
