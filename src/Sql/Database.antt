-- ===== src/Sql/Database.antt =====
-- lib/sql.cpp: the rows of the tables that the program writes.
use chatripper.State.{World, is_null}
use chatripper.Common.Outcome.{Outcome, fault}
use chatripper.Core.Directory.{Directory}
use chatripper.Common.{ℕ, Bool, false, ◌||◌, nat_eqb, List, [], ◌∷◌, Bytes, if◌then◌else◌}
use chatripper.Common.Time.{ℤ}
use chatripper.State.{RefType, Message}

pub record AccountRow : Type 0 where
  pub id : ℕ
  pub username : Bytes
  pub password : Bytes

pub record ChannelRow : Type 0 where
  pub id : ℕ
  pub server_id : ℕ
  pub name : Bytes
  pub topic : Bytes
  -- 0 for NULL
  pub owner_id : ℕ

pub record ServerRow : Type 0 where
  pub id : ℕ
  pub name : Bytes
  pub owner_id : ℕ
  pub creation_date : ℕ

pub record UploadRow : Type 0 where
  pub id : ℕ
  pub owner_id : ℕ
  pub path : Bytes
  pub kind : ℤ
  pub variant : ℤ
  pub creation_date : ℕ

-- `color` is NULL, which is read as 0; so is the icon if there is none.
pub record RoleRow : Type 0 where
  pub id : ℕ
  pub server_id : ℕ
  pub name : Bytes
  pub icon : ℕ
  pub color : ℤ
  pub priority : ℤ
  pub creation_date : ℕ

pub record PermissionRow : Type 0 where
  pub id : ℕ
  pub role_id : ℕ
  pub permission_bits : ℕ

pub record LoginRow : Type 0 where
  pub id : ℕ
  pub account_id : ℕ
  pub ip : Bytes

pub record MetadataRow : Type 0 where
  pub id : ℕ
  pub key : Bytes
  pub value : Bytes
  pub ref_id : ℕ
  pub ref_type : RefType

pub record SubRow : Type 0 where
  pub id : ℕ
  pub metadata_id : ℕ
  pub account_id : ℕ

pub record Database : Type 0 where
  pub up : Bool
  pub accounts : List AccountRow
  pub channels : List ChannelRow
  pub servers : List ServerRow
  -- account and server
  pub server_members : List (ℕ × ℕ)
  pub uploads : List UploadRow
  pub roles : List RoleRow
  -- account and role
  pub account_roles : List (ℕ × ℕ)
  pub permissions : List PermissionRow
  -- account and channel
  pub account_channels : List (ℕ × ℕ)
  pub logins : List LoginRow
  pub messages : List Message
  pub metadata : List MetadataRow
  pub metadata_subs : List SubRow

-- What the functions on servers read and write.
pub record Store : Type 0 where
  pub world : World
  pub directory : Directory
  pub tables : Database
  -- whether another thread comes to wait for `mtx_cache`, to write, while this one reads
  pub writer_waits : Bool

-- A call through a pointer, `p->...`.
abbrev pub via {ℓ} : {A : Type ℓ} → ℕ → Outcome A → Outcome A
via p called = if is_null p then fault else called

-- `FOREIGN KEY(account_id)` and `FOREIGN KEY(server_id)`: there is such a row.
unfoldable pub has_account : ℕ → List AccountRow → Bool
has_account id [] = false
has_account id (r ∷ rows) = nat_eqb r.id id || has_account id rows

unfoldable pub has_server : ℕ → List ServerRow → Bool
has_server id [] = false
has_server id (r ∷ rows) = nat_eqb r.id id || has_server id rows
