-- ===== src/Sql/Rows.antt =====
-- lib/sql.cpp, the metadata: what the statements do to the rows of the two tables.
use chatripper.Common.{
  ℕ, Bool, false, not, ◌&&◌, ◌||◌, nat_eqb, Option, none, some, List, [], ◌∷◌, ◌++◌, Bytes, codes,
  bytes_key, bytes_eqb, nat_key, contains, is_empty, Map, insert, if◌then◌else◌,
}
use chatripper.State.{Variant}
use chatripper.Sql.Schema as Schema
use chatripper.Sql.Schema.{may_insert, may_conflict}
use chatripper.Sql.Database.{MetadataRow, SubRow, Database}

-- `WHERE ref_id = ? AND key = ?`
abbrev pub is_row : ℕ → Bytes → MetadataRow → Bool
is_row ref key r = nat_eqb r.ref_id ref && bytes_eqb r.key key

-- The first row for which that holds.
unfoldable pub row_of : ℕ → Bytes → List MetadataRow → Option MetadataRow
row_of ref key [] = none
row_of ref key (r ∷ rs) =
    let later = row_of ref key rs in if is_row ref key r then some r else later

-- `INSERT INTO metadata (id, key, value, ref_id, ref_type)`
abbrev pub metadata_columns : List Bytes
metadata_columns = codes "id" ∷ codes "key" ∷ codes "value" ∷ codes "ref_id" ∷ codes "ref_type" ∷ []

-- `INSERT INTO metadata_subs (id, metadata_id, account_id)`
abbrev sub_columns : List Bytes
sub_columns = codes "id" ∷ codes "metadata_id" ∷ codes "account_id" ∷ []

-- `SET value = ?` in every such row.
unfoldable pub update_value : ℕ → Bytes → Bytes → List MetadataRow → List MetadataRow
update_value ref key value [] = []
update_value ref key value (r ∷ rs) =
    let rest = update_value ref key value rs in
    if is_row ref key r then record r { value = value } ∷ rest else r ∷ rest

-- `DELETE FROM metadata`
unfoldable pub delete_rows : ℕ → Bytes → List MetadataRow → List MetadataRow
delete_rows ref key [] = []
delete_rows ref key (r ∷ rs) =
    let rest = delete_rows ref key rs in if is_row ref key r then rest else r ∷ rest

unfoldable has_id : ℕ → List MetadataRow → Bool
has_id id [] = false
has_id id (r ∷ rs) = nat_eqb r.id id || has_id id rs

-- `ON DELETE CASCADE`: the subscriptions whose value is still there.
unfoldable pub cascade : List MetadataRow → List SubRow → List SubRow
unfolding has_id
cascade rows [] = []
cascade rows (s ∷ ss) =
    let rest = cascade rows ss in if has_id s.metadata_id rows then s ∷ rest else rest

-- One row for each subscription to the value, or one with no account.
unfoldable followers : MetadataRow → List SubRow → List (Bytes × Variant × ℕ)
followers r [] = []
followers r (s ∷ ss) =
    let rest = followers r ss in
    if nat_eqb s.metadata_id r.id then (r.key, some r.value, s.account_id) ∷ rest else rest

unfoldable left_join : ℕ → List MetadataRow → List SubRow → List (Bytes × Variant × ℕ)
unfolding followers
left_join ref [] subs = []
left_join ref (r ∷ rs) subs =
    let rest = left_join ref rs subs in
    let own = followers r subs in
    if not (nat_eqb r.ref_id ref)
    then rest
    else (if is_empty own then (r.key, some r.value, 0) ∷ [] else own) ++ rest

-- `metadata_get`: the rows; Core.Metadata.Objects reads them.
unfoldable pub metadata_get : ℕ → Database → List (Bytes × Variant × ℕ)
unfolding left_join
metadata_get ref db = if db.up then left_join ref db.metadata db.metadata_subs else []

-- `WHERE ref_id = ? AND key IN (...)`, into a map.
unfoldable pub resolve : ℕ → List Bytes → List MetadataRow → Map Bytes ℕ → Map Bytes ℕ
unfolding contains
resolve ref keys [] m = m
resolve ref keys (r ∷ rs) m =
    resolve ref keys rs
      (if nat_eqb r.ref_id ref && contains keys r.key then insert r.key r.id m else m)

-- `ON CONFLICT (metadata_id, account_id) DO NOTHING`
abbrev pub follows : ℕ → ℕ → List SubRow → Bool
follows id account [] = false
follows id account (s ∷ ss) =
    (nat_eqb s.metadata_id id && nat_eqb s.account_id account) || follows id account ss

unfoldable pub insert_sub : SubRow → List SubRow → List SubRow
insert_sub s subs = if follows s.metadata_id s.account_id subs then subs else subs ++ s ∷ []

unfoldable pub insert_subs : List SubRow → List SubRow → List SubRow
unfolding insert_sub
insert_subs [] subs = subs
insert_subs (s ∷ ss) subs = insert_subs ss (insert_sub s subs)

abbrev pub sub_target : List Bytes
sub_target = codes "metadata_id" ∷ codes "account_id" ∷ []

-- The database accepts that insertion.
unfoldable pub may_subscribe : Database → Bool
may_subscribe db =
    db.up
    && may_insert Schema.metadata_subs sub_columns
    && may_conflict Schema.metadata_subs sub_target

unfoldable pub delete_subs : List ℕ → ℕ → List SubRow → List SubRow
unfolding contains
delete_subs ids account [] = []
delete_subs ids account (s ∷ ss) =
    let rest = delete_subs ids account ss in
    if contains ids s.metadata_id && nat_eqb s.account_id account then rest else s ∷ rest

abbrev pub values : Map Bytes ℕ → List ℕ
values [] = []
values ((k, v) ∷ m) = v ∷ values m
