-- ===== src/Sql/Metadata.antt =====
-- lib/sql.cpp, the metadata: values under the id of an account or a channel, and who follows them.
-- `text` is `QString::fromUtf8`. New ids are arguments, and are not in use.
use chatripper.Common.{
  ℕ, ◌+◌, ◌%◌, Bool, true, false, not, ◌&&◌, nat_eqb, Option, none, some, List, [], ◌∷◌, ◌++◌,
  Bytes, codes, bytes_key, is_empty, map, Map, find, if◌then◌else◌,
}
use chatripper.State.{
  RefType, Statement, metadata_upsert, metadata_remove, metadata_subscribe_bulk,
  metadata_unsubscribe_bulk, is_null, or_null,
}
use chatripper.Sql.Schema as Schema
use chatripper.Sql.Schema.{may_insert, may_conflict}
use chatripper.Sql.Database.{MetadataRow, SubRow, Database}
use chatripper.Sql.Rows.{
  row_of, metadata_columns, update_value, delete_rows, cascade, resolve, insert_sub, insert_subs,
  may_subscribe, delete_subs, values,
}

-- `ON CONFLICT (ref_id, key)`
abbrev pub value_target : List Bytes
value_target = codes "ref_id" ∷ codes "key" ∷ []

unfoldable pub may_upsert : Database → Bool
may_upsert db =
    db.up
    && may_insert Schema.metadata metadata_columns
    && may_conflict Schema.metadata value_target

-- `INSERT_BATCH_SIZE`
abbrev pub batch_size : ℕ
batch_size = 500

-- The loop of `metadata_subscribe_bulk`: what waits for the next flush, how many there were, and the
-- table.
pub record Batch : Type 0 where
  pub pending : List SubRow
  pub count : ℕ
  pub subs : List SubRow

-- `flush`; `may` says whether the database accepts the insertion.
unfoldable pub flush : Bool → Batch → Option Batch
unfolding insert_subs
flush may b =
    if is_empty b.pending
    then some b
    else if may
    then some (record b { pending = []; subs = insert_subs b.pending b.subs })
    else none

-- One round for the key `k`.
unfoldable pub collect_next : Bool → (ℕ → ℕ) → ℕ → Map Bytes ℕ → Bytes → Batch → Option Batch
unfolding flush
collect_next may fresh account ids k b =
    let id = or_null (find k ids) in
    let sub : SubRow = record { id = fresh b.count; metadata_id = id; account_id = account } in
    let more = record b { pending = b.pending ++ sub ∷ []; count = b.count + 1 } in
    if is_null id
    then some b
    else if nat_eqb (more.count % batch_size) 0
    then flush may more
    else some more

unfoldable pub collect : Bool → (ℕ → ℕ) → ℕ → Map Bytes ℕ → List Bytes → Batch → Option Batch
unfolding collect_next
collect may fresh account ids [] b = flush may b
collect may fresh account ids (k ∷ ks) b = elim (collect_next may fresh account ids k b) [
  | none ↦ none
  | some c ↦ collect may fresh account ids ks c
]

module _ (text : Bytes → Bytes) where
  -- The id, or the null id.
  unfoldable metadata_create : ℕ → Bytes → Bytes → ℕ → RefType → Database → ℕ × Database
  unfolding row_of
  metadata_create id key value ref kind db =
      let row : MetadataRow = record {
        id = id;
        key = text key;
        value = value;
        ref_id = ref;
        ref_type = kind;
      } in
      if not db.up then (0, db) else elim (row_of ref (text key) db.metadata) [
        | some r ↦ (0, db)
        | none ↦ (id, record db { metadata = db.metadata ++ row ∷ [] })
      ]

  -- The key is bound as a `QByteArray`, without `fromUtf8`. The driver sends that as a literal of type
  -- `bytea`, which the column, a text, is compared with as the text that it is: `bytea key`.
  unfoldable metadata_delete : (Bytes → Bytes) → Bytes → ℕ → Database → Bool × Database
  unfolding delete_rows cascade
  metadata_delete bytea key ref db =
      let rows = delete_rows ref (bytea key) db.metadata in
      if not db.up
      then (false, db)
      else (true, record db { metadata = rows; metadata_subs = cascade rows db.metadata_subs })

  unfoldable metadata_modify : ℕ → Bytes → Bytes → Database → Bool × Database
  unfolding update_value
  metadata_modify ref key new_value db =
      if not db.up
      then (false, db)
      else (true, record db { metadata = update_value ref (text key) new_value db.metadata })

  unfoldable pub metadata_put : ℕ → Bytes → Bytes → ℕ → RefType → Database → Bool × Database
  unfolding row_of update_value
  metadata_put id key value ref kind db =
      let row : MetadataRow = record {
        id = id;
        key = text key;
        value = value;
        ref_id = ref;
        ref_type = kind;
      } in
      if not (may_upsert db) then (false, db) else elim (row_of ref (text key) db.metadata) [
        | some r ↦ (true, record db { metadata = update_value ref (text key) value db.metadata })
        | none ↦ (true, record db { metadata = db.metadata ++ row ∷ [] })
      ]

  unfoldable pub metadata_subscribe : ℕ → ℕ → Bytes → ℕ → Database → Bool × Database
  unfolding row_of insert_sub
  metadata_subscribe id ref key account db =
      if not db.up then (false, db) else elim (row_of ref (text key) db.metadata) [
        | none ↦ (false, db)
        | some r ↦
            (let sub : SubRow = record { id = id; metadata_id = r.id; account_id = account } in
              if may_subscribe db
              then (true, record db { metadata_subs = insert_sub sub db.metadata_subs })
              else (false, db))
      ]

  -- `transaction`, `rollback` and `commit`: the table is written at the end or not at all.
  unfoldable pub subscribe_bulk : (ℕ → ℕ) → ℕ → List Bytes → ℕ → Database → Bool × Database
  unfolding resolve collect
  subscribe_bulk fresh ref keys account db =
      let ids = resolve ref (map text keys) db.metadata [] in
      let start : Batch = record { pending = []; count = 0; subs = db.metadata_subs } in
      if is_empty keys
      then (false, db)
      else if not db.up
      then (false, db)
      else if is_empty ids
      then (false, db)
      else elim (collect (may_subscribe db) fresh account ids keys start) [
        | none ↦ (false, db)
        | some b ↦ (true, record db { metadata_subs = b.subs })
      ]

  unfoldable metadata_unsubscribe : ℕ → Bytes → ℕ → Database → Bool × Database
  unfolding row_of delete_subs
  metadata_unsubscribe ref key account db =
      if not db.up then (false, db) else elim (row_of ref (text key) db.metadata) [
        | none ↦ (false, db)
        | some r ↦
            (true, record db { metadata_subs = delete_subs (r.id ∷ []) account db.metadata_subs })
      ]

  unfoldable pub unsubscribe_bulk : ℕ → List Bytes → ℕ → Database → Bool × Database
  unfolding resolve delete_subs
  unsubscribe_bulk ref keys account db =
      let ids = resolve ref (map text keys) db.metadata [] in
      if is_empty keys
      then (false, db)
      else if not db.up
      then (false, db)
      else if is_empty ids
      then (false, db)
      else (true, record db { metadata_subs = delete_subs (values ids) account db.metadata_subs })

  -- A call of core/metadata.cpp; `fresh` gives the ids of its new rows. The answers are not read.
  unfoldable pub run : (Bytes → Bytes) → (ℕ → ℕ) → Statement → Database → Database
  unfolding metadata_put metadata_delete subscribe_bulk unsubscribe_bulk
  run bytea fresh (metadata_upsert key value ref kind) db =
      (metadata_put (fresh 0) key value ref kind db).1
  run bytea fresh (metadata_remove key ref) db = (metadata_delete bytea key ref db).1
  run bytea fresh (metadata_subscribe_bulk ref keys account) db =
      (subscribe_bulk fresh ref keys account db).1
  run bytea fresh (metadata_unsubscribe_bulk ref keys account) db =
      (unsubscribe_bulk ref keys account db).1
