-- ===== src/Sql/Sync.antt =====
-- core/metadata.cpp and lib/sql.cpp: the values in memory and the values in the database.
use chatripper.Common.{
  ℕ, ◌≡◌, refl, ap, sym, ◌∙◌, Bool, true, false, ◌&&◌, Option, none, some, List, [], ◌∷◌, ◌++◌,
  append-nil, Bytes, codes, bytes_key, bytes_eqb, bytes_eqb_iff, find, find-insert, if◌then◌else◌,
  arith, ◌==◌, contains,
}
use chatripper.State.{
  World, Variant, Metadata, RefType, Statement, metadata_upsert, metadata_subscribe_bulk,
  metadata_unsubscribe_bulk,
}
use chatripper.Core.Metadata.{
  MetadataEvent, ref_id, ref_type, set, sub, unsub, is_foreign, handle, handle_set, handle_other,
}
use chatripper.Sql.Schema as Schema
use chatripper.Sql.Schema.{may_insert, may_conflict}
use chatripper.Sql.Database.{MetadataRow, Database}
use chatripper.Sql.Rows.{is_row, row_of, metadata_columns, update_value}
use chatripper.Sql.Metadata.{may_upsert, value_target, metadata_put, unsubscribe_bulk, run}
use chatripper.Sql.Refused.{subscribe_lem}

-- The value under a key, if there is one.
abbrev value_in : Option MetadataRow → Option Variant
value_in none = none
value_in (some r) = some (some r.value)

abbrev stored_value : ℕ → Bytes → List MetadataRow → Option Variant
stored_value ref key rows = value_in (row_of ref key rows)

abbrev or_else : Option Variant → Option Variant → Option Variant
or_else none b = b
or_else (some v) b = some v

stored-update :
    (ref : ℕ) (key k value : Bytes) (rows : List MetadataRow)
    → stored_value ref k (update_value ref key value rows) ≡ (
        if bytes_eqb key k
        then (elim (row_of ref key rows) [ none ↦ none | some r ↦ some (some value) ])
        else stored_value ref k rows)
unfolding row_of update_value
stored-update ref key k value [] = ground arith
stored-update ref key k value (r ∷ rows) = ground (
  arith,
  stored-update ref key k value rows,
  bytes_eqb_iff key k,
  bytes_eqb_iff r.key key,
  bytes_eqb_iff r.key k,
)

stored-append :
    (ref : ℕ) (k : Bytes) (rows : List MetadataRow) (r : MetadataRow)
    → stored_value ref k (rows ++ r ∷ [])
      ≡ or_else (stored_value ref k rows) (if is_row ref k r then some (some r.value) else none)
unfolding row_of
stored-append ref k [] r = ground arith
stored-append ref k (s ∷ rows) r = ground (arith, stored-append ref k rows r)

upsert_allowed :
    (may_insert Schema.metadata metadata_columns && may_conflict Schema.metadata value_target)
    ≡ true
unfolding may_insert may_conflict contains bytes_eqb
upsert_allowed = refl

module _ (text bytea : Bytes → Bytes) where
  put-stored :
      (id : ℕ) (key value : Bytes) (ref : ℕ) (kind : RefType) (db : Database) (k : Bytes)
      → db.up ≡ true
      → stored_value ref k (metadata_put text id key value ref kind db).1.metadata
        ≡ (if bytes_eqb (text key) k then some (some value) else stored_value ref k db.metadata)
  unfolding metadata_put may_upsert
  put-stored id key value ref kind db k up =
      let row : MetadataRow = record {
        id = id;
        key = text key;
        value = value;
        ref_id = ref;
        ref_type = kind;
      } in
      ground (
        arith,
        upsert_allowed,
        stored-update ref (text key) k value db.metadata,
        stored-append ref k db.metadata row,
        bytes_eqb_iff (text key) k,
      )

  unsubscribe-metadata :
      (ref : ℕ) (keys : List Bytes) (account : ℕ) (db : Database)
      → (unsubscribe_bulk text ref keys account db).1.metadata ≡ db.metadata
  unfolding unsubscribe_bulk
  unsubscribe-metadata ref keys account db = ground arith

  -- The calls that were made, one after the other.
  unfoldable pub run_all : (ℕ → ℕ) → List Statement → Database → Database
  unfolding run
  run_all fresh [] db = db
  run_all fresh (s ∷ ss) db = run_all fresh ss (run text bytea fresh s db)

  module _ (w : World) where
    -- The database holds the values that the object in memory holds.
    abbrev pub InStep : Metadata → Database → Type 0
    InStep m db = (k : Bytes) → find k m.kv ≡ stored_value (ref_id m.owner w) k db.metadata

    -- The object made some calls, and with them the database is in step again.
    abbrev Follows : (ℕ → ℕ) → Database → Metadata → Metadata → Type 0
    Follows fresh db m n =
        (calls : List Statement) × (n.statements ≡ m.statements ++ calls)
        × InStep n (run_all fresh calls db)

    unchanged-Follows :
        (fresh : ℕ → ℕ) (db : Database) (m : Metadata) → InStep m db → Follows fresh db m m
    unfolding run_all
    unchanged-Follows fresh db m h = ([], sym (append-nil m.statements), h)

    set-Follows :
        (fresh : ℕ → ℕ) (db : Database) (key value : Bytes) (m : Metadata)
        → db.up ≡ true
        → InStep m db
        → Follows fresh db m (set text key value w m)
    unfolding set run_all
    set-Follows fresh db key value m up h = (
      metadata_upsert key value (ref_id m.owner w) (ref_type m.owner) ∷ [],
      refl,
      λ k.
          find-insert (text key) k (some value) m.kv
          ∙ (ap (λ o. if bytes_eqb (text key) k then some (some value) else o) (h k)
              ∙ sym (put-stored (fresh 0) key value (ref_id m.owner w) (ref_type m.owner) db k up)),
    )

    sub-Follows :
        (fresh : ℕ → ℕ) (db : Database) (actor : ℕ) (keys : List Bytes) (m : Metadata)
        → InStep m db
        → Follows fresh db m (sub text actor keys w m)
    unfolding sub run_all
    sub-Follows fresh db actor keys m h =
        let ref = ref_id m.owner w in
        let id = (w.account_at actor).uid in
        (
          metadata_subscribe_bulk ref keys id ∷ [],
          refl,
          λ k.
              h k
              ∙ ap (λ (d : Database). stored_value ref k d.metadata)
                  (sym (subscribe_lem text fresh 0 ref id [] keys db).1),
        )

    unsub-Follows :
        (fresh : ℕ → ℕ) (db : Database) (actor : ℕ) (keys : List Bytes) (m : Metadata)
        → InStep m db
        → Follows fresh db m (unsub text actor keys w m)
    unfolding unsub run_all
    unsub-Follows fresh db actor keys m h =
        let ref = ref_id m.owner w in
        let id = (w.account_at actor).uid in
        (
          metadata_unsubscribe_bulk ref keys id ∷ [],
          refl,
          λ k.
              h k
              ∙ ap (λ rows. stored_value ref k rows) (sym (unsubscribe-metadata ref keys id db)),
        )

    -- A test between two requests.
    either :
        (fresh : ℕ → ℕ) (db : Database) (m : Metadata) (b : Bool) (x y : MetadataEvent × Metadata)
        → Follows fresh db m x.1
        → Follows fresh db m y.1
        → Follows fresh db m (if b then x else y).1
    either fresh db m true x y h k = h
    either fresh db m false x y h k = k

    other-Follows :
        (fresh : ℕ → ℕ) (db : Database) (cmd : Bytes) (ev : MetadataEvent) (m : Metadata)
        → InStep m db
        → Follows fresh db m (handle_other text cmd w ev m).1
    unfolding handle_other
    other-Follows fresh db cmd ev m h =
        let stay = unchanged-Follows fresh db m h in
        either fresh db m (cmd == codes "LIST") _ _ stay (
          either fresh db m (cmd == codes "GET") _ _ stay (
            either fresh db m (cmd == codes "SUB") _ _ (sub-Follows fresh db ev.account ev.args m h)
              (either fresh db m (cmd == codes "UNSUB") _ _
                (unsub-Follows fresh db ev.account ev.args m h)
                (either fresh db m (cmd == codes "SUBS") _ _ stay stay))))

    -- SET and CLEAR with these parameters.
    set_with-Follows :
        (fresh : ℕ → ℕ) (db : Database) (args : List Bytes) (e : MetadataEvent) (m : Metadata)
        → db.up ≡ true
        → InStep m db
        → Follows fresh db m (handle_set text w (record e { args = args }) m).1
    unfolding handle_set
    set_with-Follows fresh db [] e m up h = unchanged-Follows fresh db m h
    set_with-Follows fresh db (key ∷ []) e m up h = unchanged-Follows fresh db m h
    set_with-Follows fresh db (key ∷ value ∷ more) e m up h =
        let ev = record e { args = key ∷ value ∷ more } in
        either fresh db m (is_foreign m.owner ev) _ _ (unchanged-Follows fresh db m h)
          (set-Follows fresh db key value m up h)

-- A METADATA request and the database. If the values in memory and those in the database agree, they
-- agree again when the calls that the request made have run, whatever the request is and whoever
-- makes it, but for CLEAR, provided that the connection works. `CLEAR` is left out since its call
-- compares the key with a text that the driver makes of it.
pub handle-InStep :
    (text upper bytea : Bytes → Bytes) (w : World) (fresh : ℕ → ℕ) (db : Database)
    (ev : MetadataEvent) (m : Metadata)
    → db.up ≡ true
    → (upper (text ev.subcmd) == codes "CLEAR") ≡ false
    → InStep text bytea w m db
    → let after = (handle text upper w ev m).1 in
      (calls : List Statement) × (after.statements ≡ m.statements ++ calls)
      × InStep text bytea w after (run_all text bytea fresh calls db)
unfolding handle
handle-InStep text upper bytea w fresh db ev m up no_clear h =
    let cmd = upper (text ev.subcmd) in
    either text bytea w fresh db m (cmd == codes "SET") _ _
      (set_with-Follows text bytea w fresh db ev.args ev m up h)
      (rw no_clear (other-Follows text bytea w fresh db cmd ev m h))
