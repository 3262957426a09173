-- ===== src/Sql/Refused.antt =====
-- lib/sql.cpp: the insertions that the schema does not allow.
use chatripper.Common.{
  ℕ, ◌≡◌, inl, inr, refl, ap, sym, Bool, true, false, not, ◌&&◌, Option, none, some, List, [], ◌∷◌,
  ◌++◌, Bytes, codes, bytes_eqb, bytes_key, contains, is_empty, map, Map, find, if◌then◌else◌,
  arith, Option-cases, Bool-cases, subst, nat_eqb, ◌+◌, ◌%◌,
}
use chatripper.State.{Message, is_null, or_null}
use chatripper.Sql.Schema as Schema
use chatripper.Sql.Schema.{
  may_insert, may_conflict, columns, unique_sets, names_of, all_in, has_required, is_one_of,
}
use chatripper.Sql.Database.{SubRow, Database}
use chatripper.Sql.Rows.{resolve, may_subscribe, sub_target}
use chatripper.Sql.Metadata.{
  Batch, flush, collect_next, collect, metadata_subscribe, subscribe_bulk, batch_size,
}
use chatripper.Sql.Messages.{
  text_columns, Waiting, flush_messages, collect_messages, insert_messages,
}

no_constraint : may_conflict Schema.metadata_subs sub_target ≡ false
unfolding may_conflict contains bytes_eqb
no_constraint = refl

refused : (db : Database) → may_subscribe db ≡ false
unfolding may_subscribe
refused db = ground (arith, no_constraint)

-- The table is as it was.
abbrev Unmoved : List SubRow → Option Batch → Type 0
Unmoved subs none = Unit
Unmoved subs (some c) = c.subs ≡ subs

flush-Unmoved : (b : Batch) → Unmoved b.subs (flush false b)
unfolding flush
flush-Unmoved b = elim (Bool-cases (is_empty b.pending)) [ inl e ↦ rw e refl | inr e ↦ rw e tt ]

collect_next-Unmoved :
    (fresh : ℕ → ℕ) (account : ℕ) (ids : Map Bytes ℕ) (k : Bytes) (b : Batch)
    → Unmoved b.subs (collect_next false fresh account ids k b)
unfolding collect_next
collect_next-Unmoved fresh account ids k b =
    let sub : SubRow = record {
      id = fresh b.count;
      metadata_id = or_null (find k ids);
      account_id = account;
    } in
    let more = record b { pending = b.pending ++ sub ∷ []; count = b.count + 1 } in
    elim (Bool-cases (is_null (or_null (find k ids)))) [
      | inl e ↦ rw e refl
      | inr e ↦ rw e (elim (Bool-cases (nat_eqb ((b.count + 1) % batch_size) 0)) [
        | inl f ↦ rw f (flush-Unmoved more)
        | inr f ↦ rw f refl
      ])
    ]

collect-Unmoved :
    (fresh : ℕ → ℕ) (account : ℕ) (ids : Map Bytes ℕ) (ks : List Bytes) (b : Batch)
    → Unmoved b.subs (collect false fresh account ids ks b)
unfolding collect
collect-Unmoved fresh account ids [] b = flush-Unmoved b
collect-Unmoved fresh account ids (k ∷ ks) b =
    let one = collect_next-Unmoved fresh account ids k b in
    elim (Option-cases (collect_next false fresh account ids k b)) [
      | inl e ↦ rw (e, collect) tt
      | inr (c, e) ↦
          let kept : c.subs ≡ b.subs = subst (Unmoved b.subs) e one in
          rw (e, collect)
            (subst (λ subs. Unmoved subs (collect false fresh account ids ks c)) kept
              (collect-Unmoved fresh account ids ks c))
    ]

no_sender : may_insert Schema.messages (codes "id" ∷ codes "account_id" ∷ text_columns) ≡ false
unfolding may_insert contains bytes_eqb
no_sender = refl

collect_messages_refused :
    (n : ℕ) (ms : List Message) (w : Waiting) → (collect_messages false n ms w).1 ≡ w.1
unfolding collect_messages flush_messages
collect_messages_refused n [] w = refl
collect_messages_refused n (m ∷ ms) (pending, table) =
    elim (Bool-cases (nat_eqb ((n + 1) % 1000) 0)) [
      | inl e ↦ rw (e, collect_messages) (collect_messages_refused (n + 1) ms ([], table))
      | inr e ↦
          rw (e, collect_messages) (collect_messages_refused (n + 1) ms (pending ++ m ∷ [], table))
    ]

-- The tests of `subscribe_bulk`, and its end.
bulk_refused :
    (a b c : Bool) (o : Option Batch) (db : Database)
    → Unmoved db.metadata_subs o
    → (if a
        then (false, db)
        else if b
        then (false, db)
        else if c
        then (false, db)
        else (elim o as (λ _. Bool × Database) [
          | none ↦ (false, db)
          | some b ↦ (true, record db { metadata_subs = b.subs })
        ])).1
      ≡ db
bulk_refused true b c o db h = refl
bulk_refused false true c o db h = refl
bulk_refused false false true o db h = refl
bulk_refused false false false none db h = refl
bulk_refused false false false (some b) db h = ap (λ t. record db { metadata_subs = t }) h

-- No subscription to metadata is ever stored, by the single statement or by the one for many keys,
-- whatever is asked for: the table has no constraint on the columns that ON CONFLICT names, and
-- the database refuses the insertion. The single statement says so by its answer.
pub subscribe_lem :
    (text : Bytes → Bytes) (fresh : ℕ → ℕ) (id ref account : ℕ) (key : Bytes) (keys : List Bytes)
    (db : Database)
    → (metadata_subscribe text id ref key account db ≡ (false, db))
      × ((subscribe_bulk text fresh ref keys account db).1 ≡ db)
unfolding metadata_subscribe subscribe_bulk
subscribe_lem text fresh id ref account key keys db =
    let ids = resolve ref (map text keys) db.metadata [] in
    let start : Batch = record { pending = []; count = 0; subs = db.metadata_subs } in
    (
      ground (arith, refused db),
      bulk_refused (is_empty keys) (not db.up) (is_empty ids)
          (collect (may_subscribe db) fresh account ids keys start) db
          (subst (λ may. Unmoved db.metadata_subs (collect may fresh account ids keys start))
            (sym (refused db)) (collect-Unmoved fresh account ids keys start)),
    )

-- `insert_messages` stores no message: it names a column that the table does not have.
insert_messages_lem : (ms : List Message) (db : Database) → insert_messages ms db ≡ db
unfolding insert_messages
insert_messages_lem [] db = refl
insert_messages_lem (m ∷ ms) db =
    let columns = codes "id" ∷ codes "account_id" ∷ text_columns in
    let never : (db.up && may_insert Schema.messages columns) ≡ false = ground (arith, no_sender) in
    ap (λ t. record db { messages = t })
      (subst (λ may. (collect_messages may 0 (m ∷ ms) ([], db.messages)).1 ≡ db.messages)
        (sym never) (collect_messages_refused 0 (m ∷ ms) ([], db.messages)))
