-- ===== src/Core/Metadata.antt =====
-- core/metadata.cpp: the keys and values that an account or a channel carries, and who follows them.
-- `QString::fromUtf8` and `toUpper` are parameters; a text is its UTF-8 form. `sql::` calls are
-- values of `Statement`. Nothing in the program hears the signal `changed`. The account of an event
-- is not null where the code reads its `uid`.
pub mod Guard
pub mod Objects
use chatripper.Common.{
  ℕ, Bool, true, false, not, ◌&&◌, Option, none, some, List, [], ◌∷◌, ◌++◌, map, Bytes, codes,
  nat_eqb, nat_key, bytes_key, ◌==◌, if◌then◌else◌, Map, find, insert, remove, has_key, contains,
  remove_all,
}
use chatripper.State.{
  Account, Channel, World, Target, to_account, to_channel, is_null, add_to_set, or_null, Variant,
  RefType, ref_account, ref_channel, metadata_upsert, metadata_remove, metadata_subscribe_bulk,
  metadata_unsubscribe_bulk, Metadata,
}
use chatripper.Irc.Reply.{account_nick}

-- `QEventMetadata`
pub record MetadataEvent : Type 0 where
  pub account : ℕ
  pub dest : ℕ
  pub channel : ℕ
  pub subcmd : Bytes
  pub args : List Bytes
  pub metadata : Map Bytes Variant
  pub error_code : Bytes
  pub error_target : Bytes
  pub error_key : Bytes
  pub subscriptions : Map Bytes (List ℕ)

-- `map[k]` of a map of sets.
abbrev pub set_at : Bytes → Map Bytes (List ℕ) → List ℕ
set_at k m = elim (find k m) [ none ↦ [] | some xs ↦ xs ]

-- `for (key : keys) map[key].insert(a)`
unfoldable insert_each : ℕ → List Bytes → Map Bytes (List ℕ) → Map Bytes (List ℕ)
unfolding add_to_set
insert_each a [] m = m
insert_each a (k ∷ ks) m = insert_each a ks (insert k (add_to_set a (set_at k m)) m)

-- `for (key : keys) if (map.contains(key)) map[key].remove(a)`
unfoldable remove_each : ℕ → List Bytes → Map Bytes (List ℕ) → Map Bytes (List ℕ)
remove_each a [] m = m
remove_each a (k ∷ ks) m =
    remove_each a ks (if has_key k m then insert k (remove_all (set_at k m) a) m else m)

-- The keys under which the account stands, each with that account, put into `m`.
unfoldable followed : ℕ → Map Bytes (List ℕ) → Map Bytes (List ℕ) → Map Bytes (List ℕ)
unfolding add_to_set
followed a [] m = m
followed a ((k, who) ∷ rest) m =
    followed a rest (if contains who a then insert k (add_to_set a (set_at k m)) m else m)

-- `for (it : kv) metadata[it.key()] = it.value()`
unfoldable copy_all : Map Bytes Variant → Map Bytes Variant → Map Bytes Variant
copy_all [] m = m
copy_all ((k, v) ∷ rest) m = copy_all rest (insert k v m)

-- The keys asked for that are there.
unfoldable copy_some : List Bytes → Map Bytes Variant → Map Bytes Variant → Map Bytes Variant
copy_some [] kv m = m
copy_some (k ∷ ks) kv m = copy_some ks kv (elim (find k kv) [ none ↦ m | some v ↦ insert k v m ])

unfoldable pub ref_id : Target → World → ℕ
ref_id (to_account p) w = (w.account_at p).uid
ref_id (to_channel p) w = (w.channel_at p).uid

abbrev pub ref_type : Target → RefType
ref_type (to_account p) = ref_account
ref_type (to_channel p) = ref_channel

-- The metadata is an account's, and the event is another account's.
unfoldable pub is_foreign : Target → MetadataEvent → Bool
is_foreign (to_account p) ev = not (is_null ev.account) && not (nat_eqb ev.account p)
is_foreign (to_channel p) ev = false

unfoldable pub refuse : Bytes → Target → World → MetadataEvent → MetadataEvent
unfolding account_nick
refuse key (to_account p) w ev = record ev {
  error_code = codes "KEY_NO_PERMISSION";
  error_target = account_nick p w;
  error_key = key;
}
refuse key (to_channel p) w ev = ev

module _ (text : Bytes → Bytes) where
  unfoldable pub get : Bytes → Metadata → Variant
  get key m = elim (find (text key) m.kv) [ none ↦ none | some v ↦ v ]

  unfoldable pub remove_key : Bytes → World → Metadata → Metadata
  unfolding ref_id
  remove_key key w m = record m {
    kv = remove (text key) m.kv;
    statements = m.statements ++ metadata_remove key (ref_id m.owner w) ∷ [];
  }

  unfoldable pub set : Bytes → Bytes → World → Metadata → Metadata
  unfolding ref_id
  set key value w m = record m {
    kv = insert (text key) (some value) m.kv;
    statements =
        m.statements ++ metadata_upsert key value (ref_id m.owner w) (ref_type m.owner) ∷ [];
  }

  unfoldable pub sub : ℕ → List Bytes → World → Metadata → Metadata
  unfolding insert_each ref_id
  sub actor keys w m = record m {
    subscribers = insert_each actor (map text keys) m.subscribers;
    statements =
        m.statements
        ++ metadata_subscribe_bulk (ref_id m.owner w) keys (w.account_at actor).uid ∷ [];
  }

  unfoldable pub unsub : ℕ → List Bytes → World → Metadata → Metadata
  unfolding remove_each ref_id
  unsub actor keys w m = record m {
    subscribers = remove_each actor (map text keys) m.subscribers;
    statements =
        m.statements
        ++ metadata_unsubscribe_bulk (ref_id m.owner w) keys (w.account_at actor).uid ∷ [];
  }

  unfoldable pub handle_set : World → MetadataEvent → Metadata → MetadataEvent × Metadata
  handle_set w ev m = elim ev.args [
    | [] ↦ (ev, m)
    | ◌∷◌ key rest ↦ elim rest [
      | [] ↦ (ev, m)
      | ◌∷◌ value more ↦ if is_foreign m.owner ev then (refuse key m.owner w ev, m) else (
        record ev { metadata = insert (text key) (some value) ev.metadata },
        set key value w m,
      )
    ]
  ]

  unfoldable pub handle_clear : World → MetadataEvent → Metadata → MetadataEvent × Metadata
  handle_clear w ev m = elim ev.args [
    | [] ↦ (ev, m)
    | ◌∷◌ key rest ↦
        if is_foreign m.owner ev
        then (refuse key m.owner w ev, m)
        else (record ev { metadata = insert (text key) none ev.metadata }, remove_key key w m)
  ]

  -- LIST, GET, SUB, UNSUB and SUBS; `cmd` is the request in upper case.
  unfoldable pub handle_other : Bytes → World → MetadataEvent → Metadata → MetadataEvent × Metadata
  unfolding sub unsub copy_all copy_some insert_each followed
  handle_other cmd w ev m =
      if cmd == codes "LIST"
      then (record ev { metadata = copy_all m.kv ev.metadata }, m)
      else if cmd == codes "GET"
      then (record ev { metadata = copy_some (map text ev.args) m.kv ev.metadata }, m)
      else if cmd == codes "SUB"
      then (
        record ev { subscriptions = insert_each ev.account (map text ev.args) ev.subscriptions },
        sub ev.account ev.args w m,
      )
      else if cmd == codes "UNSUB"
      then (
        record ev { subscriptions = insert_each ev.account (map text ev.args) ev.subscriptions },
        unsub ev.account ev.args w m,
      )
      else if cmd == codes "SUBS"
      then (record ev { subscriptions = followed ev.account m.subscribers ev.subscriptions }, m)
      else (ev, m)

module _ (text upper : Bytes → Bytes) where
  -- `handle`
  unfoldable pub handle : World → MetadataEvent → Metadata → MetadataEvent × Metadata
  unfolding handle_set handle_clear handle_other
  handle w ev m =
      let cmd = upper (text ev.subcmd) in
      if cmd == codes "SET"
      then handle_set text w ev m
      else if cmd == codes "CLEAR"
      then handle_clear text w ev m
      else handle_other text cmd w ev m
