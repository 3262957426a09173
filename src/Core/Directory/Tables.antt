-- ===== src/Core/Directory/Tables.antt =====
-- ctx.cpp, the caches of servers, roles, permissions and uploads: four times one structure, a heap of
-- objects, the set of those that are known, and two tables that find them.
pub mod Filed
use chatripper.Common.{
  ℕ, ◌+◌, ◌<◌, ◌≡◌, ◌≢◌, ◌↔◌, refl, sym, ap, ◌∙◌, Bool, true, false, not, ◌||◌, Option, none, some,
  List, [], ◌∷◌, Bytes, is_empty, contains, contains-append, contains-remove_all, remove_all, Map,
  find, insert, remove, find-insert, find-remove, nat_key, bytes_key, nat_eqb, bytes_eqb_iff,
  if◌then◌else◌, arith,
}
use chatripper.State.{or_null, is_null, update, add_to_set}

-- An object has an id, and a name or an empty one: permissions and uploads have none.
pub record Named (O : Type 0) : Type 0 where
  pub uid_of : O → ℕ
  pub name_of : O → Bytes

pub record Shelf (O : Type 0) : Type 0 where
  pub object_at : ℕ → O
  -- the pointer that the next object gets
  pub next : ℕ
  pub objects : List ℕ
  pub lookup_uuid : Map ℕ ℕ
  pub lookup_name : Map Bytes ℕ

module _ {O : Type 0} where
  -- Nothing is known; `o` stands where nobody looks.
  abbrev pub empty_shelf : O → Shelf O
  empty_shelf o = record {
    object_at = λ p. o;
    next = 1;
    objects = [];
    lookup_uuid = [];
    lookup_name = [];
  }

  abbrev pub set_object : ℕ → O → Shelf O → Shelf O
  set_object p o s = record s { object_at = update s.object_at p o }

  unfoldable pub lookup : ℕ → Shelf O → ℕ
  lookup id s = or_null (find id s.lookup_uuid)

  unfoldable lookup_by_name : Bytes → Shelf O → ℕ
  lookup_by_name name s = or_null (find name s.lookup_name)

module _ {O : Type 0} ⦃n : Named O⦄ where
  unfoldable pub insert_cache : ℕ → Shelf O → Shelf O
  unfolding add_to_set
  insert_cache p s =
      let id = n.uid_of (s.object_at p) in
      let name = n.name_of (s.object_at p) in
      record s {
        objects = add_to_set p s.objects;
        lookup_uuid = insert id p s.lookup_uuid;
        lookup_name = if is_empty name then s.lookup_name else insert name p s.lookup_name;
      }

  unfoldable pub remove_cache : ℕ → Shelf O → Shelf O
  remove_cache p s =
      let id = n.uid_of (s.object_at p) in
      let name = n.name_of (s.object_at p) in
      if is_null p then s else record s {
        objects = remove_all s.objects p;
        lookup_uuid = remove id s.lookup_uuid;
        lookup_name = if is_empty name then s.lookup_name else remove name s.lookup_name;
      }

  -- `create_from_db`: the object with this id, if there is one, and else a new one.
  unfoldable pub create_once : ℕ → O → Shelf O → ℕ × Shelf O
  unfolding lookup insert_cache
  create_once id o s =
      let known = lookup id s in
      let placed = record s { object_at = update s.object_at s.next o; next = s.next + 1 } in
      if not (is_null known) then (known, s) else (s.next, insert_cache s.next placed)

  -- What is in the set is found under its id, and nothing else is; what is found under a name has that
  -- name, which is not empty. No pointer is null, and none is given out twice.
  pub record IsFiled (s : Shelf O) : Type 0 where
    pub by_uuid :
        (id p : ℕ)
        → find id s.lookup_uuid ≡ some p
        → (contains s.objects p ≡ true) × (n.uid_of (s.object_at p) ≡ id)
    pub all_found :
        (p : ℕ)
        → contains s.objects p ≡ true
        → find (n.uid_of (s.object_at p)) s.lookup_uuid ≡ some p
    pub by_name :
        (name : Bytes) (p : ℕ)
        → find name s.lookup_name ≡ some p
        → (contains s.objects p ≡ true)
          × (n.name_of (s.object_at p) ≡ name)
          × (is_empty name ≡ false)
    pub given_out : (p : ℕ) → contains s.objects p ≡ true → (p < s.next) × (0 < p)
    pub some_left : 0 < s.next
