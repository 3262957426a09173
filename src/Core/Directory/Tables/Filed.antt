-- ===== src/Core/Directory/Tables/Filed.antt =====
-- ctx.cpp: what keeps one shelf in step with itself.
use chatripper.Common.{
  ℕ, ◌+◌, ◌≡◌, ◌↔◌, refl, sym, ap, ◌∙◌, true, false, none, some, Bytes, contains,
  contains-remove_all, find, find-insert, find-remove, nat_key, bytes_key, bytes_eqb_iff, arith,
  Option-cases, inl, inr,
}
use chatripper.State.{is_null, update}
use chatripper.Core.Caches.Index.{contains-add_to_set}
use chatripper.Core.Directory.Tables.{
  Named, Shelf, empty_shelf, set_object, lookup, insert_cache, remove_cache, create_once, IsFiled,
}

module _ {O : Type 0} ⦃n : Named O⦄ where
  abbrev uid_at : Shelf O → ℕ → ℕ
  uid_at s p = n.uid_of (s.object_at p)

  abbrev name_at : Shelf O → ℕ → Bytes
  name_at s p = n.name_of (s.object_at p)

  -- Taking out an object that is known.
  pub remove_cache-IsFiled :
      (p : ℕ) (s : Shelf O) → contains s.objects p ≡ true → IsFiled s → IsFiled (remove_cache p s)
  unfolding remove_cache
  remove_cache-IsFiled p s known h =
      let live : is_null p ≡ false = ground (arith, h.given_out p) in
      rw live (record {
        by_uuid = λ id q e. ground (
          arith,
          find-remove (uid_at s p) id s.lookup_uuid,
          h.by_uuid id q,
          contains-remove_all s.objects p q,
        );
        all_found = λ q c. ground (
          arith,
          find-remove (uid_at s p) (uid_at s q) s.lookup_uuid,
          h.all_found p known,
          h.all_found q,
          contains-remove_all s.objects p q,
        );
        by_name = λ name q e. ground (
          arith,
          find-remove (name_at s p) name s.lookup_name,
          bytes_eqb_iff (name_at s p) name,
          h.by_name name q,
          contains-remove_all s.objects p q,
        );
        given_out = λ q c. ground (arith, contains-remove_all s.objects p q, h.given_out q);
        some_left = h.some_left;
      })

  module _ (s : Shelf O) (o : O) where
    abbrev placed : Shelf O
    placed = record s { object_at = update s.object_at s.next o; next = s.next + 1 }

    -- Entering a new object, whose id is not in use.
    insert_cache-IsFiled :
        find (n.uid_of o) s.lookup_uuid ≡ none → IsFiled s → IsFiled (insert_cache s.next placed)
    unfolding insert_cache
    insert_cache-IsFiled free h = record {
      by_uuid = λ id q e. ground (
        arith,
        find-insert (n.uid_of o) id s.next s.lookup_uuid,
        h.by_uuid id q,
        h.given_out q,
        contains-add_to_set s.next q s.objects,
      );
      all_found = λ q c. ground (
        arith,
        find-insert (n.uid_of o) (uid_at s q) s.next s.lookup_uuid,
        find-insert (n.uid_of o) (n.uid_of o) s.next s.lookup_uuid,
        h.all_found q,
        h.given_out q,
        contains-add_to_set s.next q s.objects,
      );
      by_name = λ name q e. ground (
        arith,
        find-insert (n.name_of o) name s.next s.lookup_name,
        bytes_eqb_iff (n.name_of o) name,
        h.by_name name q,
        h.given_out q,
        contains-add_to_set s.next q s.objects,
      );
      given_out =
          λ q c. ground (arith, contains-add_to_set s.next q s.objects, h.given_out q, h.some_left);
      some_left = ground (arith, h.some_left);
    }

  create_once-known :
      (id p : ℕ) (o : O) (s : Shelf O)
      → IsFiled s
      → find id s.lookup_uuid ≡ some p
      → create_once id o s ≡ (p, s)
  unfolding create_once lookup
  create_once-known id p o s h e =
      let live : is_null p ≡ false = ground (arith, h.by_uuid id p, h.given_out p) in
      rw e (rw live refl)

  create_once-new :
      (id : ℕ) (o : O) (s : Shelf O)
      → find id s.lookup_uuid ≡ none
      → create_once id o s ≡ (s.next, insert_cache s.next (placed s o))
  unfolding create_once lookup
  create_once-new id o s e = rw e refl

  pub create_once-IsFiled :
      (id : ℕ) (o : O) (s : Shelf O) → n.uid_of o ≡ id → IsFiled s → IsFiled (create_once id o s).1
  create_once-IsFiled id o s e h = elim (Option-cases (find id s.lookup_uuid)) [
    | inl free ↦
        rw (create_once-new id o s free)
          (insert_cache-IsFiled s o (ap (λ i. find i s.lookup_uuid) e ∙ free) h)
    | inr (p, found) ↦ rw (create_once-known id p o s h found) h
  ]

  -- A change of an object that keeps its id and its name.
  pub set_object-IsFiled :
      (p : ℕ) (o : O) (s : Shelf O)
      → n.uid_of o ≡ uid_at s p
      → n.name_of o ≡ name_at s p
      → IsFiled s
      → IsFiled (set_object p o s)
  set_object-IsFiled p o s e k h = record {
    by_uuid = λ id q f. ground (arith, h.by_uuid id q);
    all_found = λ q c. ground (arith, h.all_found q);
    by_name = λ name q f. ground (arith, h.by_name name q);
    given_out = h.given_out;
    some_left = h.some_left;
  }

  abbrev pub Found : Shelf O → ℕ → ℕ → Type 0
  Found s id p =
      (find id s.lookup_uuid ≡ some p)
      ↔ ((contains s.objects p ≡ true) × (n.uid_of (s.object_at p) ≡ id))

  pub found_lem : (id p : ℕ) (s : Shelf O) → IsFiled s → Found s id p
  found_lem id p s h =
      (h.by_uuid id p, λ k. ap (λ i. find i s.lookup_uuid) (sym k.1) ∙ h.all_found p k.0)

pub empty_shelf-IsFiled : {O : Type 0} ⦃n : Named O⦄ (o : O) → IsFiled (empty_shelf o)
unfolding find contains
empty_shelf-IsFiled o = record {
  by_uuid = λ id p e. cc;
  all_found = λ p c. cc;
  by_name = λ name p e. cc;
  given_out = λ p c. absurd (cc c);
  some_left = omega arith;
}
