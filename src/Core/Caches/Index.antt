-- ===== src/Core/Caches/Index.antt =====
-- The lookup tables of the accounts lead to accounts of the roster, under the right key.
use chatripper.Common.{
  ℕ, ◌≡◌, ◌≢◌, ◌↔◌, refl, true, ◌||◌, some, List, [], ◌∷◌, Bytes, is_empty, contains,
  contains-append, contains-remove_all, find, find-insert, find-remove, nat_key, bytes_key, nat_eqb,
  bytes_eqb_iff, arith,
}
use chatripper.State.{World, add_to_set}
use chatripper.Core.Caches.{account_insert_cache, account_remove_cache}

abbrev pub IsIndexed : World → Type 0
IsIndexed w =
    ((u p : ℕ)
      → (find u w.accounts_lookup_uuid ≡ some p)
        ↔ (((w.account_at p).uid ≡ u) × (contains w.accounts p ≡ true)))
    × ((n : Bytes) (p : ℕ)
        → (find n w.accounts_lookup_name ≡ some p)
          ↔ (((w.account_at p).name ≡ n) × (n ≢ []) × (contains w.accounts p ≡ true)))

-- No other account of the roster has its id, or its name if it has one.
abbrev pub IsUnique : ℕ → World → Type 0
IsUnique p w =
    (q : ℕ)
    → contains w.accounts q ≡ true
    → ((w.account_at q).uid ≡ (w.account_at p).uid → q ≡ p)
      × ((w.account_at q).name ≡ (w.account_at p).name → (w.account_at p).name ≢ [] → q ≡ p)

pub contains-add_to_set :
    (p q : ℕ) (xs : List ℕ) → contains (add_to_set p xs) q ≡ (nat_eqb p q || contains xs q)
unfolding add_to_set contains
contains-add_to_set p q xs = ground (arith, contains-append xs (p ∷ []) q)

is_empty_nil : (n : Bytes) → (is_empty n ≡ true) ↔ (n ≡ [])
is_empty_nil [] = ((λ _. refl), (λ _. refl))
is_empty_nil (c ∷ n) = ground arith

pub account_insert_cache-IsIndexed :
    (p : ℕ) (w : World) → IsIndexed w → IsUnique p w → IsIndexed (account_insert_cache p w)
unfolding account_insert_cache
account_insert_cache-IsIndexed p w h alone = (
  (λ u q. ground (
    arith,
    find-insert (w.account_at p).uid u p w.accounts_lookup_uuid,
    h.0 u q,
    alone q,
    contains-add_to_set p q w.accounts,
  )),
  (λ n q. ground (
    arith,
    find-insert (w.account_at p).name n p w.accounts_lookup_name,
    h.1 n q,
    alone q,
    contains-add_to_set p q w.accounts,
    bytes_eqb_iff (w.account_at p).name n,
    is_empty_nil (w.account_at p).name,
  )),
)

account_remove_cache-IsIndexed :
    (p : ℕ) (w : World)
    → IsIndexed w
    → contains w.accounts p ≡ true
    → IsIndexed (account_remove_cache p w)
unfolding account_remove_cache
account_remove_cache-IsIndexed p w h there = (
  (λ u q. ground (
    arith,
    find-remove (w.account_at p).uid u w.accounts_lookup_uuid,
    h.0 u q,
    h.0 (w.account_at p).uid p,
    contains-remove_all w.accounts p q,
    there,
  )),
  (λ n q. ground (
    arith,
    find-remove (w.account_at p).name n w.accounts_lookup_name,
    h.1 n q,
    h.1 (w.account_at p).name p,
    contains-remove_all w.accounts p q,
    bytes_eqb_iff (w.account_at p).name n,
    is_empty_nil (w.account_at p).name,
    there,
  )),
)

-- Entering an account into the caches, if no other account of the roster has its id or its name, and
-- taking one of the roster out, keep the tables in step with the roster: an id leads to an account
-- exactly if that account is of the roster and has the id, and a name exactly if the account is of
-- the roster and has the name, which is not empty.
pub account_cache-IsIndexed :
    (p q : ℕ) (w : World)
    → IsIndexed w
    → IsUnique p w
    → contains w.accounts q ≡ true
    → IsIndexed (account_insert_cache p w) × IsIndexed (account_remove_cache q w)
account_cache-IsIndexed p q w h alone there =
    (account_insert_cache-IsIndexed p w h alone, account_remove_cache-IsIndexed q w h there)
