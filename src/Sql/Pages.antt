-- ===== src/Sql/Pages.antt =====
-- lib/sql.cpp: the loops that read a table in batches, LIMIT and OFFSET, and make an object of each
-- row. Without ORDER BY the database may list the rows in another order for each query: `order` gives
-- the order of the query with each offset.
use chatripper.Common.{
  ℕ, zero, suc, ◌+◌, ◌-◌, length-append, ltb_false→le, ◌<◌, ◌≡◌, refl, sym, ap, ◌∙◌, true, false,
  List, [], ◌∷◌, ◌++◌, length, take, drop, length-take, length-drop, take-append-drop, take_all,
  ltb, ltb→lt, arith, Bool-cases, inl, inr,
}

drop-nil {ℓ} : {A : Type ℓ} (n : ℕ) → drop {A = A} n [] ≡ []
drop-nil zero = refl
drop-nil (suc n) = refl

drop-drop {ℓ} : {A : Type ℓ} (n m : ℕ) (xs : List A) → drop (n + m) xs ≡ drop m (drop n xs)
drop-drop zero m xs = ap (λ k. drop k xs) (omega arith)
drop-drop (suc n) m [] = drop-nil (suc n + m) ∙ sym (drop-nil m)
drop-drop (suc n) m (x ∷ xs) =
    let step : suc n + m ≡ suc (n + m) = omega arith in
    ap (λ k. drop k (x ∷ xs)) step ∙ drop-drop n m xs

nil_of_length {ℓ} : {A : Type ℓ} (xs : List A) → length xs ≡ 0 → xs ≡ []
nil_of_length [] h = refl
nil_of_length (x ∷ xs) h = absurd (omega arith)

module _ {R S : Type 0} (load : R → S → ℕ × S) where
  -- The pointers of the objects, and the state afterwards.
  unfoldable pub load_rows : List R → S → List ℕ × S
  load_rows [] s = ([], s)
  load_rows (r ∷ rs) s =
      let (p, after) = load r s in let (ps, last) = load_rows rs after in (p ∷ ps, last)

  -- `fuel` counts the rounds.
  unfoldable pub read_pages : ℕ → ℕ → ℕ → (ℕ → List R) → S → List ℕ × S
  unfolding load_rows
  read_pages zero limit offset order s = ([], s)
  read_pages (suc fuel) limit offset order s =
      let page = take limit (drop offset (order offset)) in
      let (ps, after) = load_rows page s in
      elim (ltb (length page) limit) [
        | true ↦ (ps, after)
        | false ↦
            (let (qs, last) = read_pages fuel limit (offset + limit) order after in
              (ps ++ qs, last))
      ]

  load_rows-append :
      (xs ys : List R) (s : S)
      → load_rows (xs ++ ys) s ≡ (
        (load_rows xs s).0 ++ (load_rows ys (load_rows xs s).1).0,
        (load_rows ys (load_rows xs s).1).1,
      )
  unfolding load_rows
  load_rows-append [] ys s = refl
  load_rows-append (x ∷ xs) ys s =
      ap (λ (t : List ℕ × S). ((load x s).0 ∷ t.0, t.1)) (load_rows-append xs ys (load x s).1)

  length-load_rows : (rs : List R) (s : S) → length (load_rows rs s).0 ≡ length rs
  unfolding load_rows
  length-load_rows [] s = refl
  length-load_rows (r ∷ rs) s = ap suc (length-load_rows rs (load r s).1)

  -- With enough rounds as many objects are made as the table has rows from the offset on.
  pub length-read_pages :
      (fuel limit offset n : ℕ) (order : ℕ → List R) (s : S)
      → 0 < limit
      → ((k : ℕ) → length (order k) ≡ n)
      → n < offset + fuel
      → length (read_pages fuel limit offset order s).0 ≡ n - offset
  unfolding read_pages
  length-read_pages zero limit offset n order s some_limit same enough = omega arith
  length-read_pages (suc fuel) limit offset n order s some_limit same enough =
      let page = take limit (drop offset (order offset)) in
      let next = (load_rows page s).1 in
      let sizes = length-take limit (drop offset (order offset)) in
      let left = length-drop offset (order offset) in
      let made = length-load_rows page s in
      elim (Bool-cases (ltb (length page) limit)) [
        | inl short ↦
            rw (short, read_pages)
              (made ∙ omega (arith, sizes, left, same offset, ltb→lt (length page) limit short))
        | inr full ↦
            rw (full, read_pages)
              (length-append (load_rows page s).0 _
                ∙ omega (
                  arith,
                  made,
                  sizes,
                  left,
                  same offset,
                  ltb_false→le (length page) limit full,
                  length-read_pages fuel limit (offset + limit) n order next some_limit same
                      (omega arith),
                ))
      ]

  -- With enough rounds and one order the pages are the whole table from the offset on.
  pub read_pages-all :
      (fuel limit offset : ℕ) (rows : List R) (s : S)
      → 0 < limit
      → length rows < offset + fuel
      → read_pages fuel limit offset (λ k. rows) s ≡ load_rows (drop offset rows) s
  unfolding read_pages
  read_pages-all zero limit offset rows s some_limit enough =
      let none_left : length (drop offset rows) ≡ 0 = omega (arith, length-drop offset rows) in
      sym (ap (λ l. load_rows l s) (nil_of_length (drop offset rows) none_left))
  read_pages-all (suc fuel) limit offset rows s some_limit enough =
      let page = take limit (drop offset rows) in
      elim (Bool-cases (ltb (length page) limit)) [
        | inl short ↦
            rw (short, read_pages)
              (ap (λ l. load_rows l s)
                (take_all limit (drop offset rows) (
                  omega (
                    arith,
                    ltb→lt (length page) limit short,
                    length-take limit (drop offset rows),
                  ))))
        | inr full ↦
            rw (full, read_pages)
              (let left = drop offset rows in
                let next = (load_rows page s).1 in
                let later =
                  read_pages-all fuel limit (offset + limit) rows next some_limit (omega arith)
                  ∙ ap (λ l. load_rows l next) (drop-drop offset limit rows) in
                ap (λ (t : List ℕ × S). ((load_rows page s).0 ++ t.0, t.1)) later
                ∙ (sym (load_rows-append page (drop limit left) s)
                    ∙ ap (λ l. load_rows l s) (take-append-drop limit left)))
      ]
