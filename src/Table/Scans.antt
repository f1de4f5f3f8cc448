-- ===== src/Table/Scans.antt =====
-- Scans in the order of a unique key: a page and then the rows beyond its last key.
use teri_chat.Prelude.{
  ℕ, ◌≡◌, refl, ◌+◌, ◌≤◌, Bool, true, false, ◌&&◌, List, [], ◌∷◌, arith, ltb, leb, ◌==◌,
  if◌then◌else◌, Bool-cases, inl, inr, Option, none, some,
}
use teri_chat.Table.{select, count, insert_sorted, order_by}
use teri_chat.Table.Sorting.{in_key_order, order_by-in_key_order, by_key, with_key, below}

module _ {A : Type 0} (key : A → ℕ) where
  -- Every later row has a larger key.
  unfoldable pub strict : List A → Bool
  strict [] = true
  strict (x ∷ xs) = count (λ y. leb (key y) (key x)) xs == 0 && strict xs

  insert_first :
      (q : A → Bool) (x y : A) (ys : List A)
      → count (below key (key y)) ys ≡ 0
      → ltb (key y) (key x) ≡ false
      → insert_sorted (by_key key) x (select q ys) ≡ x ∷ select q ys
  unfolding insert_sorted select count
  insert_first q x y [] h n = refl
  insert_first q x y (z ∷ ys) h n = ground (arith, insert_first q x y ys)

  -- To filter and to insert in order commute.
  select-insert_sorted :
      (q : A → Bool) (x : A) (ys : List A)
      → in_key_order key ys ≡ true
      → select q (insert_sorted (by_key key) x ys)
        ≡ (if q x then insert_sorted (by_key key) x (select q ys) else select q ys)
  unfolding insert_sorted select in_key_order
  select-insert_sorted q x [] s = ground arith
  select-insert_sorted q x (y ∷ ys) s = elim (Bool-cases (ltb (key y) (key x))) [
    | inl h ↦ ground (arith, select-insert_sorted q x ys)
    | inr h ↦ ground (arith, insert_first q x y ys)
  ]

  pub select-order_by :
      (q : A → Bool) (xs : List A)
      → select q (order_by (by_key key) xs) ≡ order_by (by_key key) (select q xs)
  unfolding select order_by
  select-order_by q [] = refl
  select-order_by q (x ∷ xs) = ground (
    arith,
    select-insert_sorted q x (order_by (by_key key) xs) (order_by-in_key_order key xs),
    select-order_by q xs,
  )

  count-leb :
      (n : ℕ) (xs : List A)
      → count (λ y. leb (key y) n) xs ≡ count (below key n) xs + count (with_key key n) xs
  unfolding count
  count-leb n [] = refl
  count-leb n (x ∷ xs) = ground (arith, count-leb n xs)

  -- Rows in order whose keys are unique.
  pub in_key_order-strict :
      (xs : List A)
      → in_key_order key xs ≡ true
      → ((n : ℕ) → count (with_key key n) xs ≤ 1)
      → strict xs ≡ true
  unfolding strict in_key_order count
  in_key_order-strict [] s h = refl
  in_key_order-strict (x ∷ xs) s h = ground (
    arith,
    h (key x),
    count-leb (key x) xs,
    in_key_order-strict xs (ground arith) (λ n. ground (arith, h n)),
  )

  -- The rows after a cursor, where `none` is before all.
  abbrev pub after_key : Option ℕ → A → Bool
  after_key none x = true
  after_key (some n) x = ltb n (key x)

  select_later :
      (c : Option ℕ) (x : A) (xs : List A)
      → after_key c x ≡ true
      → count (λ y. leb (key y) (key x)) xs ≡ 0
      → select (after_key (some (key x))) xs ≡ select (after_key c) xs
  unfolding select count
  select_later c x [] e h = refl
  select_later none x (y ∷ xs) e h = ground (arith, select_later none x xs)
  select_later (some n) x (y ∷ xs) e h = ground (arith, select_later (some n) x xs)

  select_head :
      (c : Option ℕ) (x : A) (rest xs : List A)
      → select (after_key c) xs ≡ x ∷ rest
      → after_key c x ≡ true
  unfolding select
  select_head c x rest [] e = absurd (ground arith)
  select_head c x rest (y ∷ xs) e = ground (arith, select_head c x rest xs)

  beyond_row :
      (c : Option ℕ) (x : A) (rest : List A) (y : A) (xs : List A)
      → after_key c y ≡ false
      → after_key c x ≡ true
      → select (after_key (some (key x))) xs ≡ rest
      → select (after_key (some (key x))) (y ∷ xs) ≡ rest
  unfolding select
  beyond_row none x rest y xs n h e = absurd (ground arith)
  beyond_row (some m) x rest y xs n h e = ground arith

  -- One row further.
  pub select-after_key :
      (c : Option ℕ) (x : A) (rest xs : List A)
      → strict xs ≡ true
      → select (after_key c) xs ≡ x ∷ rest
      → select (after_key (some (key x))) xs ≡ rest
  unfolding select strict
  select-after_key c x rest [] s e = ground arith
  select-after_key c x rest (y ∷ xs) s e = elim (Bool-cases (after_key c y)) [
    | inl h ↦
        let same_row : y ≡ x = ground arith in
        let later = select_later c y xs h (ground arith) in ground (arith, same_row, later)
    | inr h ↦
        beyond_row c x rest y xs h (select_head c x rest xs (ground arith))
          (select-after_key c x rest xs (ground arith) (ground arith))
  ]
