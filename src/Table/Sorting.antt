-- ===== src/Table/Sorting.antt =====
-- `ORDER BY` a number: what is counted stays, and the rows come in order.
use teri_chat.Prelude.{
  ℕ, ◌≡◌, refl, zero, suc, ◌+◌, ◌<◌, ◌≤◌, Bool, true, false, ◌&&◌, List, [], ◌∷◌, map, arith, ltb,
  leb, ◌==◌, take, drop, if◌then◌else◌,
}
use teri_chat.Table.{select, count, insert_sorted, order_by}

-- a, a + 1, …, n of them.
unfoldable pub range : ℕ → ℕ → List ℕ
range a zero = []
range a (suc n) = a ∷ range (suc a) n

module _ {A : Type 0} where
  pub count-insert_sorted :
      (p : A → Bool) (before : A → A → Bool) (x : A) (xs : List A)
      → count p (insert_sorted before x xs) ≡ count p (x ∷ xs)
  unfolding count insert_sorted
  count-insert_sorted p before x [] = refl
  count-insert_sorted p before x (y ∷ ys) = ground (arith, count-insert_sorted p before x ys)

  pub count-order_by :
      (p : A → Bool) (before : A → A → Bool) (xs : List A)
      → count p (order_by before xs) ≡ count p xs
  unfolding count order_by
  count-order_by p before [] = refl
  count-order_by p before (x ∷ xs) =
      ground
        (arith, count-insert_sorted p before x (order_by before xs), count-order_by p before xs)

  pub count-select :
      (p q : A → Bool) (xs : List A) → count p (select q xs) ≡ count (λ x. q x && p x) xs
  unfolding count select
  count-select p q [] = refl
  count-select p q (x ∷ xs) = ground (arith, count-select p q xs)

  pub count_same : (p q : A → Bool) (xs : List A) → ((x : A) → p x ≡ q x) → count p xs ≡ count q xs
  unfolding count
  count_same p q [] h = refl
  count_same p q (x ∷ xs) h = ground (arith, h x, count_same p q xs h)

  pub count_none : (p : A → Bool) (xs : List A) → ((x : A) → p x ≡ false) → count p xs ≡ 0
  unfolding count
  count_none p [] h = refl
  count_none p (x ∷ xs) h = ground (arith, h x, count_none p xs h)

  -- The rows are counted in two parts.
  pub count-take-drop :
      (p : A → Bool) (n : ℕ) (xs : List A) → count p (take n xs) + count p (drop n xs) ≡ count p xs
  unfolding count
  count-take-drop p zero xs = omega arith
  count-take-drop p (suc n) [] = refl
  count-take-drop p (suc n) (x ∷ xs) = ground (arith, count-take-drop p n xs)

  module _ (key : A → ℕ) where
    abbrev pub by_key : A → A → Bool
    by_key x y = ltb (key x) (key y)

    abbrev pub with_key : ℕ → A → Bool
    with_key n x = key x == n

    abbrev pub below : ℕ → A → Bool
    below n x = ltb (key x) n

    -- No row is followed by one with a smaller key.
    unfoldable pub in_key_order : List A → Bool
    in_key_order [] = true
    in_key_order (x ∷ xs) = count (below (key x)) xs == 0 && in_key_order xs

    none_lower : (m n : ℕ) (xs : List A) → m ≤ n → count (below n) xs ≡ 0 → count (below m) xs ≡ 0
    unfolding count
    none_lower m n [] h e = refl
    none_lower m n (x ∷ xs) h e = ground (arith, none_lower m n xs)

    insert_sorted-in_key_order :
        (x : A) (xs : List A)
        → in_key_order xs ≡ true
        → in_key_order (insert_sorted by_key x xs) ≡ true
    unfolding in_key_order insert_sorted count
    insert_sorted-in_key_order x [] s = refl
    insert_sorted-in_key_order x (y ∷ ys) s = ground (
      arith,
      insert_sorted-in_key_order x ys,
      count-insert_sorted (below (key y)) by_key x ys,
      none_lower (key x) (key y) ys,
    )

    pub order_by-in_key_order : (xs : List A) → in_key_order (order_by by_key xs) ≡ true
    unfolding in_key_order order_by
    order_by-in_key_order [] = refl
    order_by-in_key_order (x ∷ xs) =
        insert_sorted-in_key_order x (order_by by_key xs) (order_by-in_key_order xs)

    none_here : (m n : ℕ) (xs : List A) → m < n → count (below n) xs ≡ 0 → count (with_key m) xs ≡ 0
    unfolding count
    none_here m n [] h e = refl
    none_here m n (x ∷ xs) h e = ground (arith, none_here m n xs)

    -- Rows in order that have each key from `a` on, `k` of them, once, and no other, have exactly
    -- these keys one after the other.
    pub map-range :
        (a k : ℕ) (xs : List A)
        → in_key_order xs ≡ true
        → ((n : ℕ) → count (with_key n) xs ≡ (if leb a n && ltb n (a + k) then 1 else 0))
        → map key xs ≡ range a k
    unfolding in_key_order count range
    map-range a zero [] s h = refl
    map-range a (suc k) [] s h = ground (arith, h a)
    map-range a zero (x ∷ xs) s h = ground (arith, h (key x))
    map-range a (suc k) (x ∷ xs) s h =
        let first : key x ≡ a = ground (arith, h a, h (key x), none_here a (key x) xs) in
        ground
          (arith, first, map-range (suc a) k xs (ground arith) (λ n. ground (arith, first, h n)))
