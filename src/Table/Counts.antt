-- ===== src/Table/Counts.antt =====
-- Counts, lengths and nested selections.
use teri_chat.Prelude.{
  ℕ, ◌≡◌, ap, refl, zero, suc, ◌-◌, ◌≤◌, Bool, true, not, ◌&&◌, List, [], ◌∷◌, ◌++◌, arith, length,
  drop,
}
use teri_chat.Table.{select, count}

module _ {A : Type 0} where
  pub count_le_length : (p : A → Bool) (xs : List A) → count p xs ≤ length xs
  unfolding count
  count_le_length p [] = omega arith
  count_le_length p (x ∷ xs) = ground (arith, count_le_length p xs)

  pub length-select : (p : A → Bool) (xs : List A) → length (select p xs) ≡ count p xs
  unfolding select count
  length-select p [] = refl
  length-select p (x ∷ xs) = ground (arith, length-select p xs)

  pub length-count : (xs : List A) → count (λ x. true) xs ≡ length xs
  unfolding count
  length-count [] = refl
  length-count (x ∷ xs) = ground (arith, length-count xs)

  pub length-drop : (n : ℕ) (xs : List A) → length (drop n xs) ≡ length xs - n
  length-drop zero xs = omega arith
  length-drop (suc n) [] = omega arith
  length-drop (suc n) (x ∷ xs) = ground (arith, length-drop n xs)

  pub select-select :
      (p q : A → Bool) (xs : List A) → select q (select p xs) ≡ select (λ x. p x && q x) xs
  unfolding select
  select-select p q [] = refl
  select-select p q (x ∷ xs) = ground (arith, select-select p q xs)

  pub select_same :
      (p q : A → Bool) (xs : List A) → ((x : A) → p x ≡ q x) → select p xs ≡ select q xs
  unfolding select
  select_same p q [] h = refl
  select_same p q (x ∷ xs) h = ground (arith, h x, select_same p q xs h)

  pub count-select_le : (p q : A → Bool) (xs : List A) → count p (select q xs) ≤ count p xs
  unfolding select count
  count-select_le p q [] = omega arith
  count-select_le p q (x ∷ xs) = ground (arith, count-select_le p q xs)

  pub append_nil : (xs : List A) → xs ++ [] ≡ xs
  append_nil [] = refl
  append_nil (x ∷ xs) = ap (λ ys. x ∷ ys) (append_nil xs)

  pub append_assoc : (xs ys zs : List A) → (xs ++ ys) ++ zs ≡ xs ++ (ys ++ zs)
  append_assoc [] ys zs = refl
  append_assoc (x ∷ xs) ys zs = ap (λ w. x ∷ w) (append_assoc xs ys zs)

  -- A `SELECT` whose rows all pass.
  pub select_all : (q : A → Bool) (xs : List A) → count (λ x. not (q x)) xs ≡ 0 → select q xs ≡ xs
  unfolding select count
  select_all q [] h = refl
  select_all q (x ∷ xs) h = ground (arith, select_all q xs)
