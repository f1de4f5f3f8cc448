-- ===== src/Table/Each.antt =====
-- What holds of each row of a table.
use mathlib.Core.Path.{subst}
use teri_chat.Prelude.{
  ℕ, ◌≡◌, zero, suc, Bool, true, List, [], ◌∷◌, map, take, arith, Bool-cases, inl, inr,
}
use teri_chat.Table.{select, order_by, insert_sorted}

abbrev pub All : {A : Type 0} → (A → Type 0) → List A → Type 0
All P [] = Unit
All P (x ∷ xs) = P x × All P xs

module _ {A : Type 0} where
  insert-All :
      (P : A → Type 0) (before : A → A → Bool) (x : A) (xs : List A)
      → P x
      → All P xs
      → All P (insert_sorted before x xs)
  unfolding insert_sorted
  insert-All P before x [] p a = (p, tt)
  insert-All P before x (y ∷ xs) p a = elim (Bool-cases (before y x)) [
    | inl b ↦
        let kept : All P (y ∷ insert_sorted before x xs) = (a.0, insert-All P before x xs p a.1) in
        subst (All P) {x = y ∷ insert_sorted before x xs} (ground arith) kept
    | inr b ↦
        let kept : All P (x ∷ y ∷ xs) = (p, a) in subst (All P) {x = x ∷ y ∷ xs} (ground arith) kept
  ]

  pub order_by-All :
      (P : A → Type 0) (before : A → A → Bool) (xs : List A) → All P xs → All P (order_by before xs)
  unfolding order_by
  order_by-All P before [] a = tt
  order_by-All P before (x ∷ xs) a =
      insert-All P before x (order_by before xs) a.0 (order_by-All P before xs a.1)

pub All-map :
    {A B : Type 0} (P : A → Type 0) (Q : B → Type 0) (f : A → B) (xs : List A)
    → ((x : A) → P x → Q (f x))
    → All P xs
    → All Q (map f xs)
All-map P Q f [] h a = tt
All-map P Q f (x ∷ xs) h a = (h x a.0, All-map P Q f xs h a.1)

pub All-each :
    {A : Type 0} (P Q : A → Type 0) (xs : List A) → ((x : A) → P x → Q x) → All P xs → All Q xs
All-each P Q [] h a = tt
All-each P Q (x ∷ xs) h a = (h x a.0, All-each P Q xs h a.1)

module _ {A : Type 0} where
  -- The rows of a `SELECT` are rows of the table, and pass the test.
  pub select-All :
      (P : A → Type 0) (Q : A → Type 0) (q : A → Bool) (xs : List A)
      → ((x : A) → P x → q x ≡ true → Q x)
      → All P xs
      → All Q (select q xs)
  unfolding select
  select-All P Q q [] h a = tt
  select-All P Q q (x ∷ xs) h a =
      let rest = select-All P Q q xs h a.1 in
      elim (Bool-cases (q x)) [
        | inr n ↦ subst (All Q) {x = select q xs} (ground arith) rest
        | inl y ↦
            let kept : All Q (x ∷ select q xs) = (h x a.0 y, rest) in
            subst (All Q) {x = x ∷ select q xs} (ground arith) kept
      ]

  pub take-All : (P : A → Type 0) (n : ℕ) (xs : List A) → All P xs → All P (take n xs)
  take-All P zero xs a = tt
  take-All P (suc n) [] a = tt
  take-All P (suc n) (x ∷ xs) a = (a.0, take-All P n xs a.1)
