-- ===== src/Table/Laws.antt =====
-- How a look-up, a test and a count see a table that a statement has changed.
use teri_chat.Prelude.{
  ◌≡◌, refl, Bool, true, false, none, some, List, [], ◌∷◌, arith, is_some, if◌then◌else◌,
}
use teri_chat.Table.{find, exists, delete, update, count}

module _ {A : Type 0} where
  -- A look-up whose rows all stay does not notice a `DELETE`.
  pub find-delete_other :
      (p d : A → Bool) (xs : List A)
      → ((x : A) → p x ≡ true → d x ≡ false)
      → find p (delete d xs) ≡ find p xs
  unfolding find delete
  find-delete_other p d [] h = refl
  find-delete_other p d (x ∷ xs) h = ground (arith, h x, find-delete_other p d xs h)

  -- An `UPDATE` that no look-up key notices maps the row that is found.
  pub find-update_hit :
      (p d : A → Bool) (f : A → A) (xs : List A)
      → ((x : A) → p x ≡ true → d x ≡ true)
      → ((x : A) → p (f x) ≡ p x)
      → find p (update d f xs) ≡ elim (find p xs) [ none ↦ none | some x ↦ some (f x) ]
  unfolding find update
  find-update_hit p d f [] h k = refl
  find-update_hit p d f (x ∷ xs) h k = ground (arith, h x, k x, find-update_hit p d f xs h k)

  pub find-update_miss :
      (p d : A → Bool) (f : A → A) (xs : List A)
      → ((x : A) → p x ≡ true → d x ≡ false)
      → ((x : A) → p (f x) ≡ p x)
      → find p (update d f xs) ≡ find p xs
  unfolding find update
  find-update_miss p d f [] h k = refl
  find-update_miss p d f (x ∷ xs) h k = ground (arith, h x, k x, find-update_miss p d f xs h k)

  -- In general an `UPDATE` maps the row that is found, if it is among those that it changes.
  pub find-update :
      (p d : A → Bool) (f : A → A) (xs : List A)
      → ((x : A) → p (f x) ≡ p x)
      → find p (update d f xs)
        ≡ elim (find p xs) [ none ↦ none | some x ↦ some (if d x then f x else x) ]
  unfolding find update
  find-update p d f [] k = refl
  find-update p d f (x ∷ xs) k = ground (arith, k x, find-update p d f xs k)

  -- An `UPDATE` that a condition does not notice keeps what is counted.
  pub count-update :
      (p d : A → Bool) (f : A → A) (xs : List A)
      → ((x : A) → p (f x) ≡ p x)
      → count p (update d f xs) ≡ count p xs
  unfolding count update
  count-update p d f [] h = refl
  count-update p d f (x ∷ xs) h = ground (arith, h x, count-update p d f xs h)

  -- Equal tests find the same row.
  pub find_same : (p q : A → Bool) (xs : List A) → ((x : A) → p x ≡ q x) → find p xs ≡ find q xs
  unfolding find
  find_same p q [] h = refl
  find_same p q (x ∷ xs) h = ground (arith, h x, find_same p q xs h)

  -- What is found passes the test.
  pub find_sound : (p : A → Bool) {x : A} (xs : List A) → find p xs ≡ some x → p x ≡ true
  unfolding find
  find_sound p [] e = ground arith
  find_sound p {x} (y ∷ xs) e = ground (arith, find_sound p {x = x} xs)

  -- A row exists exactly when the look-up finds one.
  pub exists-eq-is_some : (p : A → Bool) (xs : List A) → exists p xs ≡ is_some (find p xs)
  unfolding exists find
  exists-eq-is_some p [] = refl
  exists-eq-is_some p (x ∷ xs) = ground (arith, exists-eq-is_some p xs)
