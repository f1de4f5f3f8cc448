-- ===== src/Table/Paging.antt =====
-- Pages with a cursor: a page is cut from one row more than it may show, and its cursor, if rows are
-- left, is the key of the last row that it shows.
use teri_chat.Prelude.{
  ℕ, ◌≡◌, ◌∙◌, ap, refl, zero, suc, ◌+◌, ◌<◌, ◌≤◌, true, false, not, Option, none, some, List, [],
  ◌∷◌, ◌++◌, map, take, drop, length, arith, ltb, Bool-cases, inl, inr, if◌then◌else◌,
}
use teri_chat.Table.{select}
use teri_chat.Table.Counts.{length-drop, select_all}
use teri_chat.Table.Sorting.{count_none}
use teri_chat.Table.Scans.{strict, after_key, select-after_key}

module _ {B : Type 0} (id : B → ℕ) where
  -- `rows.last()`.
  unfoldable pub last_key : List B → Option ℕ
  last_key [] = none
  last_key (x ∷ []) = some (id x)
  last_key (x ∷ y ∷ xs) = last_key (y ∷ xs)

  -- The page of the `limit + 1` rows that were read at most.
  unfoldable pub cut_page : ℕ → List B → List B × Option ℕ
  unfolding last_key
  cut_page limit rows =
      (take limit rows, if ltb limit (length rows) then last_key (take limit rows) else none)

module _ {B : Type 0} where
  abbrev pub continued : List B × Option ℕ → (ℕ → Option (List B)) → Option (List B)
  continued (page, none) rest = some page
  continued (page, some c) rest = elim (rest c) [ none ↦ none | some more ↦ some (page ++ more) ]

  abbrev pub joined : Option (List B × Option ℕ) → (ℕ → Option (List B)) → Option (List B)
  joined none rest = none
  joined (some page) rest = continued page rest

  -- All that a client is shown who follows the cursors, from `c` on: nothing if a page is refused or
  -- the last page is not among the first `fuel`.
  unfoldable pub follow : ℕ → (Option ℕ → Option (List B × Option ℕ)) → Option ℕ → Option (List B)
  follow zero fetch c = none
  follow (suc fuel) fetch c = joined (fetch c) (λ n. follow fuel fetch (some n))

module _ {A B : Type 0} (f : A → B) where
  take-map : (n : ℕ) (xs : List A) → take n (map f (take (suc n) xs)) ≡ map f (take n xs)
  take-map zero xs = refl
  take-map (suc n) [] = refl
  take-map (suc n) (x ∷ xs) = ap (λ ys. f x ∷ ys) (take-map n xs)

  longer : (n : ℕ) (xs : List A) → ltb n (length (map f (take (suc n) xs))) ≡ ltb n (length xs)
  longer zero [] = refl
  longer zero (x ∷ xs) = ground arith
  longer (suc n) [] = refl
  longer (suc n) (x ∷ xs) = ground (arith, longer n xs)

  map-take-drop : (n : ℕ) (xs : List A) → map f (take n xs) ++ map f (drop n xs) ≡ map f xs
  map-take-drop zero xs = refl
  map-take-drop (suc n) [] = refl
  map-take-drop (suc n) (x ∷ xs) = ap (λ ys. f x ∷ ys) (map-take-drop n xs)

  map-take_all : (n : ℕ) (xs : List A) → ltb n (length xs) ≡ false → map f (take n xs) ≡ map f xs
  map-take_all zero [] h = refl
  map-take_all zero (x ∷ xs) h = absurd (ground arith)
  map-take_all (suc n) [] h = refl
  map-take_all (suc n) (x ∷ xs) h = ap (λ ys. f x ∷ ys) (map-take_all n xs (ground arith))

one_more : (n : ℕ) → n + 1 ≡ suc n
one_more n = omega arith

-- Rows in the order of a unique key, which a client sees through `f`.
module _ {A B : Type 0} (key : A → ℕ) (id : B → ℕ) (f : A → B)
    (same : (x : A) → id (f x) ≡ key x) where
  -- The page after a cursor.
  abbrev pub page_after : ℕ → List A → Option ℕ → List B × Option ℕ
  page_after n table c = cut_page id n (map f (take (n + 1) (select (after_key key c) table)))

  -- The cursor of a page that is not the last one stands at what the page shows last.
  page_end :
      (k : ℕ) (table : List A) (c : Option ℕ) (later : List A)
      → strict key table ≡ true
      → select (after_key key c) table ≡ later
      → ltb (suc k) (length later) ≡ true
      → (e : ℕ) × (last_key id (map f (take (suc k) later)) ≡ some e)
        × (select (after_key key (some e)) table ≡ drop (suc k) later)
  unfolding last_key
  page_end k table c [] h q l = absurd (ground arith)
  page_end zero table c (x ∷ later) h q l =
      (key x, ap some (same x), select-after_key key c x later table h q)
  page_end (suc k) table c (x ∷ []) h q l = absurd (ground arith)
  page_end (suc k) table c (x ∷ y ∷ later) h q l =
      page_end k table (some (key x)) (y ∷ later) h (select-after_key key c x (y ∷ later) table h q)
        (ground arith)

  cut_last :
      (n : ℕ) (later : List A)
      → ltb n (length later) ≡ false
      → cut_page id n (map f (take (n + 1) later)) ≡ (map f later, none)
  unfolding cut_page
  cut_last n later l =
      ap (λ m. cut_page id n (map f (take m later))) (one_more n)
      ∙ ground (arith, longer f n later, take-map f n later, map-take_all f n later l)

  cut_more :
      (n e : ℕ) (later : List A)
      → ltb n (length later) ≡ true
      → last_key id (map f (take n later)) ≡ some e
      → cut_page id n (map f (take (n + 1) later)) ≡ (map f (take n later), some e)
  unfolding cut_page
  cut_more n e later l q =
      ap (λ m. cut_page id n (map f (take m later))) (one_more n)
      ∙ ground (arith, longer f n later, take-map f n later)

  follow-later :
      (fuel k : ℕ) (table : List A) (fetch : Option ℕ → Option (List B × Option ℕ)) (c : Option ℕ)
      (later : List A)
      → strict key table ≡ true
      → ((d : Option ℕ) → fetch d ≡ some (page_after (suc k) table d))
      → select (after_key key c) table ≡ later
      → length later < fuel
      → follow fuel fetch c ≡ some (map f later)
  unfolding follow
  follow-later zero k table fetch c later h p q l = absurd (omega arith)
  follow-later (suc fuel) k table fetch c later h p q l =
      let rest = λ (e : ℕ). follow fuel fetch (some e) in
      let page = p c ∙ ap (λ ls. some (cut_page id (suc k) (map f (take (suc k + 1) ls)))) q in
      ap (λ x. joined x rest) page ∙ (elim (Bool-cases (ltb (suc k) (length later))) [
        | inr s ↦ ap (λ x. continued x rest) (cut_last (suc k) later s)
        | inl s ↦
            let end = page_end k table c later h q s in
            let more =
              follow-later fuel k table fetch (some end.0) (drop (suc k) later) h p end.2
                (ground (arith, length-drop (suc k) later)) in
            ap (λ x. continued x rest) (cut_more (suc k) end.0 later s end.1)
            ∙ ground (arith, more, map-take-drop f (suc k) later)
      ])

  -- A client who follows the cursors sees every row once and in order, and comes to an end.
  pub follow_complete :
      (fuel n : ℕ) (table : List A) (fetch : Option ℕ → Option (List B × Option ℕ))
      → strict key table ≡ true
      → 1 ≤ n
      → ((d : Option ℕ) → fetch d ≡ some (page_after n table d))
      → length table < fuel
      → follow fuel fetch none ≡ some (map f table)
  follow_complete fuel zero table fetch h o p l = absurd (omega arith)
  follow_complete fuel (suc k) table fetch h o p l =
      follow-later fuel k table fetch none table h p
        (select_all (after_key key none) table
          (count_none (λ x. not (after_key key none x)) table (λ x. refl)))
        l
