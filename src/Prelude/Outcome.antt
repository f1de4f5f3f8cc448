-- ===== src/Prelude/Outcome.antt =====
-- Fallible code and database transactions.
--
-- A query reads the committed state, a transaction body threads it and loses every write when it
-- returns an error, and an action is a whole request: its answer beside the state it leaves.
use mathlib.Core.Path.{◌≡◌, refl}
use mathlib.Core.Logic.{◌⊎◌, inl, inr}
use mathlib.Core.Bool.{Bool, true, false}
use mathlib.Core.Option.{Option, none, some}

pub data Result {ℓ κ} (E : Type ℓ) (A : Type κ) : Type (ℓ ⊔ κ) where
  ok : A → Result E A
  err : E → Result E A

-- To split on a computed result and keep the equation.
pub Result-cases {ℓ κ} :
    {E : Type ℓ} {A : Type κ} (r : Result E A) → ((a : A) × (r ≡ ok a)) ⊎ ((e : E) × (r ≡ err e))
Result-cases (ok a) = inl (a, refl)
Result-cases (err e) = inr (e, refl)

-- What PostgreSQL reports, as far as the statements here can fail: by a constraint of the schema,
-- by a trigger, by a number out of range, by a row that a `fetch_one` misses, or because the
-- transaction has failed before.
pub data DbError : Type 0 where
  row_not_found unique_violation foreign_key_violation check_violation : DbError
  raise_exception out_of_range in_failed_transaction : DbError

-- The body of a transaction on the state `S`.
abbrev pub Tx : Type 0 → Type 0 → Type 0 → Type 0
Tx S E A = S → Result E (A × S)

infixl 5 ◌>>=◌ ◌>>◌
abbrev pub ◌>>=◌ : {S E A B : Type 0} → Tx S E A → (A → Tx S E B) → Tx S E B
◌>>=◌ m f s = elim (m s) [ ok (a, s') ↦ f a s' | err e ↦ err e ]

abbrev pub ◌>>◌ : {S E A B : Type 0} → Tx S E A → Tx S E B → Tx S E B
m >> k = m >>= λ _. k

module _ {S E : Type 0} where
  abbrev pub pure : {A : Type 0} → A → Tx S E A
  pure a s = ok (a, s)

  abbrev pub raise_if : Bool → E → Tx S E (Unit {0})
  raise_if true e s = err e
  raise_if false e s = ok (tt, s)

  abbrev pub ok_or : {A : Type 0} → Option A → E → Tx S E A
  ok_or none e s = err e
  ok_or (some a) e s = ok (a, s)

  abbrev pub gets : {A : Type 0} → (S → A) → Tx S E A
  gets f s = ok (f s, s)

  abbrev pub lift : {A : Type 0} → Result E A → Tx S E A
  lift (ok a) s = ok (a, s)
  lift (err e) s = err e

  -- A query made inside a transaction.
  abbrev pub query : {A : Type 0} → (S → Result E A) → Tx S E A
  query q s = elim (q s) [ ok a ↦ ok (a, s) | err e ↦ err e ]

  abbrev pub map_err : {F A : Type 0} → (F → E) → Tx S F A → Tx S E A
  map_err g m s = elim (m s) [ ok r ↦ ok r | err e ↦ err (g e) ]

  -- `begin`, the body, `commit`: an error rolls every write back.
  abbrev pub transaction : {A : Type 0} → Tx S E A → S → Result E A × S
  transaction m s = elim (m s) [ ok (a, s') ↦ (ok a, s') | err e ↦ (err e, s) ]

  -- A check on the committed state, before the rest of the request.
  abbrev pub after : {A B : Type 0} → Result E A → (A → S → Result E B × S) → S → Result E B × S
  after (ok a) f s = f a s
  after (err e) f s = (err e, s)

  -- A request that goes on after one that has committed.
  abbrev pub and_then : {A B : Type 0} → Result E A × S → (A → S → Result E B × S) → Result E B × S
  and_then (ok a, s) f = f a s
  and_then (err e, s) f = (err e, s)

  -- A block that only reads, run on the committed state.
  abbrev pub reading : {A : Type 0} → Tx S E A → S → Result E A
  reading m s = elim (m s) [ ok (a, s') ↦ ok a | err e ↦ err e ]
