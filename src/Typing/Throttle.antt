-- ===== src/Typing/Throttle.antt =====
-- A published signal holds its slot for the interval, and a failed attempt holds none.
use teri_chat.Prelude.{
  ℕ, ◌≡◌, ◌<◌, ◌-◌, refl, true, false, ◌&&◌, none, some, List, [], ◌∷◌, arith, Bool-cases, inl, inr,
  ◌==◌,
}
use teri_chat.Table.{find, select, delete}
use teri_chat.Table.Laws.{find-delete_other}
use teri_chat.Typing.{
  min_interval, Slot, TypingBus, Admission, keyed, recent, swept, admit, publish, drop_unpublished,
}

-- The slot of a key.
abbrev pub Holds : ℕ → ℕ → ℕ → TypingBus → Type 0
Holds u c at bus =
    find (keyed u c) bus.last ≡ some (record { user_id = u; conversation_id = c; at = at })

find-select-recent :
    (now u c : ℕ) (s : Slot) (rows : List Slot)
    → find (keyed u c) rows ≡ some s
    → recent now s ≡ true
    → find (keyed u c) (select (recent now) rows) ≡ some s
unfolding find select
find-select-recent now u c s [] h k = ground arith
find-select-recent now u c s (x ∷ rows) h k = ground (arith, find-select-recent now u c s rows)

-- What others do while a slot is held: admissions of any key, at times within the interval,
-- publications, and drops of admissions other than the one that holds the slot.
pub data Meanwhile (u c at : ℕ) (bus : TypingBus) : TypingBus → Type 0 where
  start : Meanwhile u c at bus bus
  admitted :
      {b : TypingBus} (now v d : ℕ)
      → now - at < min_interval
      → Meanwhile u c at bus b
      → Meanwhile u c at bus (admit now v d b).1
  published :
      {b : TypingBus} (a : Admission) (recipients : List ℕ) (last_seq : ℕ)
      → Meanwhile u c at bus b
      → Meanwhile u c at bus (publish a recipients last_seq b)
  dropped :
      {b : TypingBus} (a : Admission)
      → ((keyed u c (record { user_id = a.user_id; conversation_id = a.conversation_id; at = a.at })
            && a.at == at)
          ≡ false)
      → Meanwhile u c at bus b
      → Meanwhile u c at bus (drop_unpublished a b)

find_same :
    (u c v d : ℕ) (rows : List Slot)
    → (v == u && d == c) ≡ true
    → find (keyed v d) rows ≡ find (keyed u c) rows
unfolding find
find_same u c v d [] h = refl
find_same u c v d (x ∷ rows) h = ground (arith, find_same u c v d rows)

keyed_other :
    (u c v d : ℕ) (x : Slot) → (v == u && d == c) ≡ false → keyed u c x ≡ true → keyed v d x ≡ false
keyed_other u c v d x n h = ground arith

find-delete_keyed :
    (u c v d : ℕ) (rows : List Slot)
    → (v == u && d == c) ≡ false
    → find (keyed u c) (delete (keyed v d) rows) ≡ find (keyed u c) rows
find-delete_keyed u c v d rows n =
    find-delete_other (keyed u c) (keyed v d) rows λ x. keyed_other u c v d x n

find-swept :
    (u c now : ℕ) (s : Slot) (rows : List Slot)
    → find (keyed u c) rows ≡ some s
    → recent now s ≡ true
    → find (keyed u c) (swept now rows) ≡ some s
unfolding swept
find-swept u c now s rows h k = ground (arith, find-select-recent now u c s rows h k)

admit-Holds :
    (u c at now v d : ℕ) (b : TypingBus)
    → now - at < min_interval
    → Holds u c at b
    → Holds u c at (admit now v d b).1
unfolding admit find
admit-Holds u c at now v d b n h = elim (Bool-cases (v == u && d == c)) [
  | inl same ↦ ground (arith, find_same u c v d b.last same)
  | inr other ↦ ground (
    arith,
    find-swept u c now (record { user_id = u; conversation_id = c; at = at }) b.last h,
    find-delete_keyed u c v d (swept now b.last) other,
  )
]

drop-Holds :
    (u c at : ℕ) (a : Admission) (b : TypingBus)
    → ((keyed u c (record { user_id = a.user_id; conversation_id = a.conversation_id; at = a.at })
          && a.at == at)
        ≡ false)
    → Holds u c at b
    → Holds u c at (drop_unpublished a b)
unfolding drop_unpublished
drop-Holds u c at a b n h = elim (Bool-cases (a.user_id == u && a.conversation_id == c)) [
  | inl same ↦ ground (arith, find_same u c a.user_id a.conversation_id b.last same)
  | inr other ↦ ground (arith, find-delete_keyed u c a.user_id a.conversation_id b.last other)
]

Meanwhile-Holds :
    {u c at : ℕ} {bus b : TypingBus} → Meanwhile u c at bus b → Holds u c at bus → Holds u c at b
unfolding publish
Meanwhile-Holds start h = h
Meanwhile-Holds {u} {c} {at} (admitted {b = b} now v d n m) h =
    admit-Holds u c at now v d b n (Meanwhile-Holds m h)
Meanwhile-Holds (published a recipients last_seq m) h = Meanwhile-Holds m h
Meanwhile-Holds {u} {c} {at} (dropped {b = b} a n m) h =
    drop-Holds u c at a b n (Meanwhile-Holds m h)

admit-slot :
    (u c at : ℕ) (before : TypingBus) (a : Admission) (bus : TypingBus)
    → admit at u c before ≡ (some a, bus)
    → Holds u c at bus
unfolding admit find
admit-slot u c at before a bus h = ground arith

-- From an admission on, and within the interval, every further admission of the same user and
-- conversation is refused, whatever is admitted, published or dropped meanwhile, unless the
-- admission itself is dropped.
pub admit-throttle :
    (u c at now : ℕ) (before : TypingBus) (a : Admission) (bus b : TypingBus)
    → admit at u c before ≡ (some a, bus)
    → Meanwhile u c at bus b
    → now - at < min_interval
    → admit now u c b ≡ (none, b)
unfolding admit
admit-throttle u c at now before a bus b h m n =
    ground (arith, Meanwhile-Holds m (admit-slot u c at before a bus h))
