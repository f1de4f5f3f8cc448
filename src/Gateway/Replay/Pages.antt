-- ===== src/Gateway/Replay/Pages.antt =====
-- What a replay has still to deliver, and that a page changes nothing of it.
use mathlib.Core.Path.{sym, subst}
use teri_chat.Prelude.{
  ℕ, ◌≡◌, ◌∙◌, ap, refl, zero, suc, ◌≤◌, ◌⊎◌, Bool, true, false, not, ◌&&◌, Option, none, some,
  List, [], ◌∷◌, ◌++◌, map, take, arith, ltb, leb, Bool-cases, inl, inr,
}
use teri_chat.Table.{select, count, order_by}
use teri_chat.Table.Counts.{select-select, select_same, count-select_le, append_nil, append_assoc}
use teri_chat.Table.Sorting.{order_by-in_key_order, with_key, count-order_by}
use teri_chat.Table.Scans.{
  strict, in_key_order-strict, after_key, select-after_key, select-order_by,
}
use teri_chat.Messaging.Schema.{MsgDb, StoredEvent, OutboxEntry}
use teri_chat.Messaging.Outbox.{
  events_after, participates, replayable, smaller_id, entry_of, event_id_of, beyond,
}
use teri_chat.Gateway.Replay.{Replay, absorb, above, page_limit}

abbrev pub concerns : ℕ → MsgDb → StoredEvent → Bool
concerns u db e = participates u db.participants e.payload.conversation_id

-- The events of the user's conversations, in the order of their ids.
unfoldable pub feed : ℕ → MsgDb → List StoredEvent
feed u db = order_by smaller_id (select (concerns u db) db.outbox)

-- Those after a cursor.
unfoldable pub ahead : ℕ → MsgDb → Option ℕ → List StoredEvent
ahead u db c = select (after_key event_id_of c) (feed u db)

abbrev pub within : ℕ → StoredEvent → Bool
within m e = not (ltb m e.id)

abbrev pub UniqueIds : MsgDb → Type 0
UniqueIds db = (i : ℕ) → count (with_key event_id_of i) db.outbox ≤ 1

feed-strict : (u : ℕ) (db : MsgDb) → UniqueIds db → strict event_id_of (feed u db) ≡ true
unfolding feed
feed-strict u db h =
    in_key_order-strict event_id_of (order_by smaller_id (select (concerns u db) db.outbox))
      (order_by-in_key_order event_id_of (select (concerns u db) db.outbox))
      λ n. ground (
        arith,
        count-order_by (with_key event_id_of n) smaller_id (select (concerns u db) db.outbox),
        count-select_le (with_key event_id_of n) (concerns u db) db.outbox,
        h n,
      )

beyond_after : (c : Option ℕ) (e : StoredEvent) → beyond c e.id ≡ after_key event_id_of c e
beyond_after none e = refl
beyond_after (some n) e = refl

-- A page is the first hundred of what is ahead.
pub page-ahead :
    (u : ℕ) (c : Option ℕ) (db : MsgDb)
    → events_after u c page_limit db ≡ map entry_of (take 100 (ahead u db c))
unfolding events_after ahead feed
page-ahead u c db =
    ap (λ rows. map entry_of (take 100 rows))
      (ap (order_by smaller_id) (
          select_same (replayable u c db.participants)
            (λ e. concerns u db e && after_key event_id_of c e) db.outbox
            (λ e. ap (λ b. concerns u db e && b) (beyond_after c e))
          ∙ sym (select-select (concerns u db) (after_key event_id_of c) db.outbox))
        ∙ sym (
            select-order_by event_id_of (after_key event_id_of c)
              (select (concerns u db) db.outbox)))

-- What is to come, up to the ceiling.
unfoldable pub upcoming : ℕ → MsgDb → ℕ → Option ℕ → List OutboxEntry
upcoming u db m c = map entry_of (select (within m) (ahead u db c))

abbrev pub todo : ℕ → MsgDb → ℕ → Replay → List OutboxEntry
todo u db m r = r.pending ++ upcoming u db m r.cursor

ahead-step :
    (u : ℕ) (db : MsgDb) (c : Option ℕ) (e : StoredEvent) (rest : List StoredEvent)
    → UniqueIds db
    → ahead u db c ≡ e ∷ rest
    → ahead u db (some e.id) ≡ rest
unfolding ahead
ahead-step u db c e rest h q =
    select-after_key event_id_of c e rest (feed u db) (feed-strict u db h) q

pub List-cases : {A : Type 0} (xs : List A) → (xs ≡ []) ⊎ ((x : A) × (ys : List A) × (xs ≡ x ∷ ys))
List-cases [] = inl refl
List-cases (x ∷ xs) = inr (x, xs, refl)

upcoming-step :
    (u : ℕ) (db : MsgDb) (m : ℕ) (c : Option ℕ) (e : StoredEvent) (rest : List StoredEvent)
    → UniqueIds db
    → ahead u db c ≡ e ∷ rest
    → ltb m e.id ≡ false
    → upcoming u db m c ≡ entry_of e ∷ upcoming u db m (some e.id)
unfolding upcoming select
upcoming-step u db m c e rest h q n = ground (arith, ahead-step u db c e rest h q)

-- One turn of the loop over a page.
abbrev pub pushed : StoredEvent → Replay → Replay
pushed e r = record r { cursor = some e.id; pending = r.pending ++ (entry_of e ∷ []) }

taken :
    (e : StoredEvent) (page : List OutboxEntry) (r : Replay) (m : ℕ)
    → r.ceiling ≡ some m
    → ltb m e.id ≡ false
    → absorb (entry_of e ∷ page) r ≡ absorb page (pushed e r)
unfolding absorb
taken e page r m c n = ground arith

-- The loop over a page keeps what is to be delivered.
pub absorb-todo :
    (k u : ℕ) (db : MsgDb) (m : ℕ) (r : Replay) (rows : List StoredEvent)
    → UniqueIds db
    → r.ceiling ≡ some m
    → ahead u db r.cursor ≡ rows
    → todo u db m (absorb (map entry_of (take k rows)) r) ≡ todo u db m r
unfolding absorb
absorb-todo zero u db m r rows h c q = refl
absorb-todo (suc k) u db m r [] h c q = refl
absorb-todo (suc k) u db m r (e ∷ rows) h c q = elim (Bool-cases (ltb m e.id)) [
  | inl n ↦ ground arith
  | inr n ↦
      ap (todo u db m) (taken e (map entry_of (take k rows)) r m c n)
      ∙ (absorb-todo k u db m (pushed e r) rows h c (ahead-step u db r.cursor e rows h q)
          ∙ (append_assoc r.pending (entry_of e ∷ []) (upcoming u db m (some e.id))
              ∙ ap (λ es. r.pending ++ es) (sym (upcoming-step u db m r.cursor e rows h q n))))
]

pub absorb-ceiling :
    (page : List OutboxEntry) (r : Replay)
    → ((absorb page r).ceiling ≡ r.ceiling) × ((absorb page r).done ≡ r.done)
unfolding absorb
absorb-ceiling [] r = (refl, refl)
absorb-ceiling (e ∷ page) r =
    ground (
      arith,
      absorb-ceiling page (record r { cursor = some e.id; pending = r.pending ++ (e ∷ []) }),
    )

-- What is pending stays pending.
absorb-pending :
    (page : List OutboxEntry) (r : Replay)
    → (es : List OutboxEntry) × ((absorb page r).pending ≡ r.pending ++ es)
unfolding absorb
absorb-pending [] r = ([], sym (append_nil r.pending))
absorb-pending (e ∷ page) r = elim (Bool-cases (above r.ceiling e.id)) [
  | inl n ↦ ([], ground (arith, append_nil r.pending))
  | inr n ↦
      let rest =
        absorb-pending page (record r { cursor = some e.id; pending = r.pending ++ (e ∷ []) }) in
      (e ∷ rest.0, ground (arith, rest.1, append_assoc r.pending (e ∷ []) rest.0))
]

strict-select :
    (q : StoredEvent → Bool) (xs : List StoredEvent)
    → strict event_id_of xs ≡ true
    → strict event_id_of (select q xs) ≡ true
unfolding strict select
strict-select q [] s = refl
strict-select q (x ∷ xs) s =
    ground
      (arith, strict-select q xs, count-select_le (λ y. leb (event_id_of y) (event_id_of x)) q xs)

none_within :
    (m n : ℕ) (xs : List StoredEvent)
    → m ≤ n
    → count (λ y. leb (event_id_of y) n) xs ≡ 0
    → select (within m) xs ≡ []
unfolding select count
none_within m n [] l h = refl
none_within m n (x ∷ xs) l h = ground (arith, none_within m n xs l)

nothing_within :
    (m : ℕ) (x : StoredEvent) (xs : List StoredEvent)
    → strict event_id_of (x ∷ xs) ≡ true
    → ltb m x.id ≡ true
    → select (within m) (x ∷ xs) ≡ []
unfolding strict select
nothing_within m x xs s n = ground (arith, none_within m x.id xs)

ahead-strict :
    (u : ℕ) (db : MsgDb) (c : Option ℕ) (x : StoredEvent) (rows : List StoredEvent)
    → UniqueIds db
    → ahead u db c ≡ x ∷ rows
    → strict event_id_of (x ∷ rows) ≡ true
unfolding ahead
ahead-strict u db c x rows h q =
    subst (λ es. strict event_id_of es ≡ true) q
      (strict-select (after_key event_id_of c) (feed u db) (feed-strict u db h))

-- A page that yields nothing ends the replay: nothing is upcoming.
pub absorb-none :
    (k u : ℕ) (db : MsgDb) (m : ℕ) (r : Replay) (rows : List StoredEvent)
    → UniqueIds db
    → r.ceiling ≡ some m
    → r.pending ≡ []
    → ahead u db r.cursor ≡ rows
    → (absorb (map entry_of (take (suc k) rows)) r).pending ≡ []
    → upcoming u db m r.cursor ≡ []
unfolding upcoming select absorb
absorb-none k u db m r [] h c p q e = ground arith
absorb-none k u db m r (x ∷ rows) h c p q e = elim (Bool-cases (ltb m x.id)) [
  | inl n ↦
      ap (λ (es : List StoredEvent). map entry_of (select (within m) es)) q
      ∙ ap (map entry_of) (nothing_within m x rows (ahead-strict u db r.cursor x rows h q) n)
  | inr n ↦ absurd (
      ground (
        arith,
        taken x (map entry_of (take k rows)) r m c n,
        absorb-pending (map entry_of (take k rows)) (pushed x r),
      ))
]
