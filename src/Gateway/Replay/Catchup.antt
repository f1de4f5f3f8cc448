-- ===== src/Gateway/Replay/Catchup.antt =====
-- A replay on a database that stands still delivers every event up to its ceiling, once and in
-- order, and ends.
use mathlib.Core.Path.{sym, subst}
use teri_chat.Prelude.{
  ℕ, ◌≡◌, ◌∙◌, ap, refl, zero, suc, ◌≤◌, ◌<◌, Bool, true, Option, none, some, List, [], ◌∷◌, ◌++◌,
  map, arith, length, Bool-cases, inl, inr,
}
use teri_chat.Table.{select}
use teri_chat.Table.Scans.{after_key}
use teri_chat.Messaging.Schema.{MsgDb, StoredEvent, OutboxEntry}
use teri_chat.Messaging.Outbox.{events_after, entry_of, event_id_of}
use teri_chat.Gateway.Replay.{
  Replay, absorb, page_limit, fetch, next, next_of_pending, pop, finish_if_empty, at_least,
}
use teri_chat.Gateway.Replay.Pages.{
  feed, upcoming, todo, UniqueIds, ahead, page-ahead, absorb-todo, absorb-ceiling, absorb-none,
  within, List-cases, feed,
}

abbrev pub collect :
    Option OutboxEntry × Replay → (Replay → List OutboxEntry × Replay) → List OutboxEntry × Replay
collect (none, r) rest = ([], r)
collect (some e, r) rest = (e ∷ (rest r).0, (rest r).1)

-- Calls of `next` until it yields nothing, on a database that does not change.
unfoldable pub replay_all : ℕ → ℕ → MsgDb → Replay → List OutboxEntry × Replay
replay_all zero u db r = ([], r)
replay_all (suc fuel) u db r = collect (next u db r) (λ r'. replay_all fuel u db r')

-- The replay after the reading of a page.
abbrev pub filled : ℕ → MsgDb → Replay → Replay
filled u db r = absorb (events_after u r.cursor page_limit db) r

-- What a call of `next` answers with, and leaves.
abbrev pub Advances : ℕ → MsgDb → ℕ → Bool → List OutboxEntry → Option OutboxEntry × Replay → Type 0
Advances u db m d [] answer = (answer.0 ≡ none) × (answer.1.done ≡ true)
Advances u db m d (e ∷ es) answer =
    (answer.0 ≡ some e)
    × (answer.1.ceiling ≡ some m)
    × (todo u db m answer.1 ≡ es)
    × (answer.1.done ≡ d)

pub select-none :
    (m n : ℕ) (xs : List StoredEvent)
    → m ≤ n
    → select (within m) (select (after_key event_id_of (some n)) xs) ≡ []
unfolding select
select-none m n [] h = refl
select-none m n (x ∷ xs) h = ground (arith, select-none m n xs h)

-- A cursor at the ceiling has nothing ahead of it within the ceiling.
pub upcoming_done :
    (u : ℕ) (db : MsgDb) (m : ℕ) (c : Option ℕ)
    → at_least c (some m) ≡ true
    → upcoming u db m c ≡ []
unfolding upcoming ahead
upcoming_done u db m none h = absurd (ground arith)
upcoming_done u db m (some n) h = ap (map entry_of) (select-none m n (feed u db) (ground arith))

pub filled-todo :
    (u : ℕ) (db : MsgDb) (m : ℕ) (r : Replay)
    → UniqueIds db
    → r.ceiling ≡ some m
    → todo u db m (filled u db r) ≡ todo u db m r
filled-todo u db m r h c =
    ap (λ page. todo u db m (absorb page r)) (page-ahead u r.cursor db)
    ∙ absorb-todo 100 u db m r (ahead u db r.cursor) h c refl

pub filled-none :
    (u : ℕ) (db : MsgDb) (m : ℕ) (r : Replay)
    → UniqueIds db
    → r.ceiling ≡ some m
    → r.pending ≡ []
    → (filled u db r).pending ≡ []
    → upcoming u db m r.cursor ≡ []
filled-none u db m r h c p e =
    absorb-none 99 u db m r (ahead u db r.cursor) h c p refl
      (ap (λ page. (absorb page r).pending) (sym (page-ahead u r.cursor db)) ∙ e)

-- What is left after a page has been read.
pub pop-Advances :
    (u : ℕ) (db : MsgDb) (m : ℕ) (d : Bool) (r : Replay) (pending : List OutboxEntry)
    → r.ceiling ≡ some m
    → r.done ≡ d
    → r.pending ≡ pending
    → (pending ≡ [] → upcoming u db m r.cursor ≡ [])
    → Advances u db m d (todo u db m r) (pop (finish_if_empty r pending) pending)
pop-Advances u db m d r [] c k p h =
    let none_left : todo u db m r ≡ [] = ground (arith, h refl) in
    subst (λ es. Advances u db m d es (pop (finish_if_empty r []) [])) (sym none_left) (refl, refl)
pop-Advances u db m d r (e ∷ es) c k p h =
    subst
      (λ ps.
        Advances u db m d (ps ++ upcoming u db m r.cursor)
          (pop (finish_if_empty r (e ∷ es)) (e ∷ es)))
      (sym p) (refl, c, refl, k)

pub fetch-Advances :
    (u : ℕ) (db : MsgDb) (m : ℕ) (r : Replay)
    → UniqueIds db
    → r.ceiling ≡ some m
    → r.pending ≡ []
    → Advances u db m r.done (todo u db m r) (fetch u db r)
unfolding fetch
fetch-Advances u db m r h c p = elim (Bool-cases (at_least r.cursor r.ceiling)) [
  | inl n ↦
      let none_left : todo u db m r ≡ [] = ground (arith, upcoming_done u db m r.cursor) in
      subst (λ es. Advances u db m r.done es (fetch u db r)) (sym none_left)
        (ground arith, ground arith)
  | inr n ↦
      let page : fetch u db r
          ≡ pop (finish_if_empty (filled u db r) (filled u db r).pending) (filled u db r).pending =
        ground arith in
      subst (Advances u db m r.done (todo u db m r)) (sym page) (
        subst
          (λ es.
            Advances u db m r.done es (
              pop (finish_if_empty (filled u db r) (filled u db r).pending)
                (filled u db r).pending))
          (filled-todo u db m r h c)
          (pop-Advances u db m r.done (filled u db r) (filled u db r).pending
            (ground (arith, absorb-ceiling (events_after u r.cursor page_limit db) r))
            (absorb-ceiling (events_after u r.cursor page_limit db) r).1 refl
            (λ e.
              ap (λ ps. ps ++ upcoming u db m (filled u db r).cursor) (sym e)
              ∙ (filled-todo u db m r h c
                  ∙ (ap (λ ps. ps ++ upcoming u db m r.cursor) p ∙ filled-none u db m r h c p e)))))
]

pub next-Advances :
    (u : ℕ) (db : MsgDb) (m : ℕ) (r : Replay)
    → UniqueIds db
    → r.ceiling ≡ some m
    → Advances u db m r.done (todo u db m r) (next u db r)
unfolding next
next-Advances u db m r h c = elim (List-cases r.pending) [
  | inl p ↦
      subst (λ ps. Advances u db m r.done (todo u db m r) (next_of_pending u db r ps)) (sym p)
        (fetch-Advances u db m r h c p)
  | inr (e, es, p) ↦
      subst
        (λ ps. Advances u db m r.done (ps ++ upcoming u db m r.cursor) (next_of_pending u db r ps))
        (sym p) (refl, c, refl, refl)
]

pub collect-none :
    (answer : Option OutboxEntry × Replay) (rest : Replay → List OutboxEntry × Replay)
    → answer.0 ≡ none
    → collect answer rest ≡ ([], answer.1)
collect-none (none, r) rest e = refl
collect-none (some x, r) rest e = absurd (ground arith)

pub collect-some :
    (answer : Option OutboxEntry × Replay) (rest : Replay → List OutboxEntry × Replay)
    (x : OutboxEntry)
    → answer.0 ≡ some x
    → collect answer rest ≡ (x ∷ (rest answer.1).0, (rest answer.1).1)
collect-some (none, r) rest x e = absurd (ground arith)
collect-some (some y, r) rest x e = ground arith

-- The number of calls that a replay makes, at most.
pub replay_all-todo :
    (fuel u : ℕ) (db : MsgDb) (m : ℕ) (es : List OutboxEntry) (r : Replay)
    → UniqueIds db
    → r.ceiling ≡ some m
    → todo u db m r ≡ es
    → length es < fuel
    → ((replay_all fuel u db r).0 ≡ es) × ((replay_all fuel u db r).1.done ≡ true)
unfolding replay_all
replay_all-todo zero u db m es r h c q l = absurd (omega arith)
replay_all-todo (suc fuel) u db m [] r h c q l =
    let a = subst (λ ps. Advances u db m r.done ps (next u db r)) q (next-Advances u db m r h c) in
    ground (arith, a, collect-none (next u db r) (λ r'. replay_all fuel u db r') a.0)
replay_all-todo (suc fuel) u db m (e ∷ es) r h c q l =
    let a = subst (λ ps. Advances u db m r.done ps (next u db r)) q (next-Advances u db m r h c) in
    let rest = replay_all-todo fuel u db m es (next u db r).1 h a.1 a.2 (omega arith) in
    ground (arith, rest, collect-some (next u db r) (λ r'. replay_all fuel u db r') e a.0)
