-- ===== src/Stats/Worker/Progress.antt =====
-- What the fold over a batch settles, and what it keeps.
use mathlib.Core.Path.{subst, sym}
use teri_chat.Prelude.{
  ℕ, ◌+◌, ◌≡◌, refl, ◌∙◌, suc, true, false, ◌||◌, Option, none, some, List, [], ◌∷◌, ok, err,
  Result, arith, Result-cases, inl, inr, length,
}
use teri_chat.Prelude.Text.{Text, text_eq}
use teri_chat.Table.{exists, count}
use teri_chat.Table.Each.{All}
use teri_chat.Messaging.Conversations.{contains}
use teri_chat.Stats.Schema.{OutboxEvent, StatsDb, StatsError, receipt_with, event_with}
use teri_chat.Stats.Counting.{countable_topic}
use teri_chat.Stats.Worker.{Weather, handle_event, fold_each, pending}
use teri_chat.Stats.Exact.{Outcome, handle_event-Outcome}
use teri_chat.Stats.Worker.Settling.{
  Room, less-Room, Settles, handle_event-Settles, Outcome-outbox, Outcome-pending, Outcome-Room,
}

-- Whether a row is countable and stands in a table.
abbrev pub Drawn : List OutboxEvent → OutboxEvent → Type 0
Drawn outbox e = (text_eq e.topic countable_topic ≡ true) × (exists (event_with e.id) outbox ≡ true)

-- What rounds keep.
pub record Onward (n : ℕ) (db : StatsDb) (db' : StatsDb) : Type 0 where
  pub outbox : db'.outbox ≡ db.outbox
  pub settled : (e : OutboxEvent) → pending db e ≡ false → pending db' e ≡ false
  pub room : (k : ℕ) → Room (n + k) db → Room k db'

pub Onward-refl : (n : ℕ) (db : StatsDb) → Onward n db db
Onward-refl n db = record {
  outbox = refl;
  settled = λ e p. p;
  room = λ k r. less-Room k (n + k) db (omega arith) r;
}

pub Onward-then : (m n : ℕ) (a b c : StatsDb) → Onward m a b → Onward n b c → Onward (m + n) a c
Onward-then m n a b c x y = record {
  outbox = y.outbox ∙ x.outbox;
  settled = λ e p. y.settled e (x.settled e p);
  room = λ k r. y.room k (x.room (n + k) (less-Room (m + (n + k)) (m + n + k) a (omega arith) r));
}

Outcome-Onward : (i : ℕ) (db db' : StatsDb) → Outcome i db db' → Onward 1 db db'
Outcome-Onward i db db' o = record {
  outbox = Outcome-outbox (λ t. none) i db db' o;
  settled = λ e p. Outcome-pending i db db' e o p;
  room = λ k r. Outcome-Room i k db db' o (less-Room (suc k) (1 + k) db (omega arith) r);
}

Settles-cases :
    (i : ℕ) (answer : Result StatsError ℕ × StatsDb)
    → Settles (λ t. none) i answer
    → (k : ℕ) × (answer.0 ≡ ok k)
      × ((exists (receipt_with i) answer.1.processed || contains i answer.1.rejected) ≡ true)
Settles-cases i (ok k, db) s = (k, refl, s)
Settles-cases i (err e, db) s = elim s [ ]

module _ (parse : Text → Option ℕ) where
  pub fold_each-Onward :
      (w : Weather) (rows : List OutboxEvent) (n : ℕ) (seen : Option ℕ) (db : StatsDb)
      → Onward (length rows) db (fold_each parse w rows n seen db).db
  unfolding fold_each
  fold_each-Onward w [] n seen db = Onward-refl 0 db
  fold_each-Onward w (e ∷ rows) n seen db =
      let after = (handle_event parse w e db).1 in
      let one = Outcome-Onward e.id db after (handle_event-Outcome parse w e db) in
      elim (Result-cases (handle_event parse w e db).0) [
        | inr (y, f) ↦ subst (Onward (suc (length rows)) db) {x = after} (ground arith) (
            subst (λ m. Onward m db after) (omega arith)
              (Onward-then 1 (length rows) db after after one (Onward-refl (length rows) after)))
        | inl (k, f) ↦
            let last = (fold_each parse w rows (n + k) (some e.id) after).db in
            subst (Onward (suc (length rows)) db) {x = last} (ground arith) (
              subst (λ m. Onward m db last) (omega arith)
                (Onward-then 1 (length rows) db after last one
                  (fold_each-Onward w rows (n + k) (some e.id) after)))
      ]

  -- Of a batch that is handled in calm weather nothing is pending.
  pub fold_each-Calm :
      (w : Weather) (rows : List OutboxEvent) (n : ℕ) (seen : Option ℕ) (db : StatsDb)
      → ((i : ℕ) → w.fails i ≡ none)
      → All (Drawn db.outbox) rows
      → Room (length rows) db
      → count (pending (fold_each parse w rows n seen db).db) rows ≡ 0
  unfolding fold_each count
  fold_each-Calm w [] n seen db c d r = refl
  fold_each-Calm w (e ∷ rows) n seen db c d r =
      let after = (handle_event parse w e db).1 in
      let one = Outcome-Onward e.id db after (handle_event-Outcome parse w e db) in
      let s =
        Settles-cases e.id (handle_event parse w e db)
          (handle_event-Settles parse w e (length rows) db (c e.id) d.0.0 d.0.1 r) in
      let last = (fold_each parse w rows (n + s.0) (some e.id) after).db in
      let rest =
        fold_each-Calm w rows (n + s.0) (some e.id) after c
          (subst (λ outbox. All (Drawn outbox) rows) (sym one.outbox) d.1)
          (one.room (length rows)
            (less-Room (1 + length rows) (suc (length rows)) db (omega arith) r)) in
      let mine =
        (fold_each-Onward w rows (n + s.0) (some e.id) after).settled e (ground (arith, s.2)) in
      subst (λ b. count (pending b) (e ∷ rows) ≡ 0) {x = last}
        {y = (fold_each parse w (e ∷ rows) n seen db).db} (ground (arith, s.1))
        (ground (arith, rest, mine))
