-- ===== src/Messaging/Commits/Markers.antt =====
-- Read markers go forward while the seat stays, requests that move one commute, and a send keeps what is unread.
use mathlib.Core.Path.{subst, sym}
use teri_chat.Prelude.{
  ℕ, ◌≡◌, ◌∙◌, refl, ◌+◌, ◌-◌, ◌≤◌, true, ◌&&◌, Option, some, List, [], ◌∷◌, arith, ◌==◌, ok,
  if◌then◌else◌, Option-cases, Result-cases, inl, inr,
}
use teri_chat.Prelude.Int.{ℤ, pos_part}
use teri_chat.Table.{find, update}
use teri_chat.Table.Laws.{find-update, find_sound}
use teri_chat.Messaging.Schema.{MsgDb, MsgEnv, Message, ParticipantRow, seat_in, conversation_row}
use teri_chat.Messaging.Sending.{send_message, send_tx, send_new, mark_read, caught_up}
use teri_chat.Messaging.Sending.Effects.{send_new-ok, read_at}
use teri_chat.Messaging.Commits.Outside.{
  Outside, Stays, seated, unseated, opened, closed, spares, begun, call, outside, find-seated,
  find-unseated, find-closed,
}
use teri_chat.Messaging.Commits.Changes.{
  Change, same, founded, appended, marked, delivered, marker_set, Step-Change,
}
use teri_chat.Messaging.Commits.Numbering.{Numbered, next_of, next_of-row, next_of-hit}

-- The user participates, with a marker of at least `n`.
pub record ReadTo (c u n : ℕ) (s : MsgDb) : Type 0 where
  pub seat : ParticipantRow
  pub seated : find (seat_in c u) s.participants ≡ some seat
  pub reached : n ≤ seat.last_read_seq

Change-ReadTo : {c u n : ℕ} {s s' : MsgDb} → Change s s' → ReadTo c u n s → ReadTo c u n s'
Change-ReadTo {c} {u} {n} (same e) h = subst (ReadTo c u n) (sym e) h
Change-ReadTo {c} {u} (founded i f) h = record {
  seat = h.seat;
  seated = f.keeps c u h.seat h.seated;
  reached = h.reached;
}
Change-ReadTo {c} {u} {n} {s} (appended event_id new row f o q e) h =
    subst (ReadTo c u n) (sym e) (record {
      seat =
          if caught_up new.conversation_id new.sender_id new.seq h.seat
          then read_at new.seq h.seat
          else h.seat;
      seated = ground (
        arith,
        h.seated,
        find-update (seat_in c u) (caught_up new.conversation_id new.sender_id new.seq)
            (read_at new.seq) s.participants (λ x. refl),
      );
      reached = ground (arith, h.reached);
    })
Change-ReadTo {c} {u} {n} {s} (marked now v d seq row f e) h =
    subst (ReadTo c u n) (sym e) (record {
      seat = if seat_in d v h.seat then marker_set now seq row.next_seq h.seat else h.seat;
      seated = ground (
        arith,
        h.seated,
        find-update (seat_in c u) (seat_in d v) (marker_set now seq row.next_seq) s.participants
            (λ x. refl),
      );
      reached = ground (arith, h.reached);
    })
Change-ReadTo {c} {u} {n} (delivered rows t e) h =
    subst (ReadTo c u n) (sym e) (record { seat = h.seat; seated = h.seated; reached = h.reached })

Outside-ReadTo :
    {c u n : ℕ} {s s' : MsgDb} (o : Outside s s')
    → spares c u o ≡ true
    → ReadTo c u n s
    → ReadTo c u n s'
Outside-ReadTo {c} {u} {n} {s} (seated row new e) o h = subst (ReadTo c u n) (sym e) (record {
  seat = h.seat;
  seated = find-seated c u row h.seat s.participants new h.seated;
  reached = h.reached;
})
Outside-ReadTo {c} {u} {n} {s} (unseated d v e) o h = subst (ReadTo c u n) (sym e) (record {
  seat = h.seat;
  seated = find-unseated c u d v s.participants o ∙ h.seated;
  reached = h.reached;
})
Outside-ReadTo {c} {u} {n} (opened row new e) o h =
    subst (ReadTo c u n) (sym e) (record { seat = h.seat; seated = h.seated; reached = h.reached })
Outside-ReadTo {c} {u} {n} {s} (closed d outbox e) o h = subst (ReadTo c u n) (sym e) (record {
  seat = h.seat;
  seated = find-closed c u d s.participants o ∙ h.seated;
  reached = h.reached;
})

Stays-ReadTo : {c u n : ℕ} {s s' : MsgDb} → Stays c u s s' → ReadTo c u n s → ReadTo c u n s'
Stays-ReadTo begun h = h
Stays-ReadTo (call r e) h = Change-ReadTo (Step-Change e) (Stays-ReadTo r h)
Stays-ReadTo (outside r o e) h = Outside-ReadTo o e (Stays-ReadTo r h)

mark_read-ReadTo :
    (now u c : ℕ) (seq : ℤ) (n : ℕ) (s s' : MsgDb)
    → mark_read now u c seq s ≡ (ok n, s')
    → ReadTo c u n s'
unfolding mark_read
mark_read-ReadTo now u c seq n s s' h =
    elim (Option-cases (find (conversation_row c) s.conversations)) [
      | inl e ↦ absurd (ground arith)
      | inr (row, e) ↦ elim (Option-cases (find (seat_in c u) s.participants)) [
        | inl f ↦ absurd (ground arith)
        | inr (p, f) ↦ record {
          seat = marker_set now (pos_part seq) row.next_seq p;
          seated = ground (
            arith,
            find_sound (seat_in c u) {x = p} s.participants f,
            find-update (seat_in c u) (seat_in c u) (marker_set now (pos_part seq) row.next_seq)
                s.participants (λ x. refl),
          );
          reached = ground arith;
        }
      ]
    ]

-- The marker that a request answers with is not lost while the user keeps the seat: whatever calls
-- of messaging.rs, rounds of the worker and writes of workspaces.rs follow, unless one of the writes
-- takes the seat or deletes the conversation, the user has a marker at least as far.
pub mark_read-lasting :
    (now u c : ℕ) (seq : ℤ) (n : ℕ) (s s' t : MsgDb)
    → mark_read now u c seq s ≡ (ok n, s')
    → Stays c u s' t
    → (p : ParticipantRow) × (find (seat_in c u) t.participants ≡ some p) × (n ≤ p.last_read_seq)
mark_read-lasting now u c seq n s s' t h r =
    let k = Stays-ReadTo r (mark_read-ReadTo now u c seq n s s' h) in (k.seat, k.seated, k.reached)

-- How many numbers of the conversation a participant has not read.
abbrev unread : ℕ → ParticipantRow → MsgDb → ℕ
unread c p s = next_of c s.conversations - 1 - p.last_read_seq

update_twice :
    (c u now a b next : ℕ) (rows : List ParticipantRow)
    → update
        (seat_in c u)
        (marker_set now b next)
        (update (seat_in c u) (marker_set now a next) rows)
      ≡ update
          (seat_in c u)
          (marker_set now a next)
          (update (seat_in c u) (marker_set now b next) rows)
unfolding update
update_twice c u now a b next [] = refl
update_twice c u now a b next (p ∷ rows) = ground (arith, update_twice c u now a b next rows)

-- Two requests of one moment that move the same marker can come in either order: the state they
-- leave is the same.
pub mark_read-mark_read :
    (now u c : ℕ) (a b : ℤ) (s : MsgDb)
    → (mark_read now u c b (mark_read now u c a s).1).1
      ≡ (mark_read now u c a (mark_read now u c b s).1).1
unfolding mark_read
mark_read-mark_read now u c a b s =
    elim (Option-cases (find (conversation_row c) s.conversations)) [
      | inl e ↦ ground arith
      | inr (row, e) ↦ elim (Option-cases (find (seat_in c u) s.participants)) [
        | inl f ↦ ground arith
        | inr (p, f) ↦ ground (
          arith,
          find-update (seat_in c u) (seat_in c u) (marker_set now (pos_part a) row.next_seq)
              s.participants (λ x. refl),
          find-update (seat_in c u) (seat_in c u) (marker_set now (pos_part b) row.next_seq)
              s.participants (λ x. refl),
          update_twice c u now (pos_part a) (pos_part b) row.next_seq s.participants,
        )
      ]
    ]

sent_as_new :
    (env : MsgEnv) (u c k : ℕ) (ciphertext : List ℕ) (iv : Option (List ℕ)) (m : Message)
    (s s' : MsgDb)
    → send_message env u c k ciphertext iv s ≡ (ok (m, true), s')
    → send_new env u c k ciphertext iv s ≡ ok ((m, true), s')
unfolding send_message send_tx
sent_as_new env u c k ciphertext iv m s s' h =
    elim (Result-cases (send_new env u c k ciphertext iv s)) [
      | inl (x, e) ↦ ground arith
      | inr (x, e) ↦ ground arith
    ]

next_after :
    (env : MsgEnv) (u c k : ℕ) (ciphertext : List ℕ) (iv : Option (List ℕ)) (m : Message)
    (s s' : MsgDb)
    → send_new env u c k ciphertext iv s ≡ ok ((m, true), s')
    → next_of c s'.conversations ≡ next_of c s.conversations + 1
next_after env u c k ciphertext iv m s s' h =
    let r = send_new-ok env u c k ciphertext iv s s' m true h in
    ground (
      arith,
      r,
      next_of-row c r.0.0 s.conversations r.0.1,
      next_of-hit c r.0.0 s.conversations r.0.1,
    )

-- In a well-formed state a new message is unread for every participant but its sender, and for
-- its sender too if others' messages were: only a sender who had read everything has then still
-- read everything.
send_message-unread :
    (env : MsgEnv) (u c k : ℕ) (ciphertext : List ℕ) (iv : Option (List ℕ)) (m : Message)
    (s s' : MsgDb)
    → Numbered s
    → send_message env u c k ciphertext iv s ≡ (ok (m, true), s')
    → (v : ℕ) (p : ParticipantRow) → find (seat_in c v) s.participants ≡ some p
    → (p' : ParticipantRow) × (find (seat_in c v) s'.participants ≡ some p')
      × (unread c p' s' ≡ (if v == u && unread c p s == 0 then 0 else unread c p s + 1))
send_message-unread env u c k ciphertext iv m s s' w h v p f =
    let e = sent_as_new env u c k ciphertext iv m s s' h in
    let r = send_new-ok env u c k ciphertext iv s s' m true e in
    let step : find (seat_in c v) s'.participants
        ≡ some (if caught_up m.conversation_id m.sender_id m.seq p then read_at m.seq p else p) =
      ground (
        arith,
        r,
        f,
        find-update (seat_in c v) (caught_up m.conversation_id m.sender_id m.seq) (read_at m.seq)
            s.participants (λ x. refl),
      ) in
    (
      if caught_up m.conversation_id m.sender_id m.seq p then read_at m.seq p else p,
      step,
      ground (
        arith,
        r,
        w.behind c v p f,
        find_sound (seat_in c v) {x = p} s.participants f,
        next_after env u c k ciphertext iv m s s' e,
        next_of-row c r.0.0 s.conversations r.0.1,
      ),
    )
