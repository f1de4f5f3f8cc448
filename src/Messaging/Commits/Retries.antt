-- ===== src/Messaging/Commits/Retries.antt =====
-- A message that was stored answers every retry, whatever happens in between.
use mathlib.Core.Path.{subst, sym}
use teri_chat.Prelude.{
  ℕ, ◌≡◌, ◌∙◌, refl, Bool, true, false, ◌&&◌, ◌||◌, not, Option, none, some, List, ◌∷◌, arith, ltb,
  ◌==◌, ok, length, if◌then◌else◌, Bool-cases, Option-cases, Result-cases, inl, inr,
}
use teri_chat.Table.{find, exists}
use teri_chat.Table.Laws.{exists-eq-is_some, find-update, find-delete_other}
use teri_chat.Messaging.Schema.{MsgDb, MsgEnv, Message, ParticipantRow, seat_in, with_client_id}
use teri_chat.Messaging.Sending.{send_message, send_tx, send_new, max_ciphertext_bytes, caught_up}
use teri_chat.Messaging.Sending.Effects.{send_new-ok, read_at}
use teri_chat.Messaging.Commits.Outside.{
  Outside, Stays, seated, unseated, opened, closed, spares, sent_in, begun, call, outside,
  find-seated, find-unseated, find-closed,
}
use teri_chat.Messaging.Commits.Changes.{
  Change, same, founded, appended, marked, delivered, marker_set, Step-Change,
}

-- A user who participates, and the message of a key.
pub record Holds (c u k : ℕ) (m : Message) (s : MsgDb) : Type 0 where
  pub seat : ParticipantRow
  pub seated : find (seat_in c u) s.participants ≡ some seat
  pub stored : find (with_client_id c k) s.messages ≡ some m

same_client :
    (c k : ℕ) (new : Message) (rows : List Message)
    → (new.conversation_id == c && new.client_msg_id == k) ≡ true
    → find (with_client_id new.conversation_id new.client_msg_id) rows
      ≡ find (with_client_id c k) rows
same_client c k new rows e = ground arith

find-appended :
    (c k : ℕ) (m new : Message) (rows : List Message)
    → find (with_client_id c k) rows ≡ some m
    → find (with_client_id new.conversation_id new.client_msg_id) rows ≡ none
    → find (with_client_id c k) (new ∷ rows) ≡ some m
unfolding find
find-appended c k m new rows f g =
    elim (Bool-cases (new.conversation_id == c && new.client_msg_id == k)) [
      | inl e ↦ ground (arith, same_client c k new rows e)
      | inr e ↦ ground arith
    ]

Change-Holds :
    {c u k : ℕ} {m : Message} {s s' : MsgDb} → Change s s' → Holds c u k m s → Holds c u k m s'
Change-Holds (same e) h = subst (Holds _ _ _ _) (sym e) h
Change-Holds {c} {u} {k} (founded i f) h = record {
  seat = h.seat;
  seated = f.keeps c u h.seat h.seated;
  stored = ground (arith, f.same_messages, h.stored);
}
Change-Holds {c} {u} {k} {m} {s} (appended event_id new row f n q e) h =
    subst (Holds c u k m) (sym e) (record {
      seat =
          if caught_up new.conversation_id new.sender_id new.seq h.seat
          then read_at new.seq h.seat
          else h.seat;
      seated = ground (
        arith,
        h.seated,
        find-update (seat_in c u) (caught_up new.conversation_id new.sender_id new.seq)
            (read_at new.seq) s.participants (λ x. refl),
      );
      stored = find-appended c k m new s.messages h.stored n;
    })
Change-Holds {c} {u} {k} {m} {s} (marked now v d seq row f e) h =
    subst (Holds c u k m) (sym e) (record {
      seat = if seat_in d v h.seat then marker_set now seq row.next_seq h.seat else h.seat;
      seated = ground (
        arith,
        h.seated,
        find-update (seat_in c u) (seat_in d v) (marker_set now seq row.next_seq) s.participants
            (λ x. refl),
      );
      stored = h.stored;
    })
Change-Holds {c} {u} {k} {m} (delivered rows t e) h =
    subst (Holds c u k m) (sym e) (record { seat = h.seat; seated = h.seated; stored = h.stored })

Outside-Holds :
    {c u k : ℕ} {m : Message} {s s' : MsgDb} (o : Outside s s')
    → spares c u o ≡ true
    → Holds c u k m s
    → Holds c u k m s'
Outside-Holds {c} {u} {k} {m} {s} (seated row n e) o h = subst (Holds c u k m) (sym e) (record {
  seat = h.seat;
  seated = find-seated c u row h.seat s.participants n h.seated;
  stored = h.stored;
})
Outside-Holds {c} {u} {k} {m} {s} (unseated d v e) o h = subst (Holds c u k m) (sym e) (record {
  seat = h.seat;
  seated = find-unseated c u d v s.participants o ∙ h.seated;
  stored = h.stored;
})
Outside-Holds {c} {u} {k} {m} (opened row n e) o h =
    subst (Holds c u k m) (sym e) (record { seat = h.seat; seated = h.seated; stored = h.stored })
Outside-Holds {c} {u} {k} {m} {s} (closed d outbox e) o h = subst (Holds c u k m) (sym e) (record {
  seat = h.seat;
  seated = find-closed c u d s.participants o ∙ h.seated;
  stored =
      find-delete_other (with_client_id c k) (sent_in d) s.messages (λ x e. ground arith)
      ∙ h.stored;
})

Stays-Holds :
    {c u k : ℕ} {m : Message} {s s' : MsgDb} → Stays c u s s' → Holds c u k m s → Holds c u k m s'
Stays-Holds begun h = h
Stays-Holds (call r e) h = Change-Holds (Step-Change e) (Stays-Holds r h)
Stays-Holds (outside r o e) h = Outside-Holds o e (Stays-Holds r h)

abbrev pub sendable : List ℕ → Bool
sendable ciphertext = not (length ciphertext == 0 || ltb max_ciphertext_bytes (length ciphertext))

found_seat :
    (c u : ℕ) (rows : List ParticipantRow)
    → exists (seat_in c u) rows ≡ true
    → (p : ParticipantRow) × (find (seat_in c u) rows ≡ some p)
found_seat c u rows h = elim (Option-cases (find (seat_in c u) rows)) [
  | inl e ↦ absurd (ground (arith, exists-eq-is_some (seat_in c u) rows))
  | inr x ↦ x
]

new-Holds :
    (env : MsgEnv) (u c k : ℕ) (ciphertext : List ℕ) (iv : Option (List ℕ)) (m : Message) (b : Bool)
    (s s' : MsgDb)
    → exists (seat_in c u) s.participants ≡ true
    → send_new env u c k ciphertext iv s ≡ ok ((m, b), s')
    → Holds c u k m s'
unfolding find
new-Holds env u c k ciphertext iv m b s s' p h =
    let f = found_seat c u s.participants p in
    let r = send_new-ok env u c k ciphertext iv s s' m b h in
    record {
      seat = if caught_up m.conversation_id m.sender_id m.seq f.0 then read_at m.seq f.0 else f.0;
      seated = ground (
        arith,
        r,
        f.1,
        find-update (seat_in c u) (caught_up m.conversation_id m.sender_id m.seq) (read_at m.seq)
            s.participants (λ x. refl),
      );
      stored = ground (arith, r);
    }

-- What a send that succeeds leaves behind.
send-Holds :
    (env : MsgEnv) (u c k : ℕ) (ciphertext : List ℕ) (iv : Option (List ℕ)) (m : Message) (b : Bool)
    (s s' : MsgDb)
    → send_message env u c k ciphertext iv s ≡ (ok (m, b), s')
    → Holds c u k m s'
unfolding send_message send_tx
send-Holds env u c k ciphertext iv m b s s' h = elim (Bool-cases (sendable ciphertext)) [
  | inr l ↦ absurd (ground arith)
  | inl l ↦ elim (Bool-cases (exists (seat_in c u) s.participants)) [
    | inr p ↦ absurd (ground arith)
    | inl p ↦ elim (Option-cases (find (with_client_id c k) s.messages)) [
      | inr (old, f) ↦
          let g = found_seat c u s.participants p in
          record { seat = g.0; seated = ground (arith, g.1); stored = ground arith }
      | inl f ↦ elim (Result-cases (send_new env u c k ciphertext iv s)) [
        | inr (e, q) ↦ absurd (ground arith)
        | inl ((answer, s''), q) ↦ new-Holds env u c k ciphertext iv m b s s' p (ground arith)
      ]
    ]
  ]
]

-- What a retry answers.
Holds-send :
    (env : MsgEnv) (u c k : ℕ) (ciphertext : List ℕ) (iv : Option (List ℕ)) (m : Message)
    (s : MsgDb)
    → Holds c u k m s
    → sendable ciphertext ≡ true
    → send_message env u c k ciphertext iv s ≡ (ok (m, false), s)
unfolding send_message send_tx
Holds-send env u c k ciphertext iv m s h l =
    ground (arith, h.seated, h.stored, exists-eq-is_some (seat_in c u) s.participants)

-- Once a send has answered with a message, every later send of the same user with the same
-- conversation and client id, with any bytes that pass the checks of the size, answers with that
-- message as not new and changes nothing, whatever calls of messaging.rs, rounds of the worker and
-- writes of workspaces.rs come between, unless one of the writes takes the user's seat in the
-- conversation or deletes the conversation.
pub send_message-retry :
    (env later : MsgEnv) (u c k : ℕ) (ciphertext again : List ℕ) (iv iv' : Option (List ℕ))
    (m : Message) (b : Bool) (s s' t : MsgDb)
    → send_message env u c k ciphertext iv s ≡ (ok (m, b), s')
    → Stays c u s' t
    → sendable again ≡ true
    → send_message later u c k again iv' t ≡ (ok (m, false), t)
send_message-retry env later u c k ciphertext again iv iv' m b s s' t h r l =
    Holds-send later u c k again iv' m t
      (Stays-Holds r (send-Holds env u c k ciphertext iv m b s s' h)) l
