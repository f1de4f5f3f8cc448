-- ===== src/Messaging/Commits/Numbered.antt =====
-- Every step keeps the numbering.
use mathlib.Core.Path.{sym, subst}
use teri_chat.Prelude.{
  ℕ, ◌≡◌, ◌∙◌, ◌+◌, ◌<◌, ◌≤◌, inl, inr, refl, true, none, some, arith, ◌==◌, Bool-cases,
  Option-cases, if◌then◌else◌, ◌&&◌,
}
use teri_chat.Table.{find, update, count}
use teri_chat.Table.Laws.{find-update, find_sound}
use teri_chat.Messaging.Schema.{
  MsgDb, ConversationRow, ParticipantRow, Message, conversation_row, seat_in,
}
use teri_chat.Messaging.Sending.{caught_up}
use teri_chat.Messaging.Sending.Effects.{after_send, bump, read_at}
use teri_chat.Messaging.Commits.{Reach, start, step}
use teri_chat.Messaging.Commits.Changes.{
  Change, same, founded, appended, marked, delivered, marker_set, Step-Change,
}
use teri_chat.Messaging.Commits.Numbering.{
  next_of, once, Numbered, next_of-hit, next_of-row, next_of-miss, once_next,
}
use teri_chat.Messaging.Commits.Founding.{Founded-Numbered}

next_of-at :
    (m : Message) (row : ConversationRow) (s : MsgDb) (k : ℕ)
    → find (conversation_row m.conversation_id) s.conversations ≡ some row
    → (m.conversation_id == k) ≡ true
    → next_of k s.conversations ≡ row.next_seq
next_of-at m row s k f e = ground (arith, next_of-row m.conversation_id row s.conversations f)

next_of-bumped :
    (m : Message) (row : ConversationRow) (s : MsgDb) (k : ℕ)
    → find (conversation_row m.conversation_id) s.conversations ≡ some row
    → next_of k (update (conversation_row m.conversation_id) bump s.conversations)
      ≡ (if m.conversation_id == k then row.next_seq + 1 else next_of k s.conversations)
next_of-bumped m row s k f = elim (Bool-cases (m.conversation_id == k)) [
  | inl q ↦ ground (arith, next_of-hit m.conversation_id row s.conversations f)
  | inr q ↦ ground (arith, next_of-miss m.conversation_id k s.conversations q)
]

appended-next :
    (event_id : ℕ) (m : Message) (row : ConversationRow) (s : MsgDb) (k n : ℕ)
    → find (conversation_row m.conversation_id) s.conversations ≡ some row
    → m.seq ≡ row.next_seq
    → 1 ≤ row.next_seq
    → once n (next_of k (after_send event_id m s).conversations)
      ≡ (if m.conversation_id == k && m.seq == n then 1 else 0) + once n (next_of k s.conversations)
appended-next event_id m row s k n f e h = elim (Bool-cases (m.conversation_id == k)) [
  | inl q ↦ ground (
    arith,
    next_of-hit m.conversation_id row s.conversations f,
    next_of-row m.conversation_id row s.conversations f,
    once_next n row.next_seq h,
  )
  | inr q ↦ ground (arith, next_of-miss m.conversation_id k s.conversations q)
]

appended-started :
    (event_id : ℕ) (m : Message) (s : MsgDb)
    → Numbered s
    → (k : ℕ) (row : ConversationRow)
    → find (conversation_row k) (after_send event_id m s).conversations ≡ some row
    → 1 ≤ row.next_seq
appended-started event_id m s w k row e =
    elim (Option-cases (find (conversation_row k) s.conversations)) [
      | inl none_before ↦ ground (
        arith,
        find-update (conversation_row k) (conversation_row m.conversation_id) bump s.conversations
            (λ x. refl),
      )
      | inr (before, f) ↦ ground (
        arith,
        w.started k before f,
        find-update (conversation_row k) (conversation_row m.conversation_id) bump s.conversations
            (λ x. refl),
      )
    ]

appended-behind :
    (event_id : ℕ) (m : Message) (row : ConversationRow) (s : MsgDb)
    → Numbered s
    → find (conversation_row m.conversation_id) s.conversations ≡ some row
    → m.seq ≡ row.next_seq
    → (k u : ℕ) (p : ParticipantRow)
    → find (seat_in k u) (after_send event_id m s).participants ≡ some p
    → p.last_read_seq < next_of k (after_send event_id m s).conversations
appended-behind event_id m row s w f e k u p q =
    elim (Option-cases (find (seat_in k u) s.participants)) [
      | inl none_before ↦ ground (
        arith,
        find-update (seat_in k u) (caught_up m.conversation_id m.sender_id m.seq) (read_at m.seq)
            s.participants (λ x. refl),
      )
      | inr (before, g) ↦ ground (
        arith,
        w.behind k u before g,
        find_sound (seat_in k u) {x = before} s.participants g,
        next_of-bumped m row s k f,
        next_of-at m row s k f,
        find-update (seat_in k u) (caught_up m.conversation_id m.sender_id m.seq) (read_at m.seq)
            s.participants (λ x. refl),
      )
    ]

appended-Numbered :
    (event_id : ℕ) (m : Message) (row : ConversationRow) (s : MsgDb)
    → find (conversation_row m.conversation_id) s.conversations ≡ some row
    → m.seq ≡ row.next_seq
    → Numbered s
    → Numbered (after_send event_id m s)
unfolding count
appended-Numbered event_id m row s f e w = record {
  started = appended-started event_id m s w;
  numbered = λ k n. ground (
    arith,
    appended-next event_id m row s k n f e (w.started m.conversation_id row f),
    w.numbered k n,
  );
  announced = λ k n. ground (
    arith,
    appended-next event_id m row s k n f e (w.started m.conversation_id row f),
    w.announced k n,
  );
  behind = appended-behind event_id m row s w f e;
}

marked-Numbered :
    (now u c seq : ℕ) (row : ConversationRow) (s : MsgDb)
    → find (conversation_row c) s.conversations ≡ some row
    → Numbered s
    → Numbered (record s {
      participants = update (seat_in c u) (marker_set now seq row.next_seq) s.participants;
    })
marked-Numbered now u c seq row s f w = record {
  started = w.started;
  numbered = w.numbered;
  announced = w.announced;
  behind = λ k v p q. elim (Option-cases (find (seat_in k v) s.participants)) [
    | inl none_before ↦ ground (arith, moved k v)
    | inr (before, g) ↦ ground (
      arith,
      moved k v,
      w.behind k v before g,
      w.started c row f,
      find_sound (seat_in k v) {x = before} s.participants g,
      next_of-row c row s.conversations f,
    )
  ];
}
  where
    moved :
        (k v : ℕ)
        → find (seat_in k v) (update (seat_in c u) (marker_set now seq row.next_seq) s.participants)
          ≡ elim (find (seat_in k v) s.participants) [
            | none ↦ none
            | some p ↦ some (if seat_in c u p then marker_set now seq row.next_seq p else p)
          ]
    moved k v =
        find-update (seat_in k v) (seat_in c u) (marker_set now seq row.next_seq) s.participants
          (λ x. refl)

Change-Numbered : {s s' : MsgDb} → Change s s' → Numbered s → Numbered s'
Change-Numbered (same e) w = subst Numbered (sym e) w
Change-Numbered (founded c f) w = Founded-Numbered c f w
Change-Numbered {s} (appended event_id m row f n q e) w =
    subst Numbered (sym e) (appended-Numbered event_id m row s f q w)
Change-Numbered {s} (marked now u c seq row f e) w =
    subst Numbered (sym e) (marked-Numbered now u c seq row s f w)
Change-Numbered (delivered rows same_events e) w = subst Numbered (sym e) (record {
  started = w.started;
  numbered = w.numbered;
  announced = λ c n. same_events c n ∙ w.announced c n;
  behind = w.behind;
})

pub Reach-Numbered : {s s' : MsgDb} → Reach s s' → Numbered s → Numbered s'
Reach-Numbered start w = w
Reach-Numbered (step r e) w = Change-Numbered (Step-Change e) (Reach-Numbered r w)
