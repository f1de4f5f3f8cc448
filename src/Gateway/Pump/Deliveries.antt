-- ===== src/Gateway/Pump/Deliveries.antt =====
-- What one delivery of a replay adds to the log of a connection, while the database stands still.
use mathlib.Core.Path.{subst}
use teri_chat.Prelude.{
  ℕ, ◌≡◌, ◌∙◌, ap, refl, zero, suc, Bool, true, false, ◌&&◌, ◌||◌, Option, none, some, List, [],
  ◌∷◌, map, arith, ◌==◌, take, if◌then◌else◌, Bool-cases, inl, inr,
}
use teri_chat.Messaging.Schema.{OutboxEntry}
use teri_chat.Messaging.Conversations.{contains}
use teri_chat.Gateway.Schema.{World, event}
use teri_chat.Gateway.Visibility.{session_live, event_visible}
use teri_chat.Gateway.Replay.{Replay, next}
use teri_chat.Gateway.Pump.{
  Connection, Io, HubItem, Turn, delivery, turn, deliver, from_hub, after_next, handle_event, emit,
  push_seen, seen_entries,
}
use teri_chat.Gateway.Pump.Dedup.{Cached, event_ids}

-- The database is in one state, and it and the socket answer in time.
abbrev pub calm : World → Io
calm w = record { world = w; live = true; reads = true; fails = false; written = true }

abbrev pub readable : World → ℕ → ℕ → OutboxEntry → Bool
readable w u i entry = entry.id == i && event_visible u entry w

contains-take : (n i : ℕ) (ids : List ℕ) → contains i (take n ids) ≡ true → contains i ids ≡ true
unfolding contains
contains-take zero i ids h = absurd (ground arith)
contains-take (suc n) i [] h = h
contains-take (suc n) i (k ∷ ids) h = ground (arith, contains-take n i ids)

cached :
    (c : Connection) (i : ℕ)
    → Cached c
    → contains i c.seen ≡ true
    → contains i (event_ids c.frames) ≡ true
cached c i k s =
    contains-take seen_entries i (event_ids c.frames)
      (subst (λ ids. contains i ids ≡ true) k.cache s)

logged :
    (i k : ℕ) (visible : Bool) (ids : List ℕ)
    → contains k ids ≡ true
    → (k == i && visible || contains i ids) ≡ true
    → contains i ids ≡ true
logged i k visible ids h e = ground arith

emitted :
    (i k : ℕ) (visible : Bool) (ids : List ℕ)
    → (k == i && visible || contains i ids) ≡ true
    → (k == i || contains i ids) ≡ true
emitted i k visible ids e = ground arith

unseen :
    (i k : ℕ) (visible : Bool) (ids : List ℕ)
    → visible ≡ false
    → (k == i && visible || contains i ids) ≡ true
    → contains i ids ≡ true
unseen i k visible ids v e = ground arith

pub split_first :
    (first rest log log' : Bool)
    → ((first || log) ≡ true → log' ≡ true)
    → ((first || rest) || log) ≡ true
    → (rest || log') ≡ true
split_first first rest log log' f h = ground arith

-- After an event is handled it is in the log, if it is readable, and the log keeps what it had.
pub handled :
    (w : World) (entry : OutboxEntry) (c : Connection)
    → session_live true c.session w ≡ true
    → Cached c
    → (c' : Connection) × (handle_event (calm w) entry c ≡ some c')
      × (c'.session ≡ c.session)
      × (c'.replay ≡ c.replay)
      × ((i : ℕ)
          → (readable w c.session.user_id i entry || contains i (event_ids c.frames)) ≡ true
          → contains i (event_ids c'.frames) ≡ true)
unfolding handle_event emit event_ids contains
handled w entry c l k = elim (Bool-cases (contains entry.id c.seen)) [
  | inl s ↦ (
    c,
    ground arith,
    refl,
    refl,
    λ i h.
        logged i entry.id (event_visible c.session.user_id entry w) (event_ids c.frames)
          (cached c entry.id k s) h,
  )
  | inr s ↦ elim (Bool-cases (event_visible c.session.user_id entry w)) [
    | inl v ↦ (
      record c { frames = event entry ∷ c.frames; seen = push_seen entry.id c.seen },
      ground arith,
      refl,
      refl,
      λ i h. emitted i entry.id (event_visible c.session.user_id entry w) (event_ids c.frames) h,
    )
    | inr v ↦ (
      c,
      ground arith,
      refl,
      refl,
      λ i h. unseen i entry.id (event_visible c.session.user_id entry w) (event_ids c.frames) v h,
    )
  ]
]

-- Deliveries while the database stands still.
abbrev pub deliveries : World → List HubItem → List Turn
deliveries w items = map (λ item. delivery item (calm w)) items

deliver_unfinished :
    (w : World) (item : HubItem) (c : Connection)
    → c.replay.done ≡ false
    → deliver (calm w) item c ≡ after_next (calm w) c (next c.session.user_id w.messages c.replay)
unfolding deliver
deliver_unfinished w item c d =
    ap
      (λ b.
        if b
        then from_hub (calm w) item c
        else after_next (calm w) c (next c.session.user_id w.messages c.replay))
      d

after_next-some :
    (w : World) (x : OutboxEntry) (c : Connection) (answer : Option OutboxEntry × Replay)
    → answer.0 ≡ some x
    → after_next (calm w) c answer ≡ handle_event (calm w) x (record c { replay = answer.1 })
after_next-some w x c (none, r) e = absurd (ground arith)
after_next-some w x c (some y, r) e =
    let same_entry : y ≡ x = ground arith in
    ap (λ z. handle_event (calm w) z (record c { replay = r })) same_entry

pub delivered :
    (w : World) (item : HubItem) (x : OutboxEntry) (c : Connection)
    → c.replay.done ≡ false
    → (next c.session.user_id w.messages c.replay).0 ≡ some x
    → turn (delivery item (calm w)) c
      ≡ handle_event
          (calm w)
          x
          (record c { replay = (next c.session.user_id w.messages c.replay).1 })
unfolding turn deliver
delivered w item x c d e =
    deliver_unfinished w item c d
    ∙ after_next-some w x c (next c.session.user_id w.messages c.replay) e
