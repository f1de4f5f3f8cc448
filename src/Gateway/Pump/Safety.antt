-- ===== src/Gateway/Pump/Safety.antt =====
-- What a turn may send: nothing without a live session, and no event or signal that is not visible.
use teri_chat.Prelude.{
  ℕ, ◌≡◌, ◌⊎◌, refl, Bool, true, false, not, ◌&&◌, Option, none, some, List, [], ◌∷◌, arith, ◌==◌,
  Bool-cases, Option-cases, inl, inr,
}
use teri_chat.Table.{exists}
use teri_chat.Messaging.Schema.{OutboxEntry}
use teri_chat.Messaging.Conversations.{contains}
use teri_chat.Typing.{TypingSignal}
use teri_chat.Gateway.Schema.{
  ServerFrame, ready, heartbeat_ack, fault, typing, event, Incoming, text_frame, closing, ignored,
  AuthSession, ClientFrame, heartbeat, identify,
}
use teri_chat.Gateway.Visibility.{session_live, event_visible, conversation_visible}
use teri_chat.Gateway.Replay.{Replay, start, next}
use teri_chat.Gateway.Pump.{
  Connection, Io, HubItem, received, lagged, closed, SignalItem, signalled, signals_lagged,
  signals_closed, Turn, delivery, relay, tick, incoming, session_ok, emit, handle_event, rescan,
  after_next, from_hub, deliver, relay_signal, on_signal, on_frame, on_incoming, turn, run,
  for_user, signal_visible, answer_frame, push_seen,
}

abbrev pub io_of : Turn → Io
io_of (delivery item io) = io
io_of (relay item io) = io
io_of (tick io) = io
io_of (incoming message io) = io

-- Whether a frame may be sent to the connection as the database stands.
unfoldable pub permitted : Io → Connection → ServerFrame → Bool
permitted io c (event entry) =
    session_ok io c
    && event_visible c.session.user_id entry io.world
    && not (contains entry.id c.seen)
permitted io c (typing conversation user_id last_seq) =
    session_ok io c
    && conversation_visible c.session.user_id conversation io.world
    && not (user_id == c.session.user_id)
permitted io c (heartbeat_ack seq) = session_ok io c
permitted io c (fault code) = session_ok io c
permitted io c (ready session_id user_id) = false

-- The cache after a frame.
abbrev pub remembered : ServerFrame → List ℕ → List ℕ
remembered (event entry) seen = push_seen entry.id seen
remembered frame seen = seen

-- A turn sends one frame, which is permitted, or none.
abbrev pub Sends : Io → Connection → Connection → Type 0
Sends io c c' =
    (c'.session ≡ c.session)
    × (((c'.frames ≡ c.frames) × (c'.seen ≡ c.seen))
        ⊎ ((frame : ServerFrame) × (c'.frames ≡ frame ∷ c.frames)
            × (permitted io c frame ≡ true)
            × (c'.seen ≡ remembered frame c.seen)))

handle_event-Sends :
    (io : Io) (entry : OutboxEntry) (c c' : Connection)
    → handle_event io entry c ≡ some c'
    → Sends io c c'
unfolding handle_event emit permitted
handle_event-Sends io entry c c' h =
    elim (Bool-cases (not io.fails && permitted io c (event entry))) [
      | inl p ↦ (ground arith, inr (event entry, ground arith, ground arith, ground arith))
      | inr p ↦ (ground arith, inl (ground arith, ground arith))
    ]

after_next-Sends :
    (io : Io) (c c' : Connection) (answer : Option OutboxEntry × Replay)
    → after_next io c answer ≡ some c'
    → Sends io c c'
unfolding permitted
after_next-Sends io c c' (none, r) h = (ground arith, inl (ground arith, ground arith))
after_next-Sends io c c' (some entry, r) h =
    handle_event-Sends io entry (record c { replay = r }) c' h

rescan-Sends :
    (io : Io) (c c' : Connection) (scan : Option Replay) → rescan c scan ≡ some c' → Sends io c c'
rescan-Sends io c c' none h = absurd (ground arith)
rescan-Sends io c c' (some r) h = (ground arith, inl (ground arith, ground arith))

from_hub-Sends :
    (io : Io) (item : HubItem) (c c' : Connection) → from_hub io item c ≡ some c' → Sends io c c'
from_hub-Sends io (received entry) c c' h = handle_event-Sends io entry c c' h
from_hub-Sends io lagged c c' h =
    rescan-Sends io c c' (start io.reads c.session.user_id none io.world).0 h
from_hub-Sends io closed c c' h = absurd (ground arith)

deliver-Sends :
    (io : Io) (item : HubItem) (c c' : Connection) → deliver io item c ≡ some c' → Sends io c c'
unfolding deliver
deliver-Sends io item c c' h = elim (Bool-cases c.replay.done) [
  | inl d ↦ from_hub-Sends io item c c' (ground arith)
  | inr d ↦ elim (Bool-cases io.reads) [
    | inl r ↦
        after_next-Sends io c c' (next c.session.user_id io.world.messages c.replay) (ground arith)
    | inr r ↦ absurd (ground arith)
  ]
]

relay_signal-Sends :
    (io : Io) (signal : TypingSignal) (c c' : Connection)
    → relay_signal io signal c ≡ some c'
    → Sends io c c'
unfolding relay_signal permitted
relay_signal-Sends io signal c c' h =
    elim (Bool-cases (for_user c.session.user_id signal && signal_visible io signal c)) [
      | inl v ↦ (
        ground arith,
        inr (
          typing signal.conversation_id signal.user_id signal.last_seq,
          ground arith,
          ground arith,
          ground arith,
        ),
      )
      | inr v ↦ (ground arith, inl (ground arith, ground arith))
    ]

on_signal-Sends :
    (io : Io) (item : SignalItem) (c c' : Connection)
    → on_signal io item c ≡ some c'
    → Sends io c c'
on_signal-Sends io (signalled signal) c c' h = relay_signal-Sends io signal c c' h
on_signal-Sends io signals_lagged c c' h = (ground arith, inl (ground arith, ground arith))
on_signal-Sends io signals_closed c c' h = (ground arith, inl (ground arith, ground arith))

answer-permitted :
    (io : Io) (c : Connection) (frame : Option ClientFrame)
    → session_ok io c ≡ true
    → permitted io c (answer_frame frame) ≡ true
unfolding permitted
answer-permitted io c none s = s
answer-permitted io c (some (heartbeat seq)) s = s
answer-permitted io c (some (identify after)) s = s

answer-remembered :
    (c c' : Connection) (frame : Option ClientFrame)
    → c'.seen ≡ c.seen
    → c'.seen ≡ remembered (answer_frame frame) c.seen
answer-remembered c c' none e = e
answer-remembered c c' (some (heartbeat seq)) e = e
answer-remembered c c' (some (identify after)) e = e

on_frame-Sends :
    (io : Io) (message : Incoming) (c c' : Connection)
    → session_ok io c ≡ true
    → on_frame io message c ≡ some c'
    → Sends io c c'
on_frame-Sends io (text_frame frame) c c' s h = (
  ground arith,
  inr (
    answer_frame frame,
    ground arith,
    answer-permitted io c frame s,
    answer-remembered c c' frame (ground arith),
  ),
)
on_frame-Sends io closing c c' s h = absurd (ground arith)
on_frame-Sends io ignored c c' s h = (ground arith, inl (ground arith, ground arith))

on_incoming-Sends :
    (io : Io) (message : Incoming) (c c' : Connection)
    → on_incoming io message c ≡ some c'
    → Sends io c c'
unfolding on_incoming
on_incoming-Sends io message c c' h = elim (Bool-cases (session_ok io c)) [
  | inl s ↦ on_frame-Sends io message c c' s (ground arith)
  | inr s ↦ absurd (ground arith)
]

-- A turn that does not end the connection keeps its session and sends at most one frame, which is
-- permitted as the database then stands: every frame needs a live session, an event must be visible
-- and not among the cached ids, and a typing signal must be another user's and visible. The cache
-- changes by the id of an event that is sent, and not otherwise.
pub turn-Sends : (t : Turn) (c c' : Connection) → turn t c ≡ some c' → Sends (io_of t) c c'
unfolding turn
turn-Sends (delivery item io) c c' h = deliver-Sends io item c c' h
turn-Sends (relay item io) c c' h = elim (Bool-cases c.typing_open) [
  | inl s ↦ on_signal-Sends io item c c' (ground arith)
  | inr s ↦ (ground arith, inl (ground arith, ground arith))
]
turn-Sends (tick io) c c' h = (ground arith, inl (ground arith, ground arith))
turn-Sends (incoming message io) c c' h = on_incoming-Sends io message c c' h

-- The session is dead whenever a turn looks at it.
abbrev pub dead_in : AuthSession → Turn → Bool
dead_in session t = not (session_live true session (io_of t).world)

never_permitted :
    (io : Io) (c : Connection) (frame : ServerFrame)
    → session_live true c.session io.world ≡ false
    → permitted io c frame ≡ false
unfolding permitted session_live
never_permitted io c (event entry) d = ground arith
never_permitted io c (typing conversation user_id last_seq) d = ground arith
never_permitted io c (heartbeat_ack seq) d = ground arith
never_permitted io c (fault code) d = ground arith
never_permitted io c (ready session_id user_id) d = refl

-- Once a session is revoked or has expired, the connection sends no frame any more, whatever turns
-- it still has.
pub run-dead :
    (turns : List Turn) (c c' : Connection)
    → exists (λ t. not (dead_in c.session t)) turns ≡ false
    → run turns c ≡ some c'
    → c'.frames ≡ c.frames
unfolding run exists
run-dead [] c c' d h = ground arith
run-dead (t ∷ turns) c c' d h = elim (Option-cases (turn t c)) [
  | inl e ↦ absurd (ground arith)
  | inr (b, e) ↦
      let s = turn-Sends t c b e in
      let rest = run-dead turns b c' (ground (arith, s.0)) (ground arith) in
      elim s.1 [
        | inl (same, _) ↦ ground arith
        | inr (frame, sent, p, s') ↦ absurd (ground (arith, never_permitted (io_of t) c frame))
      ]
]
