-- ===== src/Gateway/Pump.antt =====
-- The loop of a connection after its identification.
--
-- A turn is one arm of `select!` that completes, with the database and the socket as they then
-- are. A delivery that completes while another arm's work goes on is buffered by the source until
-- that work is done, so it is the next turn. The frames and the cache of sent ids are listed
-- newest first.
pub mod Safety
pub mod Dedup
pub mod Deliveries
pub mod Resume
use teri_chat.Prelude.{
  ℕ, Bool, true, false, not, ◌&&◌, ◌||◌, Option, none, some, List, [], ◌∷◌, length, take, ◌==◌,
  if◌then◌else◌,
}
use teri_chat.Messaging.Schema.{OutboxEntry}
use teri_chat.Messaging.Conversations.{contains}
use teri_chat.Typing.{TypingSignal}
use teri_chat.Gateway.Schema.{
  ClientFrame, identify, heartbeat, Incoming, text_frame, closing, ignored, ServerFrame, ready,
  heartbeat_ack, fault, typing, event, AuthSession, World,
}
use teri_chat.Gateway.Visibility.{session_live, event_visible, conversation_visible}
use teri_chat.Gateway.Replay.{Replay, start, next}

abbrev pub seen_entries : ℕ
seen_entries = 1024

pub record Connection : Type 0 where
  pub session : AuthSession
  pub replay : Replay
  pub seen : List ℕ
  pub typing_open : Bool
  pub frames : List ServerFrame

-- How the database and the socket answer during a turn: `live` to the checks of the session,
-- `reads` to the replay and the visibility of an event, `written` to the writes. A visibility query
-- that `fails` with an error, rather than by its deadline, counts as no.
pub record Io : Type 0 where
  pub world : World
  pub live : Bool
  pub reads : Bool
  pub fails : Bool
  pub written : Bool

pub data HubItem : Type 0 where
  received : OutboxEntry → HubItem
  lagged closed : HubItem

pub data SignalItem : Type 0 where
  signalled : TypingSignal → SignalItem
  signals_lagged signals_closed : SignalItem

pub data Turn : Type 0 where
  delivery : HubItem → Io → Turn
  relay : SignalItem → Io → Turn
  tick : Io → Turn
  incoming : Incoming → Io → Turn

abbrev pub session_ok : Io → Connection → Bool
session_ok io c = session_live io.live c.session io.world

-- A write, and the connection after it: a write that fails ends the connection.
abbrev pub send_frame : Io → ServerFrame → Connection → Option Connection
send_frame io frame c = if io.written then some (record c { frames = frame ∷ c.frames }) else none

unfoldable pub push_seen : ℕ → List ℕ → List ℕ
push_seen i seen = i ∷ (if length seen == seen_entries then take 1023 seen else seen)

-- The event is visible: the last check, the write and the cache.
unfoldable pub emit : Io → OutboxEntry → Connection → Option Connection
emit io entry c =
    if not (session_ok io c) || not io.written
    then none
    else some (record c { frames = event entry ∷ c.frames; seen = push_seen entry.id c.seen })

-- An event from the replay or from the hub.
unfoldable pub handle_event : Io → OutboxEntry → Connection → Option Connection
unfolding emit
handle_event io entry c =
    if contains entry.id c.seen
    then some c
    else if not io.reads
    then none
    else if not io.fails && event_visible c.session.user_id entry io.world
    then emit io entry c
    else some c

-- A full scan of what is retained, after the hub has dropped events.
abbrev pub rescan : Connection → Option Replay → Option Connection
rescan c none = none
rescan c (some scan) = some (record c { replay = scan })

abbrev pub after_next : Io → Connection → Option OutboxEntry × Replay → Option Connection
after_next io c (none, r) = some (record c { replay = r })
after_next io c (some entry, r) = handle_event io entry (record c { replay = r })

abbrev pub from_hub : Io → HubItem → Connection → Option Connection
from_hub io (received entry) c = handle_event io entry c
from_hub io lagged c = rescan c (start io.reads c.session.user_id none io.world).0
from_hub io closed c = none

unfoldable pub deliver : Io → HubItem → Connection → Option Connection
deliver io item c =
    if c.replay.done
    then from_hub io item c
    else if not io.reads
    then none
    else after_next io c (next c.session.user_id io.world.messages c.replay)

abbrev pub for_user : ℕ → TypingSignal → Bool
for_user u signal = not (signal.user_id == u) && contains u signal.recipients

abbrev pub signal_visible : Io → TypingSignal → Connection → Bool
signal_visible io signal c =
    io.reads
    && not io.fails
    && conversation_visible c.session.user_id signal.conversation_id io.world

unfoldable pub relay_signal : Io → TypingSignal → Connection → Option Connection
relay_signal io signal c =
    if not (for_user c.session.user_id signal)
    then some c
    else if not (session_ok io c)
    then none
    else if not (signal_visible io signal c)
    then some c
    else send_frame io (typing signal.conversation_id signal.user_id signal.last_seq) c

abbrev pub on_signal : Io → SignalItem → Connection → Option Connection
on_signal io (signalled signal) c = relay_signal io signal c
on_signal io signals_lagged c = some c
on_signal io signals_closed c = some (record c { typing_open = false })

abbrev pub answer_frame : Option ClientFrame → ServerFrame
answer_frame (some (heartbeat seq)) = heartbeat_ack seq
answer_frame (some (identify after)) = fault "already_identified"
answer_frame none = fault "bad_frame"

abbrev pub on_frame : Io → Incoming → Connection → Option Connection
on_frame io (text_frame frame) c = send_frame io (answer_frame frame) c
on_frame io closing c = none
on_frame io ignored c = some c

unfoldable pub on_incoming : Io → Incoming → Connection → Option Connection
on_incoming io message c = if not (session_ok io c) then none else on_frame io message c

-- One turn, or the end of the connection.
unfoldable pub turn : Turn → Connection → Option Connection
unfolding deliver relay_signal on_incoming handle_event
turn (delivery item io) c = deliver io item c
turn (relay item io) c = if c.typing_open then on_signal io item c else some c
turn (tick io) c = if session_ok io c then some c else none
turn (incoming message io) c = on_incoming io message c

abbrev pub fresh_connection : AuthSession → ℕ → Replay → Connection
fresh_connection session session_id replay = record {
  session = session;
  replay = replay;
  seen = [];
  typing_open = true;
  frames = ready session_id session.user_id ∷ [];
}

abbrev pub greet : Io → AuthSession → ℕ → Option Replay → Option Connection
greet io session session_id none = none
greet io session session_id (some replay) =
    if not (session_live io.live session io.world) || not io.written
    then none
    else some (fresh_connection session session_id replay)

-- After the identification: the start of the replay, and the `ready` frame.
unfoldable pub connect : Io → AuthSession → ℕ → Option ℕ → Option Connection
connect io session session_id resume_after =
    greet io session session_id (start io.reads session.user_id resume_after io.world).0

-- The loop, over the turns that it has, the first first.
unfoldable pub run : List Turn → Connection → Option Connection
unfolding turn
run [] c = some c
run (t ∷ turns) c = elim (turn t c) [ none ↦ none | some c' ↦ run turns c' ]
