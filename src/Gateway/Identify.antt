-- ===== src/Gateway/Identify.antt =====
-- The wait for the first frame of a client.
--
-- What happens is a list: the fixed deadline passes, or a frame arrives while the database is in
-- some state. `written` says whether the answer can be written in time.
use teri_chat.Prelude.{ℕ, Bool, true, false, Option, none, some, List, [], ◌∷◌}
use teri_chat.Gateway.Schema.{
  identify, heartbeat, Incoming, text_frame, closing, ignored, ServerFrame, heartbeat_ack, fault,
  AuthSession, World,
}
use teri_chat.Gateway.Visibility.{session_live}

pub record Arrival : Type 0 where
  pub message : Incoming
  pub world : World
  pub answers : Bool
  pub written : Bool

pub data Wait : Type 0 where
  deadline : Wait
  arrives : Arrival → Wait

-- The wait goes on, the socket is closed, or the client resumes after an event.
pub data Identified : Type 0 where
  waiting closed : Identified
  resumes : Option ℕ → Identified

-- Whether a frame ends the wait, or is answered, or is ignored.
pub data Reply : Type 0 where
  finish : Identified → Reply
  answer : ServerFrame → Reply
  skip : Reply

abbrev pub reply : Incoming → Reply
reply (text_frame (some (identify after))) = finish (resumes after)
reply (text_frame (some (heartbeat seq))) = answer (heartbeat_ack seq)
reply (text_frame none) = answer (fault "bad_frame")
reply closing = finish closed
reply ignored = skip

-- `identify`, with the frames that were sent, newest first.
unfoldable pub wait_identify :
    AuthSession → List Wait → List ServerFrame → Identified × List ServerFrame
wait_identify session [] sent = (waiting, sent)
wait_identify session (deadline ∷ rest) sent = (closed, sent)
wait_identify session (arrives a ∷ rest) sent = elim (session_live a.answers session a.world) [
  | false ↦ (closed, sent)
  | true ↦ elim (reply a.message) [
    | finish outcome ↦ (outcome, sent)
    | skip ↦ wait_identify session rest sent
    | answer frame ↦ elim a.written [
      | false ↦ (closed, sent)
      | true ↦ wait_identify session rest (frame ∷ sent)
    ]
  ]
]
