-- ===== src/Typing.antt =====
-- The typing signals and their throttle, apps/server/src/typing.rs.
--
-- The clock is a number of nanoseconds. The map of the throttle is a list with one entry to a key,
-- and the broadcast channel the list of the signals that were sent, newest first: a receiver that
-- lags is a concern of its own.
pub mod Throttle
mod Tests
use teri_chat.Prelude.{
  ℕ, ◌-◌, Bool, true, false, not, ◌&&◌, Option, none, some, List, [], ◌∷◌, length, ltb, leb, ◌==◌,
  if◌then◌else◌,
}
use teri_chat.Table.{find, select, delete}

abbrev pub min_interval : ℕ
min_interval = 2_000_000_000

abbrev pub throttle_entries : ℕ
throttle_entries = 4096

pub record TypingSignal : Type 0 where
  pub conversation_id : ℕ
  pub user_id : ℕ
  pub recipients : List ℕ
  pub last_seq : ℕ

pub record Slot : Type 0 where
  pub user_id : ℕ
  pub conversation_id : ℕ
  pub at : ℕ

pub record TypingBus : Type 0 where
  pub sent : List TypingSignal
  pub last : List Slot

pub record Admission : Type 0 where
  pub user_id : ℕ
  pub conversation_id : ℕ
  pub at : ℕ

abbrev pub new : TypingBus
new = record { sent = []; last = [] }

abbrev pub keyed : ℕ → ℕ → Slot → Bool
keyed u c s = s.user_id == u && s.conversation_id == c

-- `now.duration_since(at) < MIN_INTERVAL`, where the duration is zero for a later time.
abbrev pub recent : ℕ → Slot → Bool
recent now s = ltb (now - s.at) min_interval

-- `is_some_and(…)` on the slot of the key.
abbrev pub held : ℕ → Option Slot → Bool
held now none = false
held now (some s) = recent now s

-- The sweep at capacity.
unfoldable pub swept : ℕ → List Slot → List Slot
swept now last = if leb throttle_entries (length last) then select (recent now) last else last

unfoldable pub admit : ℕ → ℕ → ℕ → TypingBus → Option Admission × TypingBus
unfolding swept
admit now user_id conversation_id bus =
    if held now (find (keyed user_id conversation_id) bus.last) then (none, bus) else (
      some (record { user_id = user_id; conversation_id = conversation_id; at = now }),
      record bus {
        last =
            record { user_id = user_id; conversation_id = conversation_id; at = now }
            ∷ delete (keyed user_id conversation_id) (swept now bus.last);
      },
    )

-- `publish` consumes the admission, so its drop releases nothing.
unfoldable pub publish : Admission → List ℕ → ℕ → TypingBus → TypingBus
publish a recipients last_seq bus = record bus {
  sent =
      record {
        conversation_id = a.conversation_id;
        user_id = a.user_id;
        recipients = recipients;
        last_seq = last_seq;
      }
      ∷ bus.sent;
}

-- Whether the slot of the key is still the one of the admission.
abbrev pub still : ℕ → Option Slot → Bool
still at none = false
still at (some s) = s.at == at

-- The drop of an admission that was not published.
unfoldable pub drop_unpublished : Admission → TypingBus → TypingBus
drop_unpublished a bus =
    if still a.at (find (keyed a.user_id a.conversation_id) bus.last)
    then record bus { last = delete (keyed a.user_id a.conversation_id) bus.last }
    else bus
