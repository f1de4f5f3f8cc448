-- ===== src/Errors.antt =====
-- The HTTP errors of apps/server/src/errors.rs, for the errors of accounts, workspaces, messaging
-- and the ledger.
--
-- The log lines are left out: an error is what its caller is told.
mod Tests
use teri_chat.Prelude.{ℕ, String, ◌≡◌, ◌↔◌, refl, Bool, true, false, DbError, arith}
use teri_chat.Workspaces.Role
use teri_chat.Ledger.Schema
use teri_chat.Auth.Schema.{
  AuthError, handle_taken, email_taken, invalid_credentials, invalid_token, randomness, hash_failed,
  invalid_input, database as account_database,
}
use teri_chat.Stats.Schema.{
  StatsError, not_member as stats_not_member, bad_input, database as stats_database,
}
use teri_chat.Messaging.Schema.{
  MessagingError, not_member, empty_ciphertext, ciphertext_too_large, database as message_database,
}

pub data AppError : Type 0 where
  bad_request denied not_found unavailable : String → AppError
  unauthorized forbidden no_database internal : AppError

pub record Response : Type 0 where
  pub status : ℕ
  pub code : String
  pub message : String

unfoldable pub into_response : AppError → Response
into_response (bad_request message) = record {
  status = 400;
  code = "bad_request";
  message = message;
}
into_response unauthorized = record {
  status = 401;
  code = "unauthorized";
  message = "invalid or missing credentials";
}
into_response forbidden = record {
  status = 403;
  code = "forbidden";
  message = "not a conversation member";
}
into_response (denied message) = record { status = 403; code = "forbidden"; message = message }
into_response (not_found message) = record { status = 404; code = "not_found"; message = message }
into_response no_database = record {
  status = 503;
  code = "no_database";
  message = "account API requires DATABASE_URL";
}
into_response (unavailable message) = record {
  status = 503;
  code = "unavailable";
  message = message;
}
into_response internal = record { status = 500; code = "internal"; message = "internal error" }

unfoldable pub from_auth : AuthError → AppError
from_auth handle_taken = bad_request "handle is taken"
from_auth email_taken = bad_request "email is registered"
from_auth (invalid_input detail) = bad_request detail
from_auth invalid_credentials = unauthorized
from_auth invalid_token = unauthorized
from_auth randomness = internal
from_auth hash_failed = internal
from_auth (account_database e) = internal

unfoldable pub from_workspaces : Role.WorkspacesError → AppError
from_workspaces Role.not_member = denied "not a workspace member"
from_workspaces Role.forbidden = denied "insufficient workspace permission"
from_workspaces Role.banned = denied "banned from this workspace"
from_workspaces Role.invite_rejected = not_found "invite is invalid, expired, or fully used"
from_workspaces (Role.bad_input detail) = bad_request detail
from_workspaces (Role.database e) = internal

unfoldable pub from_messaging : MessagingError → AppError
from_messaging not_member = forbidden
from_messaging empty_ciphertext = bad_request "ciphertext must not be empty"
from_messaging ciphertext_too_large = bad_request "ciphertext too large"
from_messaging (message_database e) = internal

unfoldable pub from_stats : StatsError → AppError
from_stats stats_not_member = forbidden
from_stats (bad_input detail) = bad_request detail
from_stats (stats_database e) = internal

unfoldable pub from_ledger : Schema.LedgerError → AppError
from_ledger (Schema.bad_input detail) = bad_request detail
from_ledger Schema.forbidden = denied "not your wallet"
from_ledger (Schema.invariant id sum) = internal
from_ledger (Schema.database e) = internal

-- The one answer to every fault of the server.
abbrev pub opaque_response : Response
opaque_response = record { status = 500; code = "internal"; message = "internal error" }

abbrev pub is_fault : Role.WorkspacesError → Bool
is_fault (Role.database e) = true
is_fault e = false

abbrev pub is_ledger_fault : Schema.LedgerError → Bool
is_ledger_fault (Schema.database e) = true
is_ledger_fault (Schema.invariant id sum) = true
is_ledger_fault e = false

abbrev pub is_auth_fault : AuthError → Bool
is_auth_fault (account_database e) = true
is_auth_fault randomness = true
is_auth_fault hash_failed = true
is_auth_fault e = false

abbrev pub is_messaging_fault : MessagingError → Bool
is_messaging_fault (message_database e) = true
is_messaging_fault e = false

abbrev pub is_stats_fault : StatsError → Bool
is_stats_fault (stats_database e) = true
is_stats_fault e = false

-- An error of accounts, workspaces, messaging, the counters or the ledger is answered by the one opaque
-- internal response exactly when it is a fault of the server.
pub fault_iff :
    (a : AuthError) (e : Role.WorkspacesError) (m : MessagingError) (s : StatsError)
    (x : Schema.LedgerError)
    → ((into_response (from_auth a) ≡ opaque_response) ↔ (is_auth_fault a ≡ true))
      × ((into_response (from_workspaces e) ≡ opaque_response) ↔ (is_fault e ≡ true))
      × ((into_response (from_messaging m) ≡ opaque_response) ↔ (is_messaging_fault m ≡ true))
      × ((into_response (from_stats s) ≡ opaque_response) ↔ (is_stats_fault s ≡ true))
      × ((into_response (from_ledger x) ≡ opaque_response) ↔ (is_ledger_fault x ≡ true))
unfolding into_response from_auth from_workspaces from_messaging from_stats from_ledger
fault_iff a e m s x = (
  (λ h. ground arith, λ h. ground arith),
  (λ h. ground arith, λ h. ground arith),
  (λ h. ground arith, λ h. ground arith),
  (λ h. ground arith, λ h. ground arith),
  (λ h. ground arith, λ h. ground arith),
)
