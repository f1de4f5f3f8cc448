-- ===== src/Errors/Tests.antt =====
-- The answers to five faults.
use teri_chat.Prelude.{◌≡◌, ◌↔◌, true, row_not_found}
use teri_chat.Prelude.Int.{pos}
use teri_chat.Workspaces.Role.{database}
use teri_chat.Ledger.Schema.{invariant}
use teri_chat.Auth.Schema.{randomness}
use teri_chat.Messaging.Schema.{database as message_database}
use teri_chat.Stats.Schema.{database as stats_database}
use teri_chat.Errors.{
  into_response, from_auth, from_workspaces, from_messaging, from_stats, is_stats_fault,
  from_ledger, opaque_response, is_auth_fault, is_fault, is_messaging_fault, is_ledger_fault,
  fault_iff,
}

fault_iff_example :
    ((into_response (from_auth randomness) ≡ opaque_response) ↔ (is_auth_fault randomness ≡ true))
    × ((into_response (from_workspaces (database row_not_found)) ≡ opaque_response)
        ↔ (is_fault (database row_not_found) ≡ true))
    × ((into_response (from_messaging (message_database row_not_found)) ≡ opaque_response)
        ↔ (is_messaging_fault (message_database row_not_found) ≡ true))
    × ((into_response (from_stats (stats_database row_not_found)) ≡ opaque_response)
        ↔ (is_stats_fault (stats_database row_not_found) ≡ true))
    × ((into_response (from_ledger (invariant 7 (pos 1))) ≡ opaque_response)
        ↔ (is_ledger_fault (invariant 7 (pos 1)) ≡ true))
fault_iff_example =
    fault_iff randomness (database row_not_found) (message_database row_not_found)
      (stats_database row_not_found) (invariant 7 (pos 1))
