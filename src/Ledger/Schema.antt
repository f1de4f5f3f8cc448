-- ===== src/Ledger/Schema.antt =====
-- The tables and types of apps/server/src/ledger.rs (migrations/20260909090000_ledger.sql).
--
-- A UUID is a number, by the order of its bytes. The ids of postings are left out, since nothing
-- reads them.
use teri_chat.Prelude.{ℕ, String, Bool, true, false, Option, none, some, List, DbError, ◌==◌}
use teri_chat.Prelude.Int.{ℤ}

abbrev pub default_currency : String
default_currency = "CREDITS"

pub data LedgerError : Type 0 where
  bad_input : String → LedgerError
  forbidden : LedgerError
  -- The transaction and what it nets to, which the source formats into a message.
  invariant : ℕ → ℤ → LedgerError
  database : DbError → LedgerError

pub data AccountKind : Type 0 where
  user system : AccountKind

pub record LedgerAccount : Type 0 where
  pub id : ℕ
  pub owner_user_id : Option ℕ
  pub kind : AccountKind
  pub currency : String
  pub created_at : ℕ

pub data TransactionKind : Type 0 where
  transfer_kind mint_kind : TransactionKind

pub record LedgerTransaction : Type 0 where
  pub id : ℕ
  pub kind : TransactionKind
  pub memo : String
  pub created_at : ℕ

pub record Posting : Type 0 where
  pub transaction_id : ℕ
  pub account_id : ℕ
  pub amount : ℤ

pub record HistoryItem : Type 0 where
  pub transaction_id : ℕ
  pub kind : TransactionKind
  pub amount : ℤ
  pub created_at : ℕ

pub record Books : Type 0 where
  pub users : List ℕ
  pub accounts : List LedgerAccount
  pub transactions : List LedgerTransaction
  pub postings : List Posting

-- What a request takes from outside: two ids for the accounts it may create, and the clock.
pub record Fresh : Type 0 where
  pub first_id : ℕ
  pub second_id : ℕ
  pub now : ℕ

abbrev pub owned_by : ℕ → LedgerAccount → Bool
owned_by u a = elim a.owner_user_id [ none ↦ false | some v ↦ v == u ]

abbrev pub is_system : LedgerAccount → Bool
is_system a = elim a.kind [ user ↦ false | system ↦ true ]

abbrev pub account_with : ℕ → LedgerAccount → Bool
account_with id a = a.id == id

abbrev pub transaction_with : ℕ → LedgerTransaction → Bool
transaction_with id t = t.id == id

abbrev pub posting_of : ℕ → Posting → Bool
posting_of id p = p.transaction_id == id

abbrev pub posting_on : ℕ → Posting → Bool
posting_on id p = p.account_id == id

abbrev pub kind_eq : TransactionKind → TransactionKind → Bool
kind_eq transfer_kind transfer_kind = true
kind_eq mint_kind mint_kind = true
kind_eq a b = false
