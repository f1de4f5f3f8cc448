-- ===== src/Ledger/Transfers.antt =====
-- `transfer` and `mint` of apps/server/src/ledger.rs.
pub mod Effects
pub mod Soundness
pub mod Outcomes
pub mod Funds
pub mod Retry
pub mod Decision
pub mod Integrity
use teri_chat.Prelude.{
  ℕ, Bool, true, not, Option, none, some, Result, err, Tx, ◌>>=◌, ◌>>◌, pure, ok_or, gets, map_err,
  transaction, row_not_found, ◌==◌, if◌then◌else◌,
}
use teri_chat.Prelude.Int.{ℤ, pos, neg, leb_ℤ}
use teri_chat.Ledger.Schema.{
  LedgerError, bad_input, forbidden, database, transfer_kind, mint_kind, LedgerTransaction, Books,
  Fresh,
}
use teri_chat.Ledger.Accounts.{ensure_wallets_sorted_tx, ensure_wallet_tx, ensure_treasury_tx}
use teri_chat.Ledger.Postings.{
  fetch_transaction_tx, legs, reuse, insert_transaction, insert_failed, insert_posting,
  check_zero_sum, check_funds, commit_postings,
}

-- The two legs, in the order of the loop.
unfoldable pub post_legs : ℕ → ℕ → ℕ → ℤ → Tx Books LedgerError (Unit {0})
unfolding insert_posting
post_legs transaction_id debit credit amount = do
  map_err database (insert_posting transaction_id (debit, neg amount))
  map_err database (insert_posting transaction_id (credit, amount))

-- The end of both transactions: the stored row, and the commit with its trigger.
unfoldable pub committed : ℕ → Tx Books LedgerError (LedgerTransaction × Bool)
unfolding fetch_transaction_tx commit_postings
committed transaction_id = do
  found ← gets (fetch_transaction_tx transaction_id)
  row ← ok_or found (database row_not_found)
  map_err database (commit_postings transaction_id)
  pure (row, true)

-- `transfer` once the accounts are there and locked.
unfoldable pub move :
    Fresh
    → ℕ
    → ℕ
    → ℤ
    → ℕ
    → Option LedgerTransaction
    → Tx Books LedgerError (LedgerTransaction × Bool)
unfolding reuse insert_transaction post_legs check_zero_sum check_funds committed
move fresh debit credit amount transaction_id (some existing) =
    reuse transfer_kind transaction_id (legs debit credit amount) existing
move fresh debit credit amount transaction_id none = do
  map_err insert_failed (insert_transaction transfer_kind transaction_id fresh.now)
  post_legs transaction_id debit credit amount
  check_zero_sum transaction_id
  check_funds debit
  committed transaction_id

unfoldable pub transfer_tx : Fresh → ℕ → ℕ → ℤ → ℕ → Tx Books LedgerError (LedgerTransaction × Bool)
unfolding ensure_wallets_sorted_tx fetch_transaction_tx move
transfer_tx fresh from_user_id to_user_id amount transaction_id = do
  (from_account, to_account) ← ensure_wallets_sorted_tx fresh from_user_id to_user_id
  existing ← gets (fetch_transaction_tx transaction_id)
  move fresh from_account.id to_account.id amount transaction_id existing

unfoldable pub transfer :
    Fresh → ℕ → ℕ → ℕ → ℤ → ℕ → Books → Result LedgerError (LedgerTransaction × Bool) × Books
unfolding transfer_tx
transfer fresh caller_id from_user_id to_user_id amount transaction_id db =
    if not (caller_id == from_user_id)
    then (err forbidden, db)
    else if leb_ℤ amount (pos 0)
    then (err (bad_input "amount must be positive"), db)
    else if from_user_id == to_user_id
    then (err (bad_input "cannot transfer to yourself"), db)
    else transaction (transfer_tx fresh from_user_id to_user_id amount transaction_id) db

-- `mint` once the accounts are there and locked: the treasury may go below zero.
unfoldable pub issue :
    Fresh
    → ℕ
    → ℕ
    → ℤ
    → ℕ
    → Option LedgerTransaction
    → Tx Books LedgerError (LedgerTransaction × Bool)
unfolding reuse insert_transaction post_legs check_zero_sum committed
issue fresh treasury credit amount transaction_id (some existing) =
    reuse mint_kind transaction_id (legs treasury credit amount) existing
issue fresh treasury credit amount transaction_id none = do
  map_err insert_failed (insert_transaction mint_kind transaction_id fresh.now)
  post_legs transaction_id treasury credit amount
  check_zero_sum transaction_id
  committed transaction_id

unfoldable pub mint_tx : Fresh → ℕ → ℤ → ℕ → Tx Books LedgerError (LedgerTransaction × Bool)
unfolding ensure_treasury_tx ensure_wallet_tx fetch_transaction_tx issue
mint_tx fresh to_user_id amount transaction_id = do
  treasury ← ensure_treasury_tx fresh.first_id fresh.now
  to_account ← ensure_wallet_tx fresh.second_id fresh.now to_user_id
  existing ← gets (fetch_transaction_tx transaction_id)
  issue fresh treasury.id to_account.id amount transaction_id existing

unfoldable pub mint :
    Fresh → ℕ → ℤ → ℕ → Books → Result LedgerError (LedgerTransaction × Bool) × Books
unfolding mint_tx
mint fresh to_user_id amount transaction_id db =
    if leb_ℤ amount (pos 0)
    then (err (bad_input "amount must be positive"), db)
    else transaction (mint_tx fresh to_user_id amount transaction_id) db
