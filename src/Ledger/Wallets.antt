-- ===== src/Ledger/Wallets.antt =====
-- `balance`, `history`, `history_before` and the wallet routes of apps/server/src/ledger.rs.
pub mod Isolation
use teri_chat.Prelude.{
  ℕ, String, Bool, true, false, not, ◌&&◌, ◌||◌, Option, none, some, List, [], ◌∷◌, take, ltb,
  Result, ok, err, and_then, out_of_range, ◌==◌, if◌then◌else◌, is_some,
}
use teri_chat.Prelude.Int.{ℤ, pos, negsuc, leb_ℤ, ltb_ℤ, fits_i64}
use teri_chat.Table.{find, exists, select, order_by}
use teri_chat.Ledger.Schema.{
  LedgerError, bad_input, forbidden, database, LedgerAccount, LedgerTransaction, Posting,
  HistoryItem, Books, Fresh, transaction_with, posting_on,
}
use teri_chat.Ledger.Accounts.{ensure_wallet}
use teri_chat.Ledger.Postings.{total, same_leg}
use teri_chat.Ledger.Transfers.{transfer}

-- `SUM(amount)::BIGINT` of an account, where no postings make zero.
unfoldable pub account_balance : ℕ → Books → Result LedgerError ℤ × Books
account_balance account_id db =
    if fits_i64 (total (posting_on account_id) db.postings)
    then (ok (total (posting_on account_id) db.postings), db)
    else (err (database out_of_range), db)

unfoldable pub balance : Fresh → ℕ → ℕ → Books → Result LedgerError ℤ × Books
unfolding ensure_wallet account_balance
balance fresh caller_id owner_id db =
    if caller_id == owner_id
    then and_then (ensure_wallet fresh owner_id db) (λ account. account_balance account.id)
    else (err forbidden, db)

-- `limit.clamp(1, 100)`.
unfoldable pub clamp_limit : ℤ → ℕ
clamp_limit (negsuc n) = 1
clamp_limit (pos n) = if n == 0 then 1 else if ltb 100 n then 100 else n

-- The rows of `ledger_postings JOIN ledger_transactions`.
unfoldable pub entries : List LedgerTransaction → List Posting → List HistoryItem
entries transactions [] = []
entries transactions (p ∷ postings) =
    let rest = entries transactions postings in
    elim (find (transaction_with p.transaction_id) transactions) [
      | none ↦ rest
      | some t ↦
          record {
            transaction_id = t.id;
            kind = t.kind;
            amount = p.amount;
            created_at = t.created_at;
          }
          ∷ rest
    ]

-- `(created_at, id) < (at, before)`.
abbrev pub older : HistoryItem → ℕ → ℕ → Bool
older i at before = ltb i.created_at at || (i.created_at == at && ltb i.transaction_id before)

abbrev pub newest_first : HistoryItem → HistoryItem → Bool
newest_first x y = older y x.created_at x.transaction_id

abbrev pub behind : Option (ℕ × ℕ) → HistoryItem → Bool
behind none i = true
behind (some (at, before)) i = older i at before

unfoldable pub page : ℕ → ℤ → Option (ℕ × ℕ) → Books → List HistoryItem
unfolding clamp_limit
page account_id limit boundary db = take (clamp_limit limit) (
    order_by newest_first (
      select (behind boundary)
        (entries db.transactions (select (posting_on account_id) db.postings))))

-- The time of a cursor, which must be a transaction with a posting on the account.
unfoldable pub boundary_of : ℕ → Option ℕ → Books → Result LedgerError (Option (ℕ × ℕ))
boundary_of account_id none db = ok none
boundary_of account_id (some id) db = elim (find (transaction_with id) db.transactions) [
  | none ↦ err (bad_input "invalid history cursor")
  | some t ↦
      if exists (same_leg id account_id) db.postings
      then ok (some (t.created_at, id))
      else err (bad_input "invalid history cursor")
]

abbrev page_of :
    ℕ → ℤ → Result LedgerError (Option (ℕ × ℕ)) → Books → Result LedgerError (List HistoryItem)
page_of account_id limit (ok boundary) db = ok (page account_id limit boundary db)
page_of account_id limit (err e) db = err e

unfoldable pub history_before :
    Fresh → ℕ → ℕ → ℤ → Option ℕ → Books → Result LedgerError (List HistoryItem) × Books
unfolding ensure_wallet boundary_of page
history_before fresh caller_id owner_id limit before db =
    if caller_id == owner_id
    then and_then (ensure_wallet fresh owner_id db)
        (λ account s. (page_of account.id limit (boundary_of account.id before s) s, s))
    else (err forbidden, db)

unfoldable pub history : Fresh → ℕ → ℕ → ℤ → Books → Result LedgerError (List HistoryItem) × Books
unfolding history_before
history fresh caller_id owner_id limit = history_before fresh caller_id owner_id limit none

pub record WalletBody : Type 0 where
  pub account_id : ℕ
  pub currency : String
  pub balance : ℤ

unfoldable pub get_wallet : Fresh → ℕ → Books → Result LedgerError WalletBody × Books
unfolding ensure_wallet balance
get_wallet fresh bearer db = and_then (ensure_wallet fresh bearer db) λ account s.
    and_then (balance fresh bearer bearer s) λ sum s'.
      (ok (record { account_id = account.id; currency = account.currency; balance = sum }), s')

pub record TransferResponse : Type 0 where
  pub transaction_id : ℕ
  pub from_user_id : ℕ
  pub to_user_id : ℕ
  pub amount : ℤ
  pub deduped : Bool

unfoldable pub post_transfer :
    Fresh → ℕ → ℕ → ℤ → ℕ → Books → Result LedgerError TransferResponse × Books
unfolding transfer
post_transfer fresh bearer to_user_id amount transaction_id db =
    and_then (transfer fresh bearer bearer to_user_id amount transaction_id db) λ (tx, created) s. (
      ok (record {
        transaction_id = tx.id;
        from_user_id = bearer;
        to_user_id = to_user_id;
        amount = amount;
        deduped = not created;
      }),
      s,
    )

abbrev limit_or : Option ℤ → ℤ
limit_or none = pos 50
limit_or (some limit) = limit

abbrev min_100 : ℤ → ℤ
min_100 limit = if ltb_ℤ (pos 100) limit then pos 100 else limit

unfoldable pub get_history :
    Fresh → ℕ → Option ℤ → Option ℕ → Books → Result LedgerError (List HistoryItem) × Books
unfolding history history_before
get_history fresh bearer limit before db =
    if leb_ℤ (limit_or limit) (pos 0)
    then (err (bad_input "limit must be positive"), db)
    else if is_some before
    then history_before fresh bearer bearer (min_100 (limit_or limit)) before db
    else history fresh bearer bearer (min_100 (limit_or limit)) db
