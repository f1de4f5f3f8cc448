-- ===== src/Ledger/Transfers/Effects.antt =====
-- What a committed movement writes.
use teri_chat.Prelude.{ℕ, ◌≡◌, ◌≢◌, Bool, true, false, none, arith, ok, ◌∷◌, List}
use teri_chat.Prelude.Int.{ℤ, pos, neg, ◌≤ℤ◌}
use teri_chat.Table.{find, exists, count}
use teri_chat.Ledger.Schema.{
  LedgerTransaction, TransactionKind, transfer_kind, mint_kind, Posting, Books, Fresh,
  transaction_with, posting_of, posting_on,
}
use teri_chat.Ledger.Postings.{
  total, fetch_transaction_tx, insert_transaction, insert_posting, check_zero_sum, check_funds,
  commit_postings, sum_bigint,
}
use teri_chat.Ledger.Transfers.{post_legs, committed, move, issue}

abbrev pub row_of : TransactionKind → ℕ → ℕ → LedgerTransaction
row_of kind k now = record { id = k; kind = kind; memo = ""; created_at = now }

abbrev pub legs_of : ℕ → ℕ → ℕ → ℤ → List Posting → List Posting
legs_of k debit credit amount rows =
    record { transaction_id = k; account_id = credit; amount = amount }
    ∷ record { transaction_id = k; account_id = debit; amount = neg amount }
    ∷ rows

-- A new transaction `t` that moves `amount` from one account to another.
pub record Posted (t : LedgerTransaction) (debit credit : ℕ) (amount : ℤ) (db : Books) (db' : Books)
    : Type 0 where
  pub is_new : exists (transaction_with t.id) db.transactions ≡ false
  pub after : db' ≡ record db {
    transactions = t ∷ db.transactions;
    postings = legs_of t.id debit credit amount db.postings;
  }
  pub distinct : debit ≢ credit
  pub zero_sum : total (posting_of t.id) db'.postings ≡ pos 0
  pub two_legs : count (posting_of t.id) db'.postings ≡ 2

pub move-Posted :
    (fresh : Fresh) (debit credit : ℕ) (amount : ℤ) (k : ℕ) (db : Books) (t : LedgerTransaction)
    (created : Bool) (db' : Books)
    → move fresh debit credit amount k none db ≡ ok ((t, created), db')
    → (created ≡ true)
      × (t ≡ row_of transfer_kind k fresh.now)
      × Posted (row_of transfer_kind k fresh.now) debit credit amount db db'
      × (pos 0 ≤ℤ total (posting_on debit) db'.postings)
unfolding move insert_transaction post_legs insert_posting check_zero_sum check_funds sum_bigint
    committed commit_postings fetch_transaction_tx find exists
move-Posted fresh debit credit amount k db t created db' h = (
  ground arith,
  ground arith,
  record {
    is_new = ground arith;
    after = ground arith;
    distinct = λ e. ground arith;
    zero_sum = ground arith;
    two_legs = ground arith;
  },
  ground arith,
)

pub issue-Posted :
    (fresh : Fresh) (debit credit : ℕ) (amount : ℤ) (k : ℕ) (db : Books) (t : LedgerTransaction)
    (created : Bool) (db' : Books)
    → issue fresh debit credit amount k none db ≡ ok ((t, created), db')
    → (created ≡ true)
      × (t ≡ row_of mint_kind k fresh.now)
      × Posted (row_of mint_kind k fresh.now) debit credit amount db db'
unfolding issue insert_transaction post_legs insert_posting check_zero_sum sum_bigint committed
    commit_postings fetch_transaction_tx find exists
issue-Posted fresh debit credit amount k db t created db' h = (
  ground arith,
  ground arith,
  record {
    is_new = ground arith;
    after = ground arith;
    distinct = λ e. ground arith;
    zero_sum = ground arith;
    two_legs = ground arith;
  },
)
