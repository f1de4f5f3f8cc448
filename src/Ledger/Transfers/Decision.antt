-- ===== src/Ledger/Transfers/Decision.antt =====
-- When a transfer goes through, and that the ledger never reports itself broken.
use teri_chat.Prelude.{
  ℕ, ◌≡◌, ◌≢◌, refl, ◌∙◌, true, false, some, none, arith, ok, err, List, [], ◌∷◌, if◌then◌else◌,
}
use teri_chat.Prelude.Int.{ℤ, pos, neg, ◌+ℤ◌, ◌<ℤ◌, ltb_ℤ, fits_i64, neg_parts, +ℤ_parts}
use teri_chat.Table.{find, exists, count}
use teri_chat.Table.Laws.{exists-eq-is_some}
use teri_chat.Ledger.Schema.{
  bad_input, LedgerAccount, LedgerTransaction, transfer_kind, Posting, Books, Fresh, owned_by,
  account_with, transaction_with, posting_of,
}
use teri_chat.Ledger.Accounts.Opening.{ensure_wallets_sorted_tx-found}
use teri_chat.Ledger.Postings.{
  total, fetch_transaction_tx, same_leg, insert_transaction, insert_posting, check_zero_sum,
  check_funds, commit_postings, sum_bigint,
}
use teri_chat.Ledger.Transfers.{transfer, transfer_tx, move, post_legs, committed}
use teri_chat.Ledger.Transfers.Effects.{row_of, legs_of}
use teri_chat.Ledger.Transfers.Soundness.{Sound, cancel}
use teri_chat.Ledger.Transfers.Funds.{holds}

find-account :
    (u : ℕ) (a : LedgerAccount) (rows : List LedgerAccount)
    → find (owned_by u) rows ≡ some a
    → exists (account_with a.id) rows ≡ true
unfolding find exists
find-account u a [] h = ground arith
find-account u a (x ∷ rows) h = ground (arith, find-account u a rows)

no_leg :
    (k x : ℕ) (rows : List Posting)
    → count (posting_of k) rows ≡ 0
    → exists (same_leg k x) rows ≡ false
unfolding count exists
no_leg k x [] h = refl
no_leg k x (p ∷ rows) h = ground (arith, no_leg k x rows)

cancel_zero : (a b : ℤ) → b ≡ pos 0 → a +ℤ (neg a +ℤ b) ≡ pos 0
cancel_zero a b h = cancel a b ∙ h

-- The books with one transaction more.
abbrev pub booked : LedgerTransaction → ℕ → ℕ → ℤ → Books → Books
booked t debit credit amount db = record db {
  transactions = t ∷ db.transactions;
  postings = legs_of t.id debit credit amount db.postings;
}

pub legs_zero :
    (k debit credit : ℕ) (amount : ℤ) (rows : List Posting)
    → total (posting_of k) rows ≡ pos 0
    → total (posting_of k) (legs_of k debit credit amount rows) ≡ pos 0
unfolding total
legs_zero k debit credit amount rows h =
    ground (arith, cancel_zero amount (total (posting_of k) rows) h)

post_legs-booked :
    (k debit credit : ℕ) (amount : ℤ) (db : Books)
    → debit ≢ credit
    → pos 0 <ℤ amount
    → exists (account_with debit) db.accounts ≡ true
    → exists (account_with credit) db.accounts ≡ true
    → count (posting_of k) db.postings ≡ 0
    → post_legs k debit credit amount db
      ≡ ok (tt, record db { postings = legs_of k debit credit amount db.postings })
unfolding post_legs insert_posting exists
post_legs-booked k debit credit amount db n p x y h =
    ground (arith, neg_parts amount, no_leg k debit db.postings h, no_leg k credit db.postings h)

pub check_zero_sum-pass :
    (k : ℕ) (db : Books)
    → total (posting_of k) db.postings ≡ pos 0
    → check_zero_sum k db ≡ ok (tt, db)
unfolding check_zero_sum sum_bigint fits_i64
check_zero_sum-pass k db h = ground arith

check_funds-decides :
    (x : ℕ) (db : Books)
    → fits_i64 (holds x db) ≡ true
    → check_funds x db
      ≡ (if ltb_ℤ (holds x db) (pos 0) then err (bad_input "insufficient funds") else ok (tt, db))
unfolding check_funds sum_bigint
check_funds-decides x db h = ground arith

committed-new :
    (t : LedgerTransaction) (db : Books)
    → find (transaction_with t.id) db.transactions ≡ some t
    → total (posting_of t.id) db.postings ≡ pos 0
    → count (posting_of t.id) db.postings ≡ 2
    → committed t.id db ≡ ok ((t, true), db)
unfolding committed commit_postings fetch_transaction_tx
committed-new t db f z c = ground arith

move-decides :
    (fresh : Fresh) (debit credit : ℕ) (amount : ℤ) (k : ℕ) (db : Books)
    → debit ≢ credit
    → pos 0 <ℤ amount
    → exists (account_with debit) db.accounts ≡ true
    → exists (account_with credit) db.accounts ≡ true
    → exists (transaction_with k) db.transactions ≡ false
    → count (posting_of k) db.postings ≡ 0
    → total (posting_of k) db.postings ≡ pos 0
    → fits_i64 (neg amount +ℤ holds debit db) ≡ true
    → move fresh debit credit amount k none db ≡ (
        if ltb_ℤ (holds debit db) amount
        then err (bad_input "insufficient funds")
        else ok (
          (row_of transfer_kind k fresh.now, true),
          booked (row_of transfer_kind k fresh.now) debit credit amount db,
        ))
unfolding move insert_transaction find count total
move-decides fresh debit credit amount k db n p x y new c z fits =
    let t = row_of transfer_kind k fresh.now in
    let written : Books = record db { transactions = t ∷ db.transactions } in
    let after = booked t debit credit amount db in
    ground (
      arith,
      post_legs-booked k debit credit amount written n p x y c,
      check_zero_sum-pass k after (legs_zero k debit credit amount db.postings z),
      check_funds-decides debit after,
      committed-new t after,
      legs_zero k debit credit amount db.postings z,
      +ℤ_parts (neg amount) (holds debit db),
      neg_parts amount,
    )

transfer_tx-decides :
    (fresh : Fresh) (u v : ℕ) (amount : ℤ) (k : ℕ) (db : Books) (a b : LedgerAccount)
    → Sound db
    → pos 0 <ℤ amount
    → find (owned_by u) db.accounts ≡ some a
    → find (owned_by v) db.accounts ≡ some b
    → a.id ≢ b.id
    → exists (transaction_with k) db.transactions ≡ false
    → fits_i64 (neg amount +ℤ holds a.id db) ≡ true
    → transfer_tx fresh u v amount k db ≡ (
        if ltb_ℤ (holds a.id db) amount
        then err (bad_input "insufficient funds")
        else ok (
          (row_of transfer_kind k fresh.now, true),
          booked (row_of transfer_kind k fresh.now) a.id b.id amount db,
        ))
unfolding transfer_tx fetch_transaction_tx
transfer_tx-decides fresh u v amount k db a b s p q r n new fits = ground (
  arith,
  ensure_wallets_sorted_tx-found fresh u v db a b q r,
  exists-eq-is_some (transaction_with k) db.transactions,
  s.two_legs k,
  move-decides fresh a.id b.id amount k db n p (find-account u a db.accounts q)
      (find-account v b db.accounts r) new,
  s.zero_sum k,
)

-- On sound books, a transfer of a positive amount between the wallets of two users, which have
-- different ids, under a transaction id that is new, goes through exactly when the sender has the
-- amount: else the answer is that funds are insufficient, and nothing has changed. It is assumed
-- that the balance of the sender stays in the range of the database's numbers.
pub transfer-decides :
    (fresh : Fresh) (u v : ℕ) (amount : ℤ) (k : ℕ) (db : Books) (a b : LedgerAccount)
    → Sound db
    → u ≢ v
    → pos 0 <ℤ amount
    → find (owned_by u) db.accounts ≡ some a
    → find (owned_by v) db.accounts ≡ some b
    → a.id ≢ b.id
    → exists (transaction_with k) db.transactions ≡ false
    → fits_i64 (neg amount +ℤ holds a.id db) ≡ true
    → transfer fresh u u v amount k db ≡ (
        if ltb_ℤ (holds a.id db) amount then (err (bad_input "insufficient funds"), db) else (
          ok (row_of transfer_kind k fresh.now, true),
          booked (row_of transfer_kind k fresh.now) a.id b.id amount db,
        ))
unfolding transfer
transfer-decides fresh u v amount k db a b s d p q r n new fits =
    ground (arith, transfer_tx-decides fresh u v amount k db a b s p q r n new fits)
