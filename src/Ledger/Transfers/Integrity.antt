-- ===== src/Ledger/Transfers/Integrity.antt =====
-- The ledger never reports itself broken.
use teri_chat.Prelude.{
  ℕ, ◌≡◌, ◌≢◌, ◌⊎◌, Option, some, none, arith, ok, err, Result-cases, inl, inr, DbError, ◌∷◌,
}
use teri_chat.Prelude.Int.{ℤ, pos}
use teri_chat.Ledger.Schema.{
  invariant, database, LedgerTransaction, Books, Fresh, posting_of, transfer_kind, mint_kind,
}
use teri_chat.Ledger.Accounts.{ensure_wallet_tx, ensure_treasury_tx, ensure_wallets_sorted_tx}
use teri_chat.Ledger.Accounts.Opening.{
  ensure_wallets_sorted_tx-Opened, ensure_wallet_tx-Opened, ensure_treasury_tx-Opened, Opened-trans,
}
use teri_chat.Ledger.Postings.{
  total, fetch_transaction_tx, insert_transaction, insert_posting, check_funds, commit_postings,
  sum_bigint, reuse,
}
use teri_chat.Ledger.Transfers.{
  transfer, transfer_tx, mint, mint_tx, move, issue, post_legs, committed,
}
use teri_chat.Ledger.Transfers.Effects.{row_of, legs_of}
use teri_chat.Ledger.Transfers.Soundness.{Sound, Opened-Sound}
use teri_chat.Ledger.Transfers.Decision.{legs_zero, check_zero_sum-pass}

post_legs_cases :
    (k debit credit : ℕ) (amount : ℤ) (db : Books)
    → (post_legs k debit credit amount db
        ≡ ok (tt, record db { postings = legs_of k debit credit amount db.postings }))
      ⊎ ((e : DbError) × (post_legs k debit credit amount db ≡ err (database e)))
unfolding post_legs insert_posting
post_legs_cases k debit credit amount db = ground arith

move_sane :
    (fresh : Fresh) (debit credit : ℕ) (amount : ℤ) (k i : ℕ) (x : ℤ) (db : Books)
    (found : Option LedgerTransaction)
    → total (posting_of k) db.postings ≡ pos 0
    → move fresh debit credit amount k found db ≢ err (invariant i x)
unfolding move insert_transaction reuse check_funds sum_bigint committed commit_postings
move_sane fresh debit credit amount k i x db (some t) z h = ground arith
move_sane fresh debit credit amount k i x db none z h =
    let written : Books = record db {
      transactions = row_of transfer_kind k fresh.now ∷ db.transactions;
    } in
    let after : Books = record written { postings = legs_of k debit credit amount db.postings } in
    elim (post_legs_cases k debit credit amount written) [
      | inl r ↦
          ground
            (arith, check_zero_sum-pass k after (legs_zero k debit credit amount db.postings z))
      | inr (e, r) ↦ ground arith
    ]

issue_sane :
    (fresh : Fresh) (debit credit : ℕ) (amount : ℤ) (k i : ℕ) (x : ℤ) (db : Books)
    (found : Option LedgerTransaction)
    → total (posting_of k) db.postings ≡ pos 0
    → issue fresh debit credit amount k found db ≢ err (invariant i x)
unfolding issue insert_transaction reuse committed commit_postings
issue_sane fresh debit credit amount k i x db (some t) z h = ground arith
issue_sane fresh debit credit amount k i x db none z h =
    let written : Books = record db {
      transactions = row_of mint_kind k fresh.now ∷ db.transactions;
    } in
    let after : Books = record written { postings = legs_of k debit credit amount db.postings } in
    elim (post_legs_cases k debit credit amount written) [
      | inl r ↦
          ground
            (arith, check_zero_sum-pass k after (legs_zero k debit credit amount db.postings z))
      | inr (e, r) ↦ ground arith
    ]

wallet_sane :
    (id now u i : ℕ) (x : ℤ) (db : Books) → ensure_wallet_tx id now u db ≢ err (invariant i x)
unfolding ensure_wallet_tx
wallet_sane id now u i x db h = ground arith

wallets_sane :
    (fresh : Fresh) (u v i : ℕ) (x : ℤ) (db : Books)
    → ensure_wallets_sorted_tx fresh u v db ≢ err (invariant i x)
unfolding ensure_wallets_sorted_tx ensure_wallet_tx
wallets_sane fresh u v i x db h = ground arith

treasury_sane :
    (id now i : ℕ) (x : ℤ) (db : Books) → ensure_treasury_tx id now db ≢ err (invariant i x)
unfolding ensure_treasury_tx
treasury_sane id now i x db h = ground arith

transfer_tx_sane :
    (fresh : Fresh) (u v : ℕ) (amount : ℤ) (k i : ℕ) (x : ℤ) (db : Books)
    → Sound db
    → transfer_tx fresh u v amount k db ≢ err (invariant i x)
unfolding transfer_tx
transfer_tx_sane fresh u v amount k i x db s h =
    elim (Result-cases (ensure_wallets_sorted_tx fresh u v db)) [
      | inr (e, r) ↦ wallets_sane fresh u v i x db (ground arith)
      | inl (((a, b), mid), r) ↦
          let o = ensure_wallets_sorted_tx-Opened fresh u v db a b mid r in
          move_sane fresh a.id b.id amount k i x mid (fetch_transaction_tx k mid)
            ((Opened-Sound db mid o.0 s).zero_sum k) (ground arith)
    ]

mint_tx_sane :
    (fresh : Fresh) (v : ℕ) (amount : ℤ) (k i : ℕ) (x : ℤ) (db : Books)
    → Sound db
    → mint_tx fresh v amount k db ≢ err (invariant i x)
unfolding mint_tx
mint_tx_sane fresh v amount k i x db s h =
    elim (Result-cases (ensure_treasury_tx fresh.first_id fresh.now db)) [
      | inr (e, r) ↦ treasury_sane fresh.first_id fresh.now i x db (ground arith)
      | inl ((a, low), r) ↦ elim (Result-cases (ensure_wallet_tx fresh.second_id fresh.now v low)) [
        | inr (e, q) ↦ wallet_sane fresh.second_id fresh.now v i x low (ground arith)
        | inl ((b, mid), q) ↦
            let o = ensure_treasury_tx-Opened fresh.first_id fresh.now db a low r in
            let w = ensure_wallet_tx-Opened fresh.second_id fresh.now v low b mid q in
            issue_sane fresh a.id b.id amount k i x mid (fetch_transaction_tx k mid)
              ((Opened-Sound db mid (Opened-trans db low mid o w) s).zero_sum k) (ground arith)
      ]
    ]

-- On sound books, neither a transfer nor an issue is ever answered by a broken invariant.
pub never_broken :
    (fresh : Fresh) (caller u v : ℕ) (amount : ℤ) (k i : ℕ) (x : ℤ) (db : Books)
    → Sound db
    → ((transfer fresh caller u v amount k db).0 ≢ err (invariant i x))
      × ((mint fresh v amount k db).0 ≢ err (invariant i x))
unfolding transfer mint
never_broken fresh caller u v amount k i x db s = (
  λ h. transfer_tx_sane fresh u v amount k i x db s (ground arith),
  λ h. mint_tx_sane fresh v amount k i x db s (ground arith),
)
