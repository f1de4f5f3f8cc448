-- ===== src/Ledger/Tests.antt =====
-- The theorems on the ledger at small books.
use teri_chat.Prelude.{ℕ, ◌≡◌, ◌≢◌, refl, true, false, some, arith, ok, err, if◌then◌else◌, ◌==◌}
use teri_chat.Prelude.Int.{pos, neg, ◌+ℤ◌, ltb_ℤ}
use teri_chat.Table.{find, exists, count}
use teri_chat.Ledger.Schema.{Books, LedgerAccount, owned_by, bad_input, invariant, transfer_kind}
use teri_chat.Ledger.Sample.{books, fresh, computing, wallet_1, wallet_2}
use teri_chat.Ledger.Postings.{total}
use teri_chat.Ledger.Transfers.{transfer, transfer_tx, mint}
use teri_chat.Ledger.Transfers.Effects.{row_of}
use teri_chat.Ledger.Transfers.Soundness.{Sound}
use teri_chat.Ledger.Transfers.Funds.{holds, transfer_tx-moves}
use teri_chat.Ledger.Transfers.Retry.{transfer-retry}
use teri_chat.Ledger.Transfers.Decision.{transfer-decides, booked}
use teri_chat.Ledger.Transfers.Integrity.{never_broken}
use teri_chat.Ledger.Calls.{transferred, here, next, Reach-Sound}

books-Sound : Sound books
unfolding total count exists ◌+ℤ◌
books-Sound = record {
  zero_sum = λ k. ground arith;
  two_legs = λ k. ground arith;
  closed = refl;
  funded = λ x h. ground arith;
}

-- User 1 sends 30 credits to user 2.
abbrev paid : Books
paid = (transfer fresh 1 1 2 (pos 30) 101 books).1

Reach-Sound_example : Sound paid
Reach-Sound_example = Reach-Sound books-Sound (next here (transferred fresh 1 1 2 (pos 30) 101))

transfer_run :
    transfer_tx fresh 1 2 (pos 30) 101 books ≡ ok ((row_of transfer_kind 101 5, true), paid)
unfolding computing transfer
transfer_run = refl

transfer_tx-moves_example :
    (a : LedgerAccount) × (b : LedgerAccount) × (find (owned_by 1) paid.accounts ≡ some a)
    × (find (owned_by 2) paid.accounts ≡ some b)
    × ((x : ℕ)
        → holds x paid ≡ (
            if x == a.id
            then neg (pos 30) +ℤ holds x books
            else if x == b.id
            then pos 30 +ℤ holds x books
            else holds x books))
transfer_tx-moves_example =
    transfer_tx-moves fresh 1 2 (pos 30) 101 books (row_of transfer_kind 101 5) paid transfer_run

paid_run : transfer fresh 1 1 2 (pos 30) 101 books ≡ (ok (row_of transfer_kind 101 5, true), paid)
unfolding computing transfer
paid_run = refl

transfer-retry_example :
    transfer fresh 1 1 2 (pos 30) 101 paid ≡ (ok (row_of transfer_kind 101 5, false), paid)
transfer-retry_example =
    transfer-retry fresh fresh 1 1 2 (pos 30) 101 books (row_of transfer_kind 101 5) true paid
      books-Sound paid_run

transfer-decides_example : transfer fresh 1 1 2 (pos 60) 101 books ≡ (
    if ltb_ℤ (holds 11 books) (pos 60) then (err (bad_input "insufficient funds"), books) else (
      ok (row_of transfer_kind 101 5, true),
      booked (row_of transfer_kind 101 5) 11 12 (pos 60) books,
    ))
unfolding computing
transfer-decides_example =
    transfer-decides fresh 1 2 (pos 60) 101 books wallet_1 wallet_2 books-Sound (λ e. ground arith)
      (ground arith) refl refl (λ e. ground arith) refl (ground arith)

never_broken_example :
    ((transfer fresh 1 1 2 (pos 30) 101 books).0 ≢ err (invariant 101 (pos 1)))
    × ((mint fresh 2 (pos 30) 101 books).0 ≢ err (invariant 101 (pos 1)))
never_broken_example = never_broken fresh 1 1 2 (pos 30) 101 101 (pos 1) books books-Sound
