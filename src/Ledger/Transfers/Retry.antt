-- ===== src/Ledger/Transfers/Retry.antt =====
-- A retry of a transfer is free.
use teri_chat.Prelude.{
  ltb, ℕ, ◌≡◌, ◌≢◌, refl, sym, Bool, true, false, some, arith, ok, inl, inr, List, [], ◌∷◌, map,
}
use mathlib.Core.Path.{subst}
use teri_chat.Prelude.Int.{ℤ, neg}
use teri_chat.Table.{find, count, select, order_by}
use teri_chat.Ledger.Schema.{
  LedgerAccount, LedgerTransaction, transfer_kind, Posting, Books, Fresh, owned_by, posting_of,
}
use teri_chat.Ledger.Accounts.Opening.{ensure_wallets_sorted_tx-found}
use teri_chat.Ledger.Postings.{
  to_leg, fetch_transaction_tx, fetch_postings_tx, same_request, reuse, legs, Leg, leg_before,
  legs_eq,
}
use teri_chat.Ledger.Transfers.{transfer, transfer_tx, move}
use teri_chat.Ledger.Transfers.Effects.{Posted, row_of, legs_of}
use teri_chat.Ledger.Transfers.Outcomes.{transfer_tx-Transferred, Known}
use teri_chat.Ledger.Transfers.Soundness.{Sound, Opened-Sound}

select_none : (p : Posting → Bool) (rows : List Posting) → count p rows ≡ 0 → select p rows ≡ []
unfolding count select
select_none p [] h = refl
select_none p (x ∷ rows) h = ground (arith, select_none p rows)

-- The legs as they are written are the legs that a retry expects.
legs_match :
    (debit credit : ℕ) (amount : ℤ)
    → debit ≢ credit
    → legs_eq
        (order_by leg_before
          (order_by (λ (x y : Leg). ltb x.0 y.0) ((credit, amount) ∷ (debit, neg amount) ∷ [])))
        (order_by leg_before (legs debit credit amount))
      ≡ true
unfolding order_by
legs_match debit credit amount n = ground arith

-- The legs of a list of postings, as `fetch_postings_tx` sorts them and its caller again.
abbrev sorted_legs : ℕ → List Posting → List Leg
sorted_legs k rows =
    order_by leg_before
      (order_by (λ (x y : Leg). ltb x.0 y.0) (map to_leg (select (posting_of k) rows)))

fetched :
    (k debit credit : ℕ) (amount : ℤ) (rows : List Posting)
    → count (posting_of k) rows ≡ 0
    → map to_leg (select (posting_of k) (legs_of k debit credit amount rows))
      ≡ (credit, amount) ∷ (debit, neg amount) ∷ []
unfolding select
fetched k debit credit amount rows h = ground (arith, select_none (posting_of k) rows)

fetch_posted :
    (k debit credit : ℕ) (amount : ℤ) (rows : List Posting)
    → debit ≢ credit
    → count (posting_of k) rows ≡ 0
    → legs_eq
        (sorted_legs k (legs_of k debit credit amount rows))
        (order_by leg_before (legs debit credit amount))
      ≡ true
fetch_posted k debit credit amount rows n h =
    subst
      (λ (l : List Leg).
        legs_eq (order_by leg_before (order_by (λ (x y : Leg). ltb x.0 y.0) l))
          (order_by leg_before (legs debit credit amount))
        ≡ true)
      (sym (fetched k debit credit amount rows h)) (legs_match debit credit amount n)

Posted-matches :
    (fresh : Fresh) (k debit credit : ℕ) (amount : ℤ) (db db' : Books)
    → Sound db
    → Posted (row_of transfer_kind k fresh.now) debit credit amount db db'
    → Known transfer_kind k debit credit amount (row_of transfer_kind k fresh.now) db'
unfolding find select same_request fetch_postings_tx
Posted-matches fresh k debit credit amount db db' s p = record {
  stored = ground (arith, p.after);
  matches =
      subst
        (λ (y : Books).
          legs_eq (sorted_legs k y.postings) (order_by leg_before (legs debit credit amount))
          ≡ true)
        (sym p.after)
        (fetch_posted k debit credit amount db.postings p.distinct
          (ground (arith, s.two_legs k, p.is_new)));
}

Known-again :
    (fresh : Fresh) (k debit credit : ℕ) (amount : ℤ) (t : LedgerTransaction) (db : Books)
    → Known transfer_kind k debit credit amount t db
    → move fresh debit credit amount k (fetch_transaction_tx k db) db ≡ ok ((t, false), db)
unfolding fetch_transaction_tx move reuse
Known-again fresh k debit credit amount t db w = ground (arith, w.stored, w.matches)

transfer_tx_again :
    (fresh : Fresh) (u v : ℕ) (amount : ℤ) (k : ℕ) (a b : LedgerAccount) (t : LedgerTransaction)
    (db : Books)
    → find (owned_by u) db.accounts ≡ some a
    → find (owned_by v) db.accounts ≡ some b
    → Known transfer_kind k a.id b.id amount t db
    → transfer_tx fresh u v amount k db ≡ ok ((t, false), db)
unfolding transfer_tx
transfer_tx_again fresh u v amount k a b t db p q w = ground (
  arith,
  ensure_wallets_sorted_tx-found fresh u v db a b p q,
  Known-again fresh k a.id b.id amount t db w,
)

retry_tx :
    (fresh again : Fresh) (u v : ℕ) (amount : ℤ) (k : ℕ) (db : Books) (t : LedgerTransaction)
    (created : Bool) (db' : Books)
    → Sound db
    → transfer_tx fresh u v amount k db ≡ ok ((t, created), db')
    → transfer_tx again u v amount k db' ≡ ok ((t, false), db')
retry_tx fresh again u v amount k db t created db' s h =
    let r = transfer_tx-Transferred fresh u v amount k db t created db' h in
    elim (r.result) [
      | inr (c, e, known) ↦
          subst (λ y. transfer_tx again u v amount k y ≡ ok ((t, false), y)) (sym e)
            (transfer_tx_again again u v amount k r.debit r.credit t r.mid r.payer r.payee known)
      | inl (c, e, posted, cover) ↦
          transfer_tx_again again u v amount k r.debit r.credit t db'
            (subst (λ (y : Books). find (owned_by u) y.accounts ≡ some r.debit) (sym posted.after)
              r.payer)
            (subst (λ (y : Books). find (owned_by v) y.accounts ≡ some r.credit) (sym posted.after)
              r.payee)
            (subst (λ x. Known transfer_kind k r.debit.id r.credit.id amount x db') (sym e)
              (Posted-matches fresh k r.debit.id r.credit.id amount r.mid db'
                (Opened-Sound db r.mid r.opens s) posted))
    ]

-- On sound books, the retry of a transfer that has committed answers with the same transaction,
-- says that it is not new, and changes nothing.
pub transfer-retry :
    (fresh again : Fresh) (caller u v : ℕ) (amount : ℤ) (k : ℕ) (db : Books) (t : LedgerTransaction)
    (created : Bool) (db' : Books)
    → Sound db
    → transfer fresh caller u v amount k db ≡ (ok (t, created), db')
    → transfer again caller u v amount k db' ≡ (ok (t, false), db')
unfolding transfer
transfer-retry fresh again caller u v amount k db t created db' s h =
    ground (arith, retry_tx fresh again u v amount k db t created db' s)
