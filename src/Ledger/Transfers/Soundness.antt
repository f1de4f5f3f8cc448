-- ===== src/Ledger/Transfers/Soundness.antt =====
-- The books stay sound: no request creates or loses credits, and no wallet is overdrawn.
use teri_chat.Prelude.{
  ℕ, ◌≡◌, ◌≢◌, ◌⊎◌, sym, ◌∙◌, Bool, true, false, arith, inl, inr, if◌then◌else◌, List,
}
use mathlib.Core.Path.{subst}
use native.Mathlib.Decide.{ℕ_discrete}
use teri_chat.Prelude.{ap, ◌==◌}
use teri_chat.Prelude.Int.{ℤ, pos, neg, ◌+ℤ◌, ◌≤ℤ◌, ◌<ℤ◌, int_laws, +ℤ_parts}
use teri_chat.Table.{exists, count}
use teri_chat.Ledger.Schema.{
  LedgerTransaction, Posting, Books, transaction_with, posting_of, posting_on,
}
use teri_chat.Ledger.Accounts.Opening.{Opened, is_treasury}
use teri_chat.Ledger.Postings.{total}
use teri_chat.Ledger.Transfers.Effects.{Posted, legs_of}

abbrev pub every : Posting → Bool
every p = true

-- What sound books satisfy: each transaction nets to zero and has its two legs, the credits of all
-- accounts add up to zero, and only the treasury is below zero.
pub record Sound (db : Books) : Type 0 where
  pub zero_sum : (k : ℕ) → total (posting_of k) db.postings ≡ pos 0
  pub two_legs :
      (k : ℕ)
      → count (posting_of k) db.postings
        ≡ (if exists (transaction_with k) db.transactions then 2 else 0)
  pub closed : total every db.postings ≡ pos 0
  pub funded :
      (x : ℕ)
      → exists (is_treasury x) db.accounts ≡ false
      → pos 0 ≤ℤ total (posting_on x) db.postings

-- What a request that has committed may have done.
pub data Step (db : Books) (db' : Books) : Type 0 where
  opened : Opened db db' → Step db db'
  moved :
      (t : LedgerTransaction) (debit credit : ℕ) (amount : ℤ) (mid : Books)
      → Opened db mid
      → Posted t debit credit amount mid db'
      → pos 0 <ℤ amount
      → (exists (is_treasury debit) db'.accounts ≡ true)
        ⊎ (pos 0 ≤ℤ total (posting_on debit) db'.postings)
      → Step db db'

pub Opened-Sound : (db db' : Books) → Opened db db' → Sound db → Sound db'
Opened-Sound db db' o s = record {
  zero_sum = λ k. rw (o.same_postings) (s.zero_sum k);
  two_legs = λ k. rw (o.same_postings, o.same_transactions) (s.two_legs k);
  closed = rw o.same_postings s.closed;
  funded = λ x h. rw o.same_postings (s.funded x (ground (arith, o.treasury_kept x)));
}

-- The total of an account after a movement.
pub total-legs :
    (k debit credit : ℕ) (amount : ℤ) (x : ℕ) (rows : List Posting)
    → debit ≢ credit
    → total (posting_on x) (legs_of k debit credit amount rows) ≡ (
        if x == debit
        then neg amount +ℤ total (posting_on x) rows
        else if x == credit
        then amount +ℤ total (posting_on x) rows
        else total (posting_on x) rows)
unfolding total
total-legs k debit credit amount x rows n = ground arith

funded_after :
    (k debit credit : ℕ) (amount : ℤ) (x : ℕ) (rows : List Posting)
    → debit ≢ credit
    → pos 0 <ℤ amount
    → debit ≢ x
    → pos 0 ≤ℤ total (posting_on x) rows
    → pos 0 ≤ℤ total (posting_on x) (legs_of k debit credit amount rows)
unfolding total
funded_after k debit credit amount x rows n p d h =
    ground (arith, +ℤ_parts amount (total (posting_on x) rows))

pub cancel : (a b : ℤ) → a +ℤ (neg a +ℤ b) ≡ b
cancel a b = omega int_laws

funded_all :
    (t : LedgerTransaction) (debit credit : ℕ) (amount : ℤ) (db db' : Books) (x : ℕ)
    → Posted t debit credit amount db db'
    → pos 0 <ℤ amount
    → (exists (is_treasury debit) db'.accounts ≡ true)
      ⊎ (pos 0 ≤ℤ total (posting_on debit) db'.postings)
    → Sound db
    → exists (is_treasury x) db'.accounts ≡ false
    → pos 0 ≤ℤ total (posting_on x) db'.postings
funded_all t debit credit amount db db' x p positive cover s h = elim (ℕ_discrete debit x) [
  | yes e ↦ elim cover [
    | inl c ↦ absurd (ground (arith, ap (λ y. exists (is_treasury y) db'.accounts) e))
    | inr c ↦ subst (λ y. pos 0 ≤ℤ total (posting_on y) db'.postings) e c
  ]
  | no n ↦
      subst (λ (b : Books). pos 0 ≤ℤ total (posting_on x) b.postings) (sym p.after)
        (funded_after t.id debit credit amount x db.postings p.distinct positive n
          (s.funded x (ground (arith, p.after))))
]

Posted-Sound :
    (t : LedgerTransaction) (debit credit : ℕ) (amount : ℤ) (db db' : Books)
    → Posted t debit credit amount db db'
    → pos 0 <ℤ amount
    → (exists (is_treasury debit) db'.accounts ≡ true)
      ⊎ (pos 0 ≤ℤ total (posting_on debit) db'.postings)
    → Sound db
    → Sound db'
unfolding total count exists
Posted-Sound t debit credit amount db db' p positive cover s = record {
  zero_sum = λ k. ground (arith, s.zero_sum k, p.zero_sum, p.after);
  two_legs = λ k. ground (arith, s.two_legs k, p.two_legs, p.is_new, p.after);
  closed =
      ap (λ (b : Books). total every b.postings) p.after
      ∙ cancel amount (total every db.postings)
      ∙ s.closed;
  funded = λ x. funded_all t debit credit amount db db' x p positive cover s;
}

-- Every step keeps the books sound.
pub Step-Sound : {db db' : Books} → Step db db' → Sound db → Sound db'
Step-Sound {db} {db'} (opened o) s = Opened-Sound db db' o s
Step-Sound {db} {db'} (moved t debit credit amount mid o p positive cover) s =
    Posted-Sound t debit credit amount mid db' p positive cover (Opened-Sound db mid o s)
