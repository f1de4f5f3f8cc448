-- ===== src/Stats/Counting/Totals.antt =====
-- What the count of an event changes.
use teri_chat.Prelude.{
  ℕ, ◌+◌, ◌≡◌, ap, refl, suc, ◌&&◌, Option, none, some, List, ok, arith, ◌==◌, Option-cases,
  Result-cases, inl, inr, if◌then◌else◌,
}
use teri_chat.Table.{find, update}
use teri_chat.Table.Laws.{find-update, find_sound}
use teri_chat.Stats.Schema.{UserStats, ConversationStats, StatsDb, stats_of, stats_in}
use teri_chat.Stats.Counting.{upsert_user, upsert_conversation, raise_counters}

-- The counters of a user: zero where there is no row.
abbrev pub counted : Option UserStats → ℕ
counted none = 0
counted (some row) = row.message_count

abbrev pub counted_in : Option ConversationStats → ℕ
counted_in none = 0
counted_in (some row) = row.message_count

abbrev pub user_total : ℕ → List UserStats → ℕ
user_total u rows = counted (find (stats_of u) rows)

abbrev pub conversation_total : ℕ → ℕ → List ConversationStats → ℕ
conversation_total u c rows = counted_in (find (stats_in u c) rows)

abbrev raised : ℕ → UserStats → UserStats
raised now row = record row { message_count = row.message_count + 1; last_message_at = some now }

abbrev raised_in : ℕ → ConversationStats → ConversationStats
raised_in now row = record row { message_count = row.message_count + 1; last_message_at = some now }

update-total :
    (now u v : ℕ) (rows : List UserStats) (row : UserStats)
    → find (stats_of u) rows ≡ some row
    → user_total v (update (stats_of u) (raised now) rows)
      ≡ (if v == u then suc (user_total u rows) else user_total v rows)
update-total now u v rows row f = elim (Option-cases (find (stats_of v) rows)) [
  | inl e ↦ ground (
    arith,
    find-update (stats_of v) (stats_of u) (raised now) rows (λ x. refl),
    ap (λ w. find (stats_of w) rows),
  )
  | inr (x, e) ↦ ground (
    arith,
    find-update (stats_of v) (stats_of u) (raised now) rows (λ x. refl),
    find_sound (stats_of v) {x = x} rows e,
  )
]

pub upsert_user-total :
    (now u v : ℕ) (rows rows' : List UserStats)
    → upsert_user now u rows ≡ ok rows'
    → user_total v rows' ≡ (if v == u then suc (user_total u rows) else user_total v rows)
unfolding upsert_user find
upsert_user-total now u v rows rows' h = elim (Option-cases (find (stats_of u) rows)) [
  | inl f ↦ ground arith
  | inr (row, f) ↦ ground (arith, update-total now u v rows row f)
]

update-total_in :
    (now u c v k : ℕ) (rows : List ConversationStats) (row : ConversationStats)
    → find (stats_in u c) rows ≡ some row
    → conversation_total v k (update (stats_in u c) (raised_in now) rows) ≡ (
        if v == u && k == c then suc (conversation_total u c rows) else conversation_total v k rows)
update-total_in now u c v k rows row f = elim (Option-cases (find (stats_in v k) rows)) [
  | inl e ↦
      ground (arith, find-update (stats_in v k) (stats_in u c) (raised_in now) rows (λ x. refl))
  | inr (x, e) ↦ ground (
    arith,
    find-update (stats_in v k) (stats_in u c) (raised_in now) rows (λ x. refl),
    find_sound (stats_in v k) {x = x} rows e,
  )
]

pub upsert_conversation-total :
    (now u c v k : ℕ) (rows rows' : List ConversationStats)
    → upsert_conversation now u c rows ≡ ok rows'
    → conversation_total v k rows' ≡ (
        if v == u && k == c then suc (conversation_total u c rows) else conversation_total v k rows)
unfolding upsert_conversation find
upsert_conversation-total now u c v k rows rows' h =
    elim (Option-cases (find (stats_in u c) rows)) [
      | inl f ↦ ground arith
      | inr (row, f) ↦ ground (arith, update-total_in now u c v k rows row f)
    ]

-- The transaction of a counted event.
pub record Raised (u c : ℕ) (db db' : StatsDb) : Type 0 where
  pub users : db'.users ≡ db.users
  pub conversations : db'.conversations ≡ db.conversations
  pub outbox : db'.outbox ≡ db.outbox
  pub processed : db'.processed ≡ db.processed
  pub rejected : db'.rejected ≡ db.rejected
  pub user_raised :
      (v : ℕ)
      → user_total v db'.user_stats
        ≡ (if v == u then suc (user_total u db.user_stats) else user_total v db.user_stats)
  pub conversation_raised :
      (v k : ℕ)
      → conversation_total v k db'.conversation_stats ≡ (
          if v == u && k == c
          then suc (conversation_total u c db.conversation_stats)
          else conversation_total v k db.conversation_stats)

pub raise_counters-Raised :
    (now u c : ℕ) (db db' : StatsDb) → raise_counters now u c db ≡ ok db' → Raised u c db db'
unfolding raise_counters
raise_counters-Raised now u c db db' h = elim (Result-cases (upsert_user now u db.user_stats)) [
  | inr (e, f) ↦ absurd (ground arith)
  | inl (users, f) ↦ elim (Result-cases (upsert_conversation now u c db.conversation_stats)) [
    | inr (e, g) ↦ absurd (ground arith)
    | inl (rows, g) ↦ record {
      users = ground arith;
      conversations = ground arith;
      outbox = ground arith;
      processed = ground arith;
      rejected = ground arith;
      user_raised = λ v. ground (arith, upsert_user-total now u v db.user_stats users f);
      conversation_raised =
          λ v k. ground (arith, upsert_conversation-total now u c v k db.conversation_stats rows g);
    }
  ]
]
