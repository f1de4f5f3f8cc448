-- ===== src/Messaging/Conversations/Lookup.antt =====
-- The look-up of a direct conversation finds one of two users if there is one, whichever row it picks.
use teri_chat.Prelude.{
  ℕ, zero, suc, ◌≡◌, ◌≢◌, ◌≤◌, ◌⊎◌, ◌∙◌, ◌==◌, ◌&&◌, ap, refl, Bool, true, false, some, List, [],
  ◌∷◌, arith, inl, inr,
}
use mathlib.Core.Path.{subst, sym}
use native.Mathlib.Decide.{ℕ_discrete}
use teri_chat.Table.{exists, count, select}
use teri_chat.Table.Sorting.{count_same}
use teri_chat.Messaging.Schema.{MsgDb, ConversationRow, ParticipantRow}
use teri_chat.Messaging.Conversations.{
  conversation_id_of, find_dm, pick_row, shared_dm, one_of, conversation_id_of,
}

one_of_comm :
    (c a b : ℕ) (rows : List ParticipantRow) → count (one_of c a b) rows ≡ count (one_of c b a) rows
one_of_comm c a b rows = count_same (one_of c a b) (one_of c b a) rows (λ x. ground arith)

-- Whether a conversation is a direct one of the two.
abbrev pub is_dm : ℕ → ℕ → MsgDb → ConversationRow → Bool
is_dm a b s row = shared_dm a b s.participants row

is_dm_comm : (a b : ℕ) (s : MsgDb) (row : ConversationRow) → is_dm a b s row ≡ is_dm b a s row
is_dm_comm a b s row = ground (arith, one_of_comm row.id a b s.participants)

select_same :
    (p q : ConversationRow → Bool) (rows : List ConversationRow)
    → ((row : ConversationRow) → p row ≡ q row)
    → select p rows ≡ select q rows
unfolding select
select_same p q [] h = refl
select_same p q (x ∷ rows) h = ground (arith, h x, select_same p q rows h)

pub find_dm_comm : (n a b : ℕ) (s : MsgDb) → find_dm n a b s ≡ find_dm n b a s
unfolding find_dm
find_dm_comm n a b s =
    ap (λ rows. conversation_id_of (pick_row n rows))
      (select_same (is_dm a b s) (is_dm b a s) s.conversations (is_dm_comm a b s))

-- Whether the conversation with an id is a direct one of the two.
abbrev pub dm_with : ℕ → ℕ → ℕ → MsgDb → Bool
dm_with c a b s = exists (λ (row : ConversationRow). row.id == c && is_dm a b s row) s.conversations

-- One of the rows is picked.
picked :
    (n : ℕ) (x : ConversationRow) (rows : List ConversationRow)
    → (row : ConversationRow) × (pick_row n (x ∷ rows) ≡ some row)
      × (exists (λ (y : ConversationRow). y.id == row.id) (x ∷ rows) ≡ true)
unfolding pick_row exists
picked n x [] = (x, refl, ground arith)
picked zero x (y ∷ rows) = (x, refl, ground arith)
picked (suc n) x (y ∷ rows) = let rest = picked n y rows in (rest.0, rest.1, ground (arith, rest.2))

picked_of :
    (n : ℕ) (rows : List ConversationRow)
    → (rows ≡ [])
      ⊎ ((row : ConversationRow) × (pick_row n rows ≡ some row)
          × (exists (λ (y : ConversationRow). y.id == row.id) rows ≡ true))
picked_of n [] = inl refl
picked_of n (x ∷ rows) = inr (picked n x rows)

exists-selected :
    (p q : ConversationRow → Bool) (rows : List ConversationRow)
    → exists p (select q rows) ≡ exists (λ row. p row && q row) rows
unfolding exists select
exists-selected p q [] = refl
exists-selected p q (x ∷ rows) = ground (arith, exists-selected p q rows)

none_selected :
    (c a b : ℕ) (s : MsgDb) → select (is_dm a b s) s.conversations ≡ [] → dm_with c a b s ≡ false
unfolding exists
none_selected c a b s e =
    sym (exists-selected (λ (y : ConversationRow). y.id == c) (is_dm a b s) s.conversations)
    ∙ ap (exists (λ (y : ConversationRow). y.id == c)) e

-- Where there is a direct conversation of the two, the look-up finds one.
pub finds_dm :
    (n a b c : ℕ) (s : MsgDb)
    → dm_with c a b s ≡ true
    → (found : ℕ) × (find_dm n a b s ≡ some found) × (dm_with found a b s ≡ true)
unfolding find_dm
finds_dm n a b c s h = elim (picked_of n (select (is_dm a b s) s.conversations)) [
  | inl e ↦ absurd (ground (arith, none_selected c a b s e))
  | inr (row, e, f) ↦ (
    row.id,
    ap conversation_id_of e,
    sym (exists-selected (λ (y : ConversationRow). y.id == row.id) (is_dm a b s) s.conversations)
        ∙ f,
  )
]

none_picked : (n c : ℕ) → conversation_id_of (pick_row n []) ≡ some c → ⊥
unfolding pick_row
none_picked n c h = ground arith

pub found-dm_with : (n a b c : ℕ) (s : MsgDb) → find_dm n a b s ≡ some c → dm_with c a b s ≡ true
unfolding find_dm
found-dm_with n a b c s h = elim (picked_of n (select (is_dm a b s) s.conversations)) [
  | inl e ↦
      let nothing = ap (λ rows. conversation_id_of (pick_row n rows)) e in
      absurd (none_picked n c (sym nothing ∙ h))
  | inr (row, e, f) ↦
      let same : row.id ≡ c = ground (arith, ap conversation_id_of e) in
      subst (λ i. dm_with i a b s ≡ true) same
        (sym (
            exists-selected (λ (y : ConversationRow). y.id == row.id) (is_dm a b s) s.conversations)
          ∙ f)
]

dm_counted :
    (i : ℕ) (q : ConversationRow → Bool) (rows : List ConversationRow)
    → exists (λ (row : ConversationRow). row.id == i && q row) rows ≡ true
    → 1 ≤ count q rows
unfolding exists count
dm_counted i q [] e = absurd (ground arith)
dm_counted i q (x ∷ rows) e = ground (arith, dm_counted i q rows)

two_dms :
    (i j : ℕ) (q : ConversationRow → Bool) (rows : List ConversationRow)
    → i ≢ j
    → exists (λ (row : ConversationRow). row.id == i && q row) rows ≡ true
    → exists (λ (row : ConversationRow). row.id == j && q row) rows ≡ true
    → 2 ≤ count q rows
unfolding exists count
two_dms i j q [] n e f = absurd (ground arith)
two_dms i j q (x ∷ rows) n e f =
    ground (arith, dm_counted i q rows, dm_counted j q rows, two_dms i j q rows n)

-- Two ids are those of two rows.
pub one_dm :
    (i j : ℕ) (q : ConversationRow → Bool) (rows : List ConversationRow)
    → exists (λ (row : ConversationRow). row.id == i && q row) rows ≡ true
    → exists (λ (row : ConversationRow). row.id == j && q row) rows ≡ true
    → (i ≡ j) ⊎ (2 ≤ count q rows)
one_dm i j q rows e f = elim (ℕ_discrete i j) [
  | yes same ↦ inl same
  | no apart ↦ inr (two_dms i j q rows apart e f)
]
