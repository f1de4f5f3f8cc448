-- ===== src/Messaging/Directory.antt =====
-- The list of a user's conversations, with who takes part in them.
--
-- Texts are compared by their code points, which is the order of their bytes in UTF-8.
pub mod Members
pub mod Scope
use mathlib.Core.Option
use teri_chat.Prelude.{
  ℕ, Bool, true, false, not, ◌&&◌, ◌||◌, Option, none, some, List, [], ◌∷◌, ◌++◌, length, map, ltb,
  ◌==◌, if◌then◌else◌,
}
use teri_chat.Prelude.Text.{Text}
use teri_chat.Table.{find, select, order_by}
use teri_chat.Messaging.Schema.{
  MsgDb, UserRow, ConversationRow, ParticipantRow, Message, user_with, conversation_row,
  in_conversation, is_kind, dm_kind, group_kind,
}
use teri_chat.Messaging.Conversations.{contains}

pub record MemberProfile : Type 0 where
  pub user_id : ℕ
  pub handle : Text
  pub display_name : Text

pub record ConversationSummary : Type 0 where
  pub id : ℕ
  pub kind : Text
  pub members : List ℕ
  pub peer_handle : Option Text
  pub peer_display_name : Option Text
  pub last_seq : Option ℕ
  pub last_sent_at : Option ℕ
  pub last_read_seq : ℕ
  pub member_profiles : List MemberProfile

pub record ConversationListRow : Type 0 where
  pub id : ℕ
  pub kind : Text
  pub last_seq : Option ℕ
  pub last_sent_at : Option ℕ
  pub last_read_seq : ℕ

-- `MAX(f)`.
abbrev pub upper : ℕ → Option ℕ → ℕ
upper n none = n
upper n (some k) = if ltb n k then k else n

unfoldable pub largest : (Message → ℕ) → List Message → Option ℕ
largest f [] = none
largest f (m ∷ messages) = let rest = largest f messages in some (upper (f m) rest)

abbrev pub message_in : ℕ → Message → Bool
message_in c m = m.conversation_id == c

abbrev pub list_row : MsgDb → ParticipantRow → ConversationRow → ConversationListRow
list_row db p c = record {
  id = c.id;
  kind = c.kind;
  last_seq = largest (λ (m : Message). m.seq) (select (message_in c.id) db.messages);
  last_sent_at = largest (λ (m : Message). m.sent_at) (select (message_in c.id) db.messages);
  last_read_seq = p.last_read_seq;
}

-- The JOIN: each of the user's participations with its conversation.
unfoldable pub join_conversations : ℕ → MsgDb → List ParticipantRow → List ConversationListRow
unfolding largest
join_conversations u db [] = []
join_conversations u db (p ∷ participants) =
    let rest = join_conversations u db participants in
    if p.user_id == u
    then elim (find (conversation_row p.conversation_id) db.conversations) [
      | none ↦ rest
      | some c ↦ list_row db p c ∷ rest
    ]
    else rest

-- `ORDER BY 4 DESC NULLS LAST, c.id ASC`.
abbrev pub by_activity : Option ℕ → Option ℕ → Bool → Bool
by_activity none none smaller = smaller
by_activity none (some t) smaller = false
by_activity (some s) none smaller = true
by_activity (some s) (some t) smaller = ltb t s || (s == t && smaller)

abbrev pub listed_before : ConversationListRow → ConversationListRow → Bool
listed_before a b = by_activity a.last_sent_at b.last_sent_at (ltb a.id b.id)

abbrev pub has_profiles : Text → Bool
has_profiles kind = is_kind dm_kind kind || is_kind group_kind kind

abbrev pub member_ids : ℕ → MsgDb → List ℕ
member_ids c db =
    map (λ (p : ParticipantRow). p.user_id) (select (in_conversation c) db.participants)

-- The ids whose profiles are read. Sorting them and dropping doubles changes no answer.
unfoldable pub profile_ids : MsgDb → List ConversationListRow → List ℕ
profile_ids db [] = []
profile_ids db (r ∷ rows) =
    let rest = profile_ids db rows in
    if has_profiles r.kind then member_ids r.id db ++ rest else rest

abbrev pub profile_among : List ℕ → UserRow → Bool
profile_among ids row = contains row.id ids

abbrev pub other_than : ℕ → List ℕ → Option ℕ
other_than u ids = find (λ i. not (i == u)) ids

abbrev pub profile_row : List UserRow → Option ℕ → Option UserRow
profile_row profiles none = none
profile_row profiles (some i) = find (user_with i) profiles

-- The other member of a direct conversation of two.
abbrev pub peer_of : ℕ → List UserRow → Text → List ℕ → Option UserRow
peer_of u profiles kind members =
    if is_kind dm_kind kind && length members == 2
    then profile_row profiles (other_than u members)
    else none

unfoldable pub profiles_of : List UserRow → List ℕ → List MemberProfile
profiles_of profiles [] = []
profiles_of profiles (i ∷ members) =
    let rest = profiles_of profiles members in
    elim (find (user_with i) profiles) [
      | none ↦ rest
      | some row ↦
          record { user_id = i; handle = row.handle; display_name = row.display_name } ∷ rest
    ]

unfoldable pub text_before : Text → Text → Bool
text_before [] [] = false
text_before [] (d ∷ t) = true
text_before (c ∷ s) [] = false
text_before (c ∷ s) (d ∷ t) = ltb c d || (c == d && text_before s t)

abbrev pub smaller_handle : MemberProfile → MemberProfile → Bool
smaller_handle p q = text_before p.handle q.handle

abbrev pub summary_of : ℕ → MsgDb → List UserRow → ConversationListRow → ConversationSummary
summary_of u db profiles r =
    let members = member_ids r.id db in
    let peer = peer_of u profiles r.kind members in
    record {
      id = r.id;
      kind = r.kind;
      members = members;
      peer_handle = Option.map (λ (row : UserRow). row.handle) peer;
      peer_display_name = Option.map (λ (row : UserRow). row.display_name) peer;
      last_seq = r.last_seq;
      last_sent_at = r.last_sent_at;
      last_read_seq = r.last_read_seq;
      member_profiles =
          if has_profiles r.kind
          then order_by smaller_handle (profiles_of profiles members)
          else [];
    }

unfoldable pub list_conversations : ℕ → MsgDb → List ConversationSummary
unfolding join_conversations profile_ids profiles_of text_before
list_conversations u db =
    let rows = order_by listed_before (join_conversations u db db.participants) in
    let profiles = select (profile_among (profile_ids db rows)) db.users in
    map (summary_of u db profiles) rows
