-- ===== src/Workspaces/Listings/Pages.antt =====
-- The pages of the members of a workspace, one after the other by their cursors.
use mathlib.Core.Path.{sym}
use teri_chat.Prelude.{
  ℕ, ◌≡◌, ◌∙◌, ap, refl, suc, ◌+◌, ◌≤◌, Bool, true, false, not, ◌&&◌, Option, none, some, List, [],
  ◌∷◌, map, take, length, arith, ◌==◌, Result, ok, err, Option-cases, inl, inr, is_some,
}
use teri_chat.Prelude.Int.{ℤ, pos_part}
use teri_chat.Table.{find, select, count, order_by}
use teri_chat.Table.Counts.{
  select-select, select_same, length-select, count_le_length, length-count,
}
use teri_chat.Table.Sorting.{order_by-in_key_order, with_key, count-order_by}
use teri_chat.Table.Scans.{strict, in_key_order-strict, after_key, select-order_by}
use teri_chat.Table.Paging.{follow, page_after, follow_complete}
use teri_chat.Workspaces.Role.{WorkspacesError}
use teri_chat.Workspaces.Schema.{Db, Seat, seat_of}
use teri_chat.Workspaces.Access.{is_banned, role_of}
use teri_chat.Workspaces.Listings.{
  Profile, Member, MembersPage, join_profiles, profile_with, after_user, member_listed,
  smaller_user, members_page, page_limit, list_members,
}

abbrev pub user_id_of : Member → ℕ
user_id_of m = m.user_id

-- The seats of a workspace that its listing shows.
abbrev pub shown_seat : ℕ → Db → Seat → Bool
shown_seat w db m = m.workspace_id == w && not (is_banned w m.user_id db)

-- The members of a workspace in the order of their ids.
unfoldable pub all_members : List Profile → ℕ → Db → List Member
all_members profiles w db =
    order_by smaller_user (join_profiles profiles (select (shown_seat w db) db.members))

-- The primary key of `workspace_members`, for one workspace.
abbrev pub UniqueSeats : ℕ → Db → Type 0
UniqueSeats w db = (u : ℕ) → count (seat_of w u) db.members ≤ 1

after_same :
    (c : Option ℕ) (x : Member) (m : Seat)
    → x.user_id ≡ m.user_id
    → after_key user_id_of c x ≡ after_user c m
after_same none x m e = refl
after_same (some n) x m e = ground arith

select-join_profiles :
    (profiles : List Profile) (c : Option ℕ) (seats : List Seat)
    → select (after_key user_id_of c) (join_profiles profiles seats)
      ≡ join_profiles profiles (select (after_user c) seats)
unfolding select join_profiles
select-join_profiles profiles c [] = refl
select-join_profiles profiles none (m ∷ seats) =
    elim (Option-cases (find (profile_with m.user_id) profiles)) [
      | inl f ↦ ground (arith, select-join_profiles profiles none seats)
      | inr (p, f) ↦ ground (arith, select-join_profiles profiles none seats)
    ]
select-join_profiles profiles (some n) (m ∷ seats) =
    elim (Option-cases (find (profile_with m.user_id) profiles)) [
      | inl f ↦ ground (arith, select-join_profiles profiles (some n) seats)
      | inr (p, f) ↦ ground (arith, select-join_profiles profiles (some n) seats)
    ]

count-join_profiles :
    (profiles : List Profile) (w u : ℕ) (db : Db) (seats : List Seat)
    → count (with_key user_id_of u) (join_profiles profiles (select (shown_seat w db) seats))
      ≤ count (seat_of w u) seats
unfolding count select join_profiles
count-join_profiles profiles w u db [] = omega arith
count-join_profiles profiles w u db (m ∷ seats) =
    elim (Option-cases (find (profile_with m.user_id) profiles)) [
      | inl f ↦ ground (arith, count-join_profiles profiles w u db seats)
      | inr (p, f) ↦ ground (arith, count-join_profiles profiles w u db seats)
    ]

length-join_profiles :
    (profiles : List Profile) (seats : List Seat)
    → length (join_profiles profiles seats) ≤ length seats
unfolding join_profiles
length-join_profiles profiles [] = omega arith
length-join_profiles profiles (m ∷ seats) = ground (arith, length-join_profiles profiles seats)

all_members-strict :
    (profiles : List Profile) (w : ℕ) (db : Db)
    → UniqueSeats w db
    → strict user_id_of (all_members profiles w db) ≡ true
unfolding all_members
all_members-strict profiles w db h =
    let rows = join_profiles profiles (select (shown_seat w db) db.members) in
    in_key_order-strict user_id_of (order_by smaller_user rows)
      (order_by-in_key_order user_id_of rows)
      λ u. ground (
        arith,
        count-order_by (with_key user_id_of u) smaller_user rows,
        count-join_profiles profiles w u db db.members,
        h u,
      )

all_members-length :
    (profiles : List Profile) (w : ℕ) (db : Db)
    → length (all_members profiles w db) ≤ length db.members
unfolding all_members
all_members-length profiles w db =
    let seats = select (shown_seat w db) db.members in
    ground (
      arith,
      length-count (order_by smaller_user (join_profiles profiles seats)),
      count-order_by (λ x. true) smaller_user (join_profiles profiles seats),
      length-count (join_profiles profiles seats),
      length-join_profiles profiles seats,
      length-select (shown_seat w db) db.members,
      count_le_length (shown_seat w db) db.members,
    )

listed_same :
    (w : ℕ) (c : Option ℕ) (db : Db) (m : Seat)
    → member_listed w c db m ≡ (shown_seat w db m && after_user c m)
listed_same w none db m = ground arith
listed_same w (some n) db m = ground arith

read_rows :
    (profiles : List Profile) (w : ℕ) (c : Option ℕ) (db : Db)
    → order_by smaller_user (join_profiles profiles (select (member_listed w c db) db.members))
      ≡ select (after_key user_id_of c) (all_members profiles w db)
unfolding all_members
read_rows profiles w c db =
    ap (λ seats. order_by smaller_user (join_profiles profiles seats))
      (select_same (member_listed w c db) (λ m. shown_seat w db m && after_user c m) db.members
          (listed_same w c db)
        ∙ sym (select-select (shown_seat w db) (after_user c) db.members))
    ∙ (ap (order_by smaller_user)
          (sym (select-join_profiles profiles c (select (shown_seat w db) db.members)))
        ∙ sym (
            select-order_by user_id_of (after_key user_id_of c)
              (join_profiles profiles (select (shown_seat w db) db.members))))

-- What a client sees of the answer to a request for a page.
abbrev pub seen_page : Result WorkspacesError MembersPage → Option (List Member × Option ℕ)
seen_page (err e) = none
seen_page (ok page) = some (page.members, page.next_cursor)

map_same : {A : Type 0} (xs : List A) → map (λ x. x) xs ≡ xs
map_same [] = refl
map_same (x ∷ xs) = ap (λ ys. x ∷ ys) (map_same xs)

list_members-page :
    (profiles : List Profile) (u w : ℕ) (limit : ℤ) (db : Db)
    → is_banned w u db ≡ false
    → is_some (role_of w u db) ≡ true
    → (pos_part limit == 0) ≡ false
    → (c : Option ℕ)
    → seen_page (list_members profiles u w c limit db)
      ≡ some (
          page_after user_id_of user_id_of
            (λ m. m)
            (λ m. refl)
            (page_limit limit)
            (all_members profiles w db)
            c)
unfolding list_members members_page role_of
list_members-page profiles u w limit db b m p c =
    let rows = select (after_key user_id_of c) (all_members profiles w db) in
    ground (arith, read_rows profiles w c db, map_same (take (page_limit limit + 1) rows))

-- With a positive limit, a member who is not banned and who follows the cursors of the pages of members
-- comes to an end after at most as many pages as the table has rows and one more, and is shown the
-- members who are not banned and have a profile, each once and in the order of their ids, while the
-- tables, in which a user has one seat at most in the workspace, stand still.
pub list_members_complete :
    (profiles : List Profile) (u w : ℕ) (limit : ℤ) (db : Db)
    → UniqueSeats w db
    → is_banned w u db ≡ false
    → is_some (role_of w u db) ≡ true
    → (pos_part limit == 0) ≡ false
    → follow (suc (length db.members)) (λ c. seen_page (list_members profiles u w c limit db)) none
      ≡ some (all_members profiles w db)
list_members_complete profiles u w limit db h b m p =
    follow_complete user_id_of user_id_of (λ m. m) (λ m. refl) (suc (length db.members))
      (page_limit limit) (all_members profiles w db)
      (λ c. seen_page (list_members profiles u w c limit db)) (all_members-strict profiles w db h)
      (ground arith) (list_members-page profiles u w limit db b m p)
      (omega (arith, all_members-length profiles w db))
    ∙ ap some (map_same (all_members profiles w db))
