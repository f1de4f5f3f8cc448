-- ===== src/Gateway/Pump/Dedup.antt =====
-- The cache of sent ids: no event is sent twice within its length.
use mathlib.Core.Path.{sym, subst}
use teri_chat.Prelude.{
  leb, ℕ, ◌≡◌, ◌∙◌, ap, refl, zero, suc, Bool, true, false, not, ◌&&◌, some, List, [], ◌∷◌, arith,
  ◌==◌, length, take, if◌then◌else◌, Option-cases, inl, inr,
}
use teri_chat.Messaging.Conversations.{contains}
use teri_chat.Gateway.Schema.{ServerFrame, ready, heartbeat_ack, fault, typing, event}
use teri_chat.Gateway.Pump.{Connection, Io, Turn, turn, run, push_seen, seen_entries}
use teri_chat.Gateway.Pump.Safety.{io_of, permitted, remembered, turn-Sends}

-- The ids of the events that were sent, newest first.
unfoldable pub event_ids : List ServerFrame → List ℕ
event_ids [] = []
event_ids (event entry ∷ frames) = entry.id ∷ event_ids frames
event_ids (ready session_id user_id ∷ frames) = event_ids frames
event_ids (heartbeat_ack seq ∷ frames) = event_ids frames
event_ids (fault code ∷ frames) = event_ids frames
event_ids (typing conversation user_id last_seq ∷ frames) = event_ids frames

-- No id is among the `n` before it.
unfoldable pub no_repeat : ℕ → List ℕ → Bool
no_repeat n [] = true
no_repeat n (i ∷ ids) = not (contains i (take n ids)) && no_repeat n ids

pub record Cached (c : Connection) : Type 0 where
  pub cache : c.seen ≡ take seen_entries (event_ids c.frames)
  pub distinct : no_repeat seen_entries (event_ids c.frames) ≡ true

length-take :
    (n : ℕ) (xs : List ℕ) → length (take n xs) ≡ (if leb n (length xs) then n else length xs)
length-take zero xs = ground arith
length-take (suc n) [] = ground arith
length-take (suc n) (x ∷ xs) = ground (arith, length-take n xs)

take-take : (n : ℕ) (xs : List ℕ) → take n (take (suc n) xs) ≡ take n xs
take-take zero xs = refl
take-take (suc n) [] = refl
take-take (suc n) (x ∷ xs) = ap (λ ys. x ∷ ys) (take-take n xs)

take_short : (n : ℕ) (xs : List ℕ) → leb (suc n) (length xs) ≡ false → take (suc n) xs ≡ take n xs
take_short zero [] h = refl
take_short zero (x ∷ xs) h = absurd (ground arith)
take_short (suc n) [] h = refl
take_short (suc n) (x ∷ xs) h = ap (λ ys. x ∷ ys) (take_short n xs (ground arith))

-- To push on a full cache drops its oldest id.
push-take :
    (n i : ℕ) (ids : List ℕ)
    → i
        ∷ (if length (take (suc n) ids) == suc n
            then take n (take (suc n) ids)
            else take (suc n) ids)
      ≡ i ∷ take n ids
push-take n i ids = ground (arith, length-take (suc n) ids, take-take n ids, take_short n ids)

push_seen-take :
    (i : ℕ) (ids : List ℕ) → push_seen i (take seen_entries ids) ≡ take seen_entries (i ∷ ids)
unfolding push_seen
push_seen-take i ids = push-take 1023 i ids

repeat_free :
    (n i : ℕ) (seen ids : List ℕ)
    → seen ≡ take n ids
    → contains i seen ≡ false
    → no_repeat n ids ≡ true
    → (not (contains i (take n ids)) && no_repeat n ids) ≡ true
repeat_free n i seen ids e c h = ground arith

frame-Cached :
    (io : Io) (c c' : Connection) (frame : ServerFrame)
    → c'.frames ≡ frame ∷ c.frames
    → permitted io c frame ≡ true
    → c'.seen ≡ remembered frame c.seen
    → Cached c
    → Cached c'
unfolding event_ids no_repeat permitted
frame-Cached io c c' (event entry) f p s k = record {
  cache =
      s
      ∙ (ap (push_seen entry.id) k.cache
          ∙ (push_seen-take entry.id (event_ids c.frames)
              ∙ ap (λ frames. take seen_entries (event_ids frames)) (sym f)));
  distinct =
      ap (λ frames. no_repeat seen_entries (event_ids frames)) f
      ∙ repeat_free seen_entries entry.id c.seen (event_ids c.frames) k.cache (ground arith)
          k.distinct;
}
frame-Cached io c c' (ready session_id user_id) f p s k = absurd (ground arith)
frame-Cached io c c' (heartbeat_ack seq) f p s k = record {
  cache = s ∙ (k.cache ∙ ap (λ frames. take seen_entries (event_ids frames)) (sym f));
  distinct = ap (λ frames. no_repeat seen_entries (event_ids frames)) f ∙ k.distinct;
}
frame-Cached io c c' (fault code) f p s k = record {
  cache = s ∙ (k.cache ∙ ap (λ frames. take seen_entries (event_ids frames)) (sym f));
  distinct = ap (λ frames. no_repeat seen_entries (event_ids frames)) f ∙ k.distinct;
}
frame-Cached io c c' (typing conversation user_id last_seq) f p s k = record {
  cache = s ∙ (k.cache ∙ ap (λ frames. take seen_entries (event_ids frames)) (sym f));
  distinct = ap (λ frames. no_repeat seen_entries (event_ids frames)) f ∙ k.distinct;
}

pub turn-Cached : (t : Turn) (c c' : Connection) → turn t c ≡ some c' → Cached c → Cached c'
turn-Cached t c c' h k = elim (turn-Sends t c c' h).1 [
  | inl (f, s) ↦ record {
    cache = s ∙ (k.cache ∙ ap (λ frames. take seen_entries (event_ids frames)) (sym f));
    distinct = ap (λ frames. no_repeat seen_entries (event_ids frames)) f ∙ k.distinct;
  }
  | inr (frame, f, p, s) ↦ frame-Cached (io_of t) c c' frame f p s k
]

-- Whatever turns a connection has, from a state whose cache has the last 1024 ids of the events
-- that were sent and in which no event was sent twice within 1024, it comes only to such states.
pub run-Cached :
    (turns : List Turn) (c c' : Connection) → run turns c ≡ some c' → Cached c → Cached c'
unfolding run
run-Cached [] c c' h k = subst Cached (ground arith) k
run-Cached (t ∷ turns) c c' h k = elim (Option-cases (turn t c)) [
  | inl e ↦ absurd (ground arith)
  | inr (b, e) ↦ run-Cached turns b c' (ground arith) (turn-Cached t c b e k)
]
