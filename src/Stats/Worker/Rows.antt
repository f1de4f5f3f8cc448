-- ===== src/Stats/Worker/Rows.antt =====
-- The rows of the outbox, of which one more is noted.
use mathlib.Core.Path.{sym}
use teri_chat.Prelude.{
  ◌+◌, ◌≡◌, ◌⊎◌, ◌≤◌, ap, refl, ◌∙◌, Bool, true, false, ◌&&◌, ◌||◌, List, [], ◌∷◌, arith, ◌==◌, inl,
  inr, if◌then◌else◌,
}
use teri_chat.Table.{count}
use teri_chat.Table.Each.{All}
use teri_chat.Stats.Schema.{OutboxEvent, event_with}

-- The rows of a table.
abbrev pub In : OutboxEvent → List OutboxEvent → Type 0
In e [] = ⊥
In e (d ∷ rows) = (d ≡ e) ⊎ In e rows

pub All-In :
    (outbox rows : List OutboxEvent)
    → ((e : OutboxEvent) → In e rows → In e outbox)
    → All (λ e. In e outbox) rows
All-In outbox [] h = tt
All-In outbox (e ∷ rows) h = (h e (inl refl), All-In outbox rows (λ d i. h d (inr i)))

pub In-count :
    (e : OutboxEvent) (rows : List OutboxEvent) → In e rows → 1 ≤ count (event_with e.id) rows
unfolding count
In-count e [] i = elim i [ ]
In-count e (d ∷ rows) (inl s) = ground (arith, ap (λ (x : OutboxEvent). x.id) s)
In-count e (d ∷ rows) (inr i) = ground (arith, In-count e rows i)

pub same_row :
    (e d : OutboxEvent) (rows : List OutboxEvent)
    → In e rows
    → In d rows
    → (e.id == d.id) ≡ true
    → count (event_with e.id) rows ≤ 1
    → d ≡ e
unfolding count
same_row e d [] i j s u = elim i [ ]
same_row e d (x ∷ rows) (inl a) (inl b) s u = sym b ∙ a
same_row e d (x ∷ rows) (inl a) (inr j) s u =
    absurd (ground (arith, In-count d rows j, ap (λ (y : OutboxEvent). y.id) a))
same_row e d (x ∷ rows) (inr i) (inl b) s u =
    absurd (ground (arith, In-count e rows i, ap (λ (y : OutboxEvent). y.id) b))
same_row e d (x ∷ rows) (inr i) (inr j) s u = same_row e d rows i j s (ground arith)

pub other_rows :
    (p n : OutboxEvent → Bool) (e : OutboxEvent) (rows : List OutboxEvent)
    → count (event_with e.id) rows ≡ 0
    → count (λ d. p d && (e.id == d.id || n d)) rows ≡ count (λ d. p d && n d) rows
unfolding count
other_rows p n e [] h = refl
other_rows p n e (d ∷ rows) h = ground (arith, other_rows p n e rows)

-- One more row is noted.
pub count_flip :
    (p n : OutboxEvent → Bool) (e : OutboxEvent) (rows : List OutboxEvent)
    → In e rows
    → n e ≡ false
    → count (event_with e.id) rows ≤ 1
    → count (λ d. p d && (e.id == d.id || n d)) rows
      ≡ count (λ d. p d && n d) rows + (if p e then 1 else 0)
unfolding count
count_flip p n e [] i f u = elim i [ ]
count_flip p n e (d ∷ rows) (inl s) f u =
    ground (arith, s, ap p s, ap n s, ap (λ (x : OutboxEvent). x.id) s, other_rows p n e rows)
count_flip p n e (d ∷ rows) (inr i) f u =
    ground (arith, In-count e rows i, count_flip p n e rows i f)

pub count_each :
    (p q r : OutboxEvent → Bool) (rows : List OutboxEvent)
    → All (λ e. q e ≡ false → p e ≡ r e) rows
    → count q rows ≡ 0
    → count p rows ≡ count r rows
unfolding count
count_each p q r [] h z = refl
count_each p q r (e ∷ rows) h z = ground (arith, h.0 (ground arith), count_each p q r rows h.1)
