-- ===== src/Gateway/Pump/Resume.antt =====
-- A client that resumes gets every event that it missed and may read.
use mathlib.Core.Path.{sym, subst}
use teri_chat.Prelude.{
  ℕ, ◌≡◌, ◌∙◌, ap, refl, true, false, ◌||◌, Option, none, some, List, [], ◌∷◌, map, arith, length,
  Option-cases, inl, inr,
}
use teri_chat.Table.{exists}
use teri_chat.Messaging.Schema.{OutboxEntry, StoredEvent}
use teri_chat.Messaging.Outbox.{entry_of}
use teri_chat.Messaging.Conversations.{contains}
use teri_chat.Gateway.Schema.{World, AuthSession, ready}
use teri_chat.Gateway.Visibility.{session_live}
use teri_chat.Gateway.Replay.{Replay, next, newest, replay_from}
use teri_chat.Gateway.Replay.Pages.{todo, UniqueIds, ahead, upcoming}
use teri_chat.Gateway.Replay.Catchup.{Advances, next-Advances}
use teri_chat.Gateway.Replay.Complete.{ahead-none, ahead-within, length-map}
use teri_chat.Gateway.Pump.{Connection, HubItem, delivery, turn, run, fresh_connection}
use teri_chat.Gateway.Pump.Dedup.{Cached, event_ids, turn-Cached, no_repeat}
use teri_chat.Gateway.Pump.Deliveries.{calm, readable, deliveries, split_first, handled, delivered}

ap2_todo :
    (w : World) (m : ℕ) (s s' : AuthSession) (r r' : Replay)
    → s' ≡ s
    → r' ≡ r
    → todo s'.user_id w.messages m r' ≡ todo s.user_id w.messages m r
ap2_todo w m s s' r r' e f = ground (arith, e, f)

replayed :
    (w : World) (items : List HubItem) (m i : ℕ) (es : List OutboxEntry) (c : Connection)
    → session_live true c.session w ≡ true
    → UniqueIds w.messages
    → Cached c
    → c.replay.ceiling ≡ some m
    → c.replay.done ≡ false
    → todo c.session.user_id w.messages m c.replay ≡ es
    → length items ≡ length es
    → (exists (readable w c.session.user_id i) es || contains i (event_ids c.frames)) ≡ true
    → (c' : Connection) × (run (deliveries w items) c ≡ some c')
      × (contains i (event_ids c'.frames) ≡ true)
unfolding run exists
replayed w [] m i [] c l h k e d q n s = (c, refl, s)
replayed w [] m i (x ∷ es) c l h k e d q n s = absurd (omega arith)
replayed w (item ∷ items) m i [] c l h k e d q n s = absurd (omega arith)
replayed w (item ∷ items) m i (x ∷ es) c l h k e d q n s =
    let a =
      subst
        (λ ps.
          Advances c.session.user_id w.messages m c.replay.done ps
            (next c.session.user_id w.messages c.replay))
        q (next-Advances c.session.user_id w.messages m c.replay h e) in
    let b : Connection = record c { replay = (next c.session.user_id w.messages c.replay).1 } in
    let r = handled w x b l (record { cache = k.cache; distinct = k.distinct }) in
    let t : turn (delivery item (calm w)) c ≡ some r.0 = delivered w item x c d a.0 ∙ r.1 in
    let later =
      replayed w items m i es r.0 (subst (λ z. session_live true z w ≡ true) (sym r.2) l) h
        (turn-Cached (delivery item (calm w)) c r.0 t k) (ap (λ (z : Replay). z.ceiling) r.3 ∙ a.1)
        (ap (λ (z : Replay). z.done) r.3 ∙ (a.3 ∙ d))
        (ap2_todo w m c.session r.0.session b.replay r.0.replay r.2 r.3 ∙ a.2) (omega arith)
        (subst
          (λ (z : AuthSession).
            (exists (readable w z.user_id i) es || contains i (event_ids r.0.frames)) ≡ true)
          (sym r.2)
          (split_first (readable w c.session.user_id i x)
            (exists (readable w c.session.user_id i) es) (contains i (event_ids c.frames))
            (contains i (event_ids r.0.frames)) (r.4 i) s)) in
    (
      later.0,
      ap (λ (o : Option Connection). elim o [ none ↦ none | some c' ↦ run (deliveries w items) c' ])
            t
          ∙ later.1,
      later.2,
    )

exists-map-readable :
    (w : World) (u i : ℕ) (rows : List StoredEvent)
    → exists (readable w u i) (map entry_of rows) ≡ exists (λ e. readable w u i (entry_of e)) rows
unfolding exists
exists-map-readable w u i [] = refl
exists-map-readable w u i (e ∷ rows) = ground (arith, exists-map-readable w u i rows)

no_row :
    (w : World) (u i : ℕ) (rows : List StoredEvent)
    → rows ≡ []
    → exists (λ e. readable w u i (entry_of e)) rows ≡ true
    → ⊥
unfolding exists
no_row w u i [] e h = ground arith
no_row w u i (x ∷ rows) e h = ground arith

readable_first :
    (w : World) (u i session_id : ℕ) (es : List OutboxEntry)
    → exists (readable w u i) es ≡ true
    → (exists (readable w u i) es || contains i (event_ids (ready session_id u ∷ []))) ≡ true
readable_first w u i session_id es h =
    ap (λ b. b || contains i (event_ids (ready session_id u ∷ []))) h

pub fresh-Cached :
    (session : AuthSession) (session_id : ℕ) (r : Replay)
    → Cached (fresh_connection session session_id r)
unfolding event_ids no_repeat
fresh-Cached session session_id r = record { cache = refl; distinct = refl }

-- While the database stands still, with unique ids in the outbox, a live session and answers in
-- time, a connection that resumes after a cursor has sent an event of the user's conversations
-- beyond the cursor, if the user may read it, after as many deliveries as there are such events.
-- The hub plays no part.
pub run-resumes :
    (session : AuthSession) (session_id : ℕ) (cursor : Option ℕ) (w : World) (items : List HubItem)
    (i : ℕ)
    → session_live true session w ≡ true
    → UniqueIds w.messages
    → length items ≡ length (ahead session.user_id w.messages cursor)
    → exists
        (λ e. readable w session.user_id i (entry_of e))
        (ahead session.user_id w.messages cursor)
      ≡ true
    → (c : Connection) × (run
          (deliveries w items)
          (fresh_connection session session_id (replay_from cursor (newest w.messages.outbox)))
        ≡ some c)
      × (contains i (event_ids c.frames) ≡ true)
run-resumes session session_id cursor w items i l h n r =
    elim (Option-cases (newest w.messages.outbox)) [
      | inl none_left ↦ absurd (
          no_row w session.user_id i (ahead session.user_id w.messages cursor)
            (ahead-none session.user_id w.messages cursor none_left) r)
      | inr (m, top) ↦
          subst
            (λ o.
              (c : Connection) × (run (deliveries w items)
                  (fresh_connection session session_id (replay_from cursor o))
                ≡ some c)
              × (contains i (event_ids c.frames) ≡ true))
            (sym top)
            (replayed w items m i (upcoming session.user_id w.messages m cursor)
              (fresh_connection session session_id (replay_from cursor (some m))) l h
              (fresh-Cached session session_id (replay_from cursor (some m))) refl refl refl
              (ground (
                arith,
                n,
                ahead-within session.user_id w.messages cursor m top,
                length-map entry_of (ahead session.user_id w.messages cursor),
              ))
              (readable_first w session.user_id i session_id
                (upcoming session.user_id w.messages m cursor)
                (ap (exists (readable w session.user_id i))
                    (ahead-within session.user_id w.messages cursor m top)
                  ∙ (exists-map-readable w session.user_id i
                        (ahead session.user_id w.messages cursor)
                      ∙ r))))
    ]
