-- ===== src/Grpc/Watch/Live.antt =====
-- flowd/src/grpc/mod.rs: the live part of `watch`. The broadcast channel is tokio's: a receiver that
-- does not lag gets each message that was sent after it subscribed, in order.
use flowcontrol.Common.{
  ℕ, zero, suc, ◌≤◌, Bool, true, false, ◌&&◌, String, List, [], ◌∷◌, ◌≡◌, refl, sym, subst, inl,
  inr, ◌==◌, length, arith, Among, AnyOf, Bool-cases, eq_refl,
}
use flowcontrol.Schema.{EventRow}
use flowcontrol.Message.Service.{WatchResponse}
use flowcontrol.Native.{Notified}
use flowcontrol.Native.Steps.Announced.{Announces}
use flowcontrol.Store.Reads.Faithful.{event_message}
use flowcontrol.Grpc.Watch.{message, Wake, tick, recv, turn, stream, on_received, live_response}

-- The wakes of a receiver that gets the messages, with ticks between them.
pub data Delivers : List Notified → List Wake → Type 0 where
  nothing : Delivers [] []
  ticked : {ms : List Notified} {ws : List Wake} → Delivers ms ws → Delivers ms (tick ∷ ws)
  received :
      (m : Notified) {ms : List Notified} {ws : List Wake}
      → Delivers ms ws
      → Delivers (m ∷ ms) (recv (message m) ∷ ws)

-- A response has the event.
abbrev pub Shows : EventRow → WatchResponse → Type 0
Shows e r = Among (event_message e) r.events

pub same_text : (a b : String) → a ≡ b → (a == b) ≡ true
same_text a b q = subst (λ x. (a == x) ≡ true) q (eq_refl a)

pub stream-send :
    (project : String) (m : Notified) (room : ℕ) (ws : List Wake)
    → (m.project_id == project) ≡ true
    → stream project (suc room) (recv (message m) ∷ ws) ≡ live_response m ∷ stream project room ws
unfolding stream turn on_received
stream-send project m room ws q = rw (stream, q) refl

pub stream-skip :
    (project : String) (m : Notified) (room : ℕ) (ws : List Wake)
    → (m.project_id == project) ≡ false
    → stream project (suc room) (recv (message m) ∷ ws) ≡ stream project (suc room) ws
unfolding stream turn on_received
stream-skip project m room ws q = rw (stream, q) refl

module _ (e : EventRow) where
  sent :
      (m : Notified) (ms : List Notified) (rest : List WatchResponse)
      → (AnyOf (Announces e) ms → AnyOf (Shows e) rest)
      → AnyOf (Announces e) (m ∷ ms)
      → AnyOf (Shows e) (live_response m ∷ rest)
  sent m ms rest f (inl h) = inl h.1
  sent m ms rest f (inr h) = inr (f h)

  other :
      (m : Notified) (ms : List Notified)
      → (m.project_id == e.project_id) ≡ false
      → AnyOf (Announces e) (m ∷ ms)
      → AnyOf (Announces e) ms
  other m ms q (inl h) = cc (same_text m.project_id e.project_id h.0)
  other m ms q (inr h) = h

  -- A client that takes every response gets each event that is announced to its project.
  pub stream_shows :
      (ms : List Notified) (ws : List Wake) (room : ℕ)
      → Delivers ms ws
      → length ws ≤ room
      → AnyOf (Announces e) ms
      → AnyOf (Shows e) (stream e.project_id room ws)
  unfolding stream turn
  stream_shows _ _ room nothing l a = absurd a
  stream_shows _ _ zero (ticked d) l a = absurd (omega (arith, l))
  stream_shows _ _ (suc room) (ticked d) l a = inr (stream_shows _ _ room d (omega (arith, l)) a)
  stream_shows _ _ zero (received m d) l a = absurd (omega (arith, l))
  stream_shows _ (_ ∷ ws) (suc room) (received m d) l a =
      elim (Bool-cases (m.project_id == e.project_id)) [
        | inl q ↦
            subst (AnyOf (Shows e)) (sym (stream-send e.project_id m room ws q))
              (sent m _ _ (stream_shows _ ws room d (omega (arith, l))) a)
        | inr q ↦
            subst (AnyOf (Shows e)) (sym (stream-skip e.project_id m room ws q))
              (stream_shows _ ws (suc room) d (omega (arith, l)) (other m _ q a))
      ]

pub both : {a b : Bool} → a ≡ true → b ≡ true → (a && b) ≡ true
both p q = rw (p, q) refl
