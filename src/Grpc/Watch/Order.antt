-- ===== src/Grpc/Watch/Order.antt =====
-- flowd/src/grpc/mod.rs: the order of what `watch` sends, and how its stream ends.
use flowcontrol.Common.{
  ℕ, zero, suc, ◌<◌, ◌≤◌, Bool, not, String, Option, none, some, List, [], ◌∷◌, ◌++◌, ◌≡◌, refl,
  sym, ap, ◌==◌, length, map, keep_if, arith, Bool-cases, inl, inr, ◌∙◌,
}
use flowcontrol.Message.Service.{WatchRequest, WatchResponse}
use flowcontrol.Native.{NativeStore, Notified, Fate}
use flowcontrol.Grpc.Watch.{
  lagged, Wake, recv, turn, on_received, stream, replay, watch, live_response, heartbeat_response,
  resync_response, after_replay,
}
use flowcontrol.Grpc.Watch.Live.{Delivers, nothing, ticked, received, stream-send, stream-skip}

abbrev pub is_live : WatchResponse → Bool
is_live r = not r.heartbeat

-- A client that takes every response is sent the notifications of its project, each once, in the order
-- in which they were sent on the channel, and else heartbeats only.
pub stream-order :
    (project : String) (ms : List Notified) (ws : List Wake) (room : ℕ)
    → Delivers ms ws
    → length ws ≤ room
    → keep_if is_live (stream project room ws)
      ≡ map live_response (keep_if (λ (m : Notified). m.project_id == project) ms)
unfolding stream turn
stream-order project _ _ room nothing l = refl
stream-order project _ _ zero (ticked d) l = absurd (omega (arith, l))
stream-order project _ _ (suc room) (ticked d) l =
    stream-order project _ _ room d (omega (arith, l))
stream-order project _ _ zero (received m d) l = absurd (omega (arith, l))
stream-order project _ (_ ∷ ws) (suc room) (received m d) l =
    elim (Bool-cases (m.project_id == project)) [
      | inl q ↦
          ap (keep_if is_live) (stream-send project m room ws q)
          ∙ rw q
              (ap (λ x. live_response m ∷ x) (stream-order project _ _ room d (omega (arith, l))))
      | inr q ↦
          ap (keep_if is_live) (stream-skip project m room ws q)
          ∙ rw q (stream-order project _ _ (suc room) d (omega (arith, l)))
    ]

-- A lag after some wakes: the last response asks for a resync.
stream-lagged :
    (project : String) (ms : List Notified) (ws rest : List Wake) (n room : ℕ)
    → Delivers ms ws
    → length ws < room
    → stream project room (ws ++ recv (lagged n) ∷ rest)
      ≡ stream project room ws ++ resync_response ∷ []
unfolding stream turn on_received
stream-lagged project _ _ rest n zero d l = absurd (omega (arith, l))
stream-lagged project _ _ rest n (suc room) nothing l = refl
stream-lagged project _ _ rest n (suc room) (ticked d) l =
    ap (λ x. heartbeat_response ∷ x) (stream-lagged project _ _ rest n room d (omega (arith, l)))
stream-lagged project _ (_ ∷ ws) rest n (suc room) (received m d) l =
    elim (Bool-cases (m.project_id == project)) [
      | inl q ↦
          stream-send project m room (ws ++ recv (lagged n) ∷ rest) q
          ∙ ap (λ x. live_response m ∷ x)
              (stream-lagged project _ ws rest n room d (omega (arith, l)))
          ∙ ap (λ x. x ++ resync_response ∷ []) (sym (stream-send project m room ws q))
      | inr q ↦
          stream-skip project m room (ws ++ recv (lagged n) ∷ rest) q
          ∙ stream-lagged project _ ws rest n (suc room) d (omega (arith, l))
          ∙ ap (λ x. x ++ resync_response ∷ []) (sym (stream-skip project m room ws q))
    ]

after_replay-append :
    (o : Option WatchResponse) (room n : ℕ) (f g : ℕ → List WatchResponse) (last : WatchResponse)
    → ((k : ℕ) → n < k → f k ≡ g k ++ last ∷ [])
    → suc n < room
    → after_replay o room f ≡ after_replay o room g ++ last ∷ []
after_replay-append none room n f g last h l = h room (omega (arith, l))
after_replay-append (some r) zero n f g last h l = absurd (omega (arith, l))
after_replay-append (some r) (suc room) n f g last h l = ap (λ x. r ∷ x) (h room (omega (arith, l)))

-- When the receiver has lagged, a client that takes every response is sent what the wakes before gave,
-- then one response that asks for a resync, and nothing after it.
pub watch-lagged :
    (req : WatchRequest) (fate : Fate) (s : NativeStore) (ms : List Notified) (ws rest : List Wake)
    (n room : ℕ)
    → Delivers ms ws
    → suc (length ws) < room
    → watch req fate s room (ws ++ recv (lagged n) ∷ rest)
      ≡ watch req fate s room ws ++ resync_response ∷ []
unfolding watch
watch-lagged req fate s ms ws rest n room d l =
    after_replay-append (replay req fate s) room (length ws) _ _ resync_response
      (λ k h. stream-lagged req.project_id ms ws rest n k d h) l
