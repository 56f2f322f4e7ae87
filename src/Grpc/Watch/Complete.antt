-- ===== src/Grpc/Watch/Complete.antt =====
-- flowd/src/grpc/mod.rs: what reaches a watcher. The broadcast channel is tokio's: a receiver that does
-- not lag gets each message that was sent after it subscribed, in order.
use flowcontrol.Common.{
  ℕ, zero, suc, ◌<◌, ◌≤◌, ℤ, pos, true, false, String, Option, none, some, List, [], ◌∷◌, ◌++◌, ◌≡◌,
  refl, sym, subst, ap, ◌∙◌, ◌⊎◌, inl, inr, ltb_ℤ, length, map, arith, Among, Among-kept, Among-map,
  AnyOf, AnyOf-right, unwrap_or,
}
use mathlib.Core.List.{append_assoc, append_cancel_left}
use flowcontrol.Error.{ok}
use flowcontrol.Sql.{lift}
use flowcontrol.Store.Queries.{events_since, events_after_locked, to_events}
use flowcontrol.Store.Queries.Paging.{collect_events}
use flowcontrol.Native.{spawn_blocking, on_session, result_of}
use flowcontrol.Native.Methods.{events_after}
use flowcontrol.Schema.{EventRow}
use flowcontrol.Message.{Event}
use flowcontrol.Message.Service.{WatchRequest, WatchResponse}
use flowcontrol.Native.{NativeStore, Notified, returns}
use flowcontrol.Native.Steps.{System, Reach, Reach-trans}
use flowcontrol.Native.Steps.Announced.{
  IsLive, Reach-IsLive, log_of, Announces, Carries, Follows, Reach-Follows,
}
use flowcontrol.Store.Invariant.Rows.{IsSound}
use flowcontrol.Store.Reads.Faithful.{event_message}
use flowcontrol.Grpc.Watch.Live.{Delivers, Shows, same_text, both, stream_shows}
use flowcontrol.Grpc.Watch.{
  after_replay, Wake, stream, replay, replay_events, watch, replay_response,
}

-- The log after a number, from a store whose mutex is not poisoned.
events_after_lem :
    (project : String) (from_seq : ℤ) (s : NativeStore)
    → s.poisoned ≡ false
    → (events_after project from_seq returns s).0
      ≡ ok (map event_message (events_since s.conn.db project from_seq))
unfolding events_after spawn_blocking on_session events_after_locked to_events
events_after_lem project from_seq s q =
    subst
      (λ b.
        (on_session b (events_after_locked project from_seq) s).0
        ≡ ok (map event_message (events_since s.conn.db project from_seq)))
      (sym q)
      (ap result_of
        (ap (λ r. lift r s.conn) (collect_events (events_since s.conn.db project from_seq))))

replay_events_shows :
    (from_seq : ℤ) (x : Event) (l : List Event)
    → Among x l
    → (r : WatchResponse) × (replay_events from_seq (ok l) ≡ some r) × Among x r.events
unfolding replay_events
replay_events_shows from_seq x [] a = absurd a
replay_events_shows from_seq x (e ∷ es) a = (replay_response from_seq (e ∷ es), refl, a)

-- What a client asks for: an event of its project past its number, and it has a number.
pub record IsMissed (req : WatchRequest) (e : EventRow) : Type 0 where
  pub numbered : ltb_ℤ (pos 0) req.from_seq ≡ true
  pub past : ltb_ℤ req.from_seq (pos e.seq) ≡ true

replay-numbered :
    (req : WatchRequest) (s : NativeStore)
    → ltb_ℤ (pos 0) req.from_seq ≡ true
    → replay req returns s
      ≡ replay_events req.from_seq (events_after req.project_id req.from_seq returns s).0
unfolding replay
replay-numbered req s q = rw q refl

replay_shows :
    (req : WatchRequest) (e : EventRow) (s : NativeStore)
    → s.poisoned ≡ false
    → e.project_id ≡ req.project_id
    → IsMissed req e
    → Among e s.conn.db.events
    → (r : WatchResponse) × (replay req returns s ≡ some r) × Shows e r
unfolding replay events_since
replay_shows req e s q p m a =
    let rows = events_since s.conn.db req.project_id req.from_seq in
    let kept =
      Among-map event_message e rows (
        Among-kept _ e s.conn.db.events (both (same_text e.project_id req.project_id p) m.past)
          a) in
    let (r, found, shown) = replay_events_shows req.from_seq (event_message e) _ kept in
    (
      r,
      replay-numbered req s m.numbered
          ∙ ap (replay_events req.from_seq) (events_after_lem req.project_id req.from_seq s q)
          ∙ found,
      shown,
    )

-- What the loop shows whatever the replay took, and what the replay shows.
live_shown :
    (e : EventRow) (o : Option WatchResponse) (room n : ℕ) (rest : ℕ → List WatchResponse)
    → ((k : ℕ) → n ≤ k → AnyOf (Shows e) (rest k))
    → n < room
    → AnyOf (Shows e) (after_replay o room rest)
live_shown e none room n rest f l = f room (omega (arith, l))
live_shown e (some r) zero n rest f l = absurd (omega (arith, l))
live_shown e (some r) (suc room) n rest f l = inr (f room (omega (arith, l)))

replay_shown :
    (e : EventRow) (r : WatchResponse) (o : Option WatchResponse) (room : ℕ)
    (rest : ℕ → List WatchResponse)
    → o ≡ some r
    → 0 < room
    → Shows e r
    → AnyOf (Shows e) (after_replay o room rest)
replay_shown e r none room rest q l h = absurd cc
replay_shown e r (some x) zero rest q l h = absurd (omega (arith, l))
replay_shown e r (some x) (suc room) rest q l h =
    inl (subst (λ (y : Option WatchResponse). Shows e (unwrap_or y r)) (sym q) h)

-- The channel's messages since a moment are the notifications since that moment.
news-eq :
    {log : List EventRow} {sent : List Notified} {s : System} (f : Follows log sent s)
    (ms : List Notified)
    → s.store.sent ≡ sent ++ ms
    → f.news ≡ ms
news-eq {sent} f ms q = append_cancel_left sent f.news ms (sym f.sent_since ∙ q)

-- A client subscribes, its replay is read later, and it takes every response. The rows are sound
-- when it subscribes. Tasks run and publish in any order in between and afterwards, and at the end
-- no mutation waits to be published, the mutex is not poisoned and no transaction is open. If the
-- receiver got all the messages since it subscribed, the client was shown each event of the log that
-- is of its project and past the number that it gave, however many those are, and, whatever number
-- it gave, each that was not in the log when it subscribed.
pub watch-complete :
    (req : WatchRequest) (s t u : System) (ms : List Notified) (wakes : List Wake) (room : ℕ)
    (e : EventRow)
    → IsSound s.store.conn.db
    → Reach s t
    → Reach t u
    → IsLive u
    → u.pending ≡ []
    → u.store.sent ≡ s.store.sent ++ ms
    → Delivers ms wakes
    → length wakes < room
    → e.project_id ≡ req.project_id
    → IsMissed req e ⊎ (¬ Among e (log_of s))
    → Among e u.store.conn.db.events
    → AnyOf (Shows e) (watch req returns t.store room wakes)
unfolding watch
watch-complete req s t u ms wakes room e h r q live idle all d l p missed a = elim missed [
  | inl m ↦
      let open_then = Reach-IsLive q live in
      let first = Reach-Follows r h open_then in
      let then = Reach-Follows q first.sound live in
      let whole =
        then.sent_since
        ∙ ap (λ x. x ++ then.news) first.sent_since
        ∙ append_assoc s.store.sent first.news then.news in
      let ours = append_cancel_left s.store.sent (first.news ++ then.news) ms (sym whole ∙ all) in
      elim (settled then) [
        | inl old ↦
            let (x, found, shown) = replay_shows req e t.store open_then.unpoisoned p m old in
            replay_shown e x (replay req returns t.store) room _ found (omega (arith, l)) shown
        | inr new ↦
            on_stream (
              subst (AnyOf (Announces e)) ours (AnyOf-right (Announces e) first.news then.news new))
      ]
  | inr fresh ↦
      let f = Reach-Follows (Reach-trans r q) h live in
      elim (settled f) [
        | inl old ↦ absurd (fresh old)
        | inr new ↦ on_stream (subst (AnyOf (Announces e)) (news-eq f ms all) new)
      ]
]
  where
    settled :
        {log : List EventRow} {sent : List Notified} (f : Follows log sent u)
        → Among e log ⊎ AnyOf (Announces e) f.news
    settled f = elim (f.known e a) [
      | inl old ↦ inl old
      | inr (inl owes) ↦ absurd (subst (AnyOf (Carries e)) idle owes)
      | inr (inr new) ↦ inr new
    ]

    on_stream :
        AnyOf (Announces e) ms
        → AnyOf (Shows e) (
            after_replay
              (replay req returns t.store)
              room
              (λ room. stream req.project_id room wakes))
    on_stream new =
        live_shown e (replay req returns t.store) room (length wakes) _
          (λ k h.
            subst (λ x. AnyOf (Shows e) (stream x k wakes)) p (stream_shows e ms wakes k d h new))
          l
