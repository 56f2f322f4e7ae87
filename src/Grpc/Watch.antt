-- ===== src/Grpc/Watch.antt =====
-- flowd/src/grpc/mod.rs: `watch`. The task first replays the log from the client's number, then turns
-- once for each wake: a tick of the interval, or the end of a `recv` on the broadcast channel. Which
-- branch of the `select!` wakes it is tokio's choice, so the wakes are a parameter, as is the number of
-- responses that the client takes before it hangs up.
pub mod Live
pub mod Complete
pub mod Order
use flowcontrol.Common.{
  ℕ, zero, suc, ℤ, pos, Bool, true, false, String, Option, none, some, List, [], ◌∷◌, ◌==◌, ltb,
  ltb_ℤ, length, last?, if◌then◌else◌,
}
use flowcontrol.Error.{DResult, ok, err}
use flowcontrol.Message.{Event}
use flowcontrol.Message.Service.{WatchRequest, WatchResponse}
use flowcontrol.Native.{Notified, NativeStore, Fate}
use flowcontrol.Native.Methods.{events_after}

-- `rx.recv()`: a message, or the two errors of a broadcast receiver.
pub data Received : Type 0 where
  message : Notified → Received
  lagged : ℕ → Received
  closed : Received

pub data Wake : Type 0 where
  tick : Wake
  recv : Received → Wake

-- What a turn does: send and go on if the client took it, go on, send and end, or end.
pub data Turn : Type 0 where
  send : WatchResponse → Turn
  skip : Turn
  send_last : WatchResponse → Turn
  stop : Turn

abbrev pub heartbeat_response : WatchResponse
heartbeat_response = record {
  events = [];
  changed_nodes = [];
  changed_progress = [];
  seq = pos 0;
  resync_required = false;
  heartbeat = true;
}

abbrev pub resync_response : WatchResponse
resync_response = record {
  events = [];
  changed_nodes = [];
  changed_progress = [];
  seq = pos 0;
  resync_required = true;
  heartbeat = false;
}

abbrev pub live_response : Notified → WatchResponse
live_response m = record {
  events = m.events;
  changed_nodes = m.changed_nodes;
  changed_progress = m.changed_progress;
  seq = m.seq;
  resync_required = false;
  heartbeat = false;
}

-- The match on what was received.
unfoldable pub on_received : String → Received → Turn
on_received project (message m) = if m.project_id == project then send (live_response m) else skip
on_received project (lagged n) = send_last resync_response
on_received project closed = stop

unfoldable pub turn : String → Wake → Turn
unfolding on_received
turn project tick = send heartbeat_response
turn project (recv r) = on_received project r

-- The loop, to the responses that the client takes: `room` more. A send past that fails.
unfoldable pub stream : String → ℕ → List Wake → List WatchResponse
unfolding turn
stream project room [] = []
stream project zero (w ∷ ws) = elim (turn project w) [ skip ↦ stream project zero ws | _ ↦ [] ]
stream project (suc room) (w ∷ ws) = elim (turn project w) [
  | send r ↦ r ∷ stream project room ws
  | skip ↦ stream project (suc room) ws
  | send_last r ↦ r ∷ []
  | stop ↦ []
]

abbrev pub replay_limit : ℕ
replay_limit = 1000

abbrev pub seq_after : ℤ → Option Event → ℤ
seq_after from_seq none = from_seq
seq_after from_seq (some e) = e.seq

abbrev pub replay_response : ℤ → List Event → WatchResponse
replay_response from_seq events = record {
  events = events;
  changed_nodes = [];
  changed_progress = [];
  seq = seq_after from_seq (last? events);
  resync_required = ltb replay_limit (length events);
  heartbeat = false;
}

-- `if let Ok(events)`, and nothing for an empty list: an error is dropped.
unfoldable pub replay_events : ℤ → DResult (List Event) → Option WatchResponse
replay_events from_seq (ok []) = none
replay_events from_seq (ok (e ∷ es)) = some (replay_response from_seq (e ∷ es))
replay_events from_seq (err e) = none

-- The replay, read from the store as it is when the task starts.
unfoldable pub replay : WatchRequest → Fate → NativeStore → Option WatchResponse
unfolding replay_events events_after
replay req fate s =
    if ltb_ℤ (pos 0) req.from_seq
    then replay_events req.from_seq (events_after req.project_id req.from_seq fate s).0
    else none

-- The outcome of the replay's send is dropped: a client that takes nothing is noticed in the loop.
abbrev pub after_replay : Option WatchResponse → ℕ → (ℕ → List WatchResponse) → List WatchResponse
after_replay none room rest = rest room
after_replay (some r) zero rest = rest zero
after_replay (some r) (suc room) rest = r ∷ rest room

unfoldable pub watch : WatchRequest → Fate → NativeStore → ℕ → List Wake → List WatchResponse
unfolding replay stream
watch req fate s room wakes =
    after_replay (replay req fate s) room (λ room. stream req.project_id room wakes)
