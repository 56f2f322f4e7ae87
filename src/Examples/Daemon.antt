-- ===== src/Examples/Daemon.antt =====
-- The daemon on the small plan: a comment is written while a client watches.
use flowcontrol.Common.{
  arith, refl, ◌++◌, pos, false, String, List, [], ◌∷◌, ◌≡◌, inl, keep_if, map, ◌==◌, ◌⊎◌, Among,
  AnyOf, none,
}
use flowcontrol.Message.{Mutation}
use flowcontrol.Message.Service.{WatchRequest}
use flowcontrol.Schema.{EventRow}
use flowcontrol.Store.Reports.{add_comment_locked}
use flowcontrol.Statement.Events.{insert_event}
use flowcontrol.Native.{Notified, returns, publish, notified}
use flowcontrol.Native.Steps.{System, serve_task, Reach, here, next, task, tell}
use flowcontrol.Native.Steps.Announced.{IsLive, Follows, Reach-Follows, log_of}
use flowcontrol.Store.Dispatch.{Request, add_comment, dispatch, mutation}
use flowcontrol.Examples.Samples.{sample_host, sample_db, sample_event, sample_db-IsSound}
use flowcontrol.Grpc.Watch.{
  Wake, tick, recv, message, lagged, watch, stream, live_response, resync_response,
}
use flowcontrol.Grpc.Watch.Live.{Delivers, nothing, ticked, received, Shows}
use flowcontrol.Grpc.Watch.Order.{is_live, stream-order, watch-lagged}
use flowcontrol.Grpc.Agrees.{Agrees, live, unary, unary-Agrees}
use flowcontrol.Store.Told.{Of}
use flowcontrol.Store.Told.Requests.{told_of, dispatch-tells}
use flowcontrol.Store.Reads.Faithful.{event_message}
use flowcontrol.Grpc.Watch.Complete.{watch-complete}

abbrev idle_daemon : System
idle_daemon = record {
  store = record { conn = record { db = sample_db; saved = none }; poisoned = false; sent = [] };
  pending = [];
}

abbrev comment : Request
comment = add_comment (record { meta = none; node_id = "t1"; text = "on it" })

abbrev commented : System
unfolding serve_task
commented = serve_task returns sample_host comment idle_daemon

abbrev first_pending : List Mutation → Mutation
first_pending [] = record { events = []; changed_nodes = []; changed_progress = []; seq = pos 0 }
first_pending (m ∷ ms) = m

abbrev written : Mutation
written = first_pending commented.pending

abbrev published : System
published = record { store = publish written commented.store; pending = [] }

history : Reach idle_daemon published
unfolding serve_task publish add_comment_locked insert_event
history =
    next (next here (task returns sample_host comment idle_daemon))
      (tell commented.store [] written [])

published-IsLive : IsLive published
unfolding serve_task publish add_comment_locked insert_event
published-IsLive = record { unpoisoned = refl; closed = refl }

Reach-Follows_example : Follows (log_of idle_daemon) [] published
Reach-Follows_example = Reach-Follows history sample_db-IsSound published-IsLive

abbrev watcher : WatchRequest
watcher = record { project_id = "prj"; from_seq = pos 1 }

abbrev messages : List Notified
messages = notified written written.events

abbrev wakes : List Notified → List Wake
wakes [] = tick ∷ []
wakes (m ∷ ms) = recv (message m) ∷ wakes ms

wakes-Delivers : (ms : List Notified) → Delivers ms (wakes ms)
wakes-Delivers [] = ticked nothing
wakes-Delivers (m ∷ ms) = received m (wakes-Delivers ms)

watch-complete_example :
    AnyOf (Shows sample_event) (watch watcher returns idle_daemon.store 9 (wakes messages))
unfolding publish serve_task add_comment_locked insert_event
watch-complete_example =
    watch-complete watcher idle_daemon idle_daemon published messages (wakes messages) 9
      sample_event sample_db-IsSound here history published-IsLive refl refl
      (wakes-Delivers messages) (omega arith) refl (inl (record { numbered = refl; past = refl }))
      (inl refl)

stream-order_example :
    keep_if is_live (stream "prj" 9 (wakes messages))
    ≡ map live_response (keep_if (λ (m : Notified). m.project_id == "prj") messages)
unfolding publish serve_task add_comment_locked insert_event
stream-order_example =
    stream-order "prj" messages (wakes messages) 9 (wakes-Delivers messages) (omega arith)

watch-lagged_example :
    watch watcher returns idle_daemon.store 9 (wakes [] ++ recv (lagged 4) ∷ tick ∷ [])
    ≡ watch watcher returns idle_daemon.store 9 (wakes []) ++ resync_response ∷ []
watch-lagged_example =
    watch-lagged watcher returns idle_daemon.store [] (wakes []) (tick ∷ []) 4 9 (wakes-Delivers [])
      (omega arith)

unary-Agrees_example :
    Agrees []
      (unary sample_host comment returns (live idle_daemon.store.conn []))
      (dispatch sample_host comment idle_daemon.store.conn)
unary-Agrees_example = unary-Agrees sample_host comment idle_daemon.store.conn []

dispatch-tells_example :
    ((p : String) × Of p (told_of (mutation written)))
    × ((e : EventRow)
        → Among e commented.store.conn.db.events
        → Among e sample_db.events ⊎ Among (event_message e) (told_of (mutation written)))
unfolding serve_task dispatch add_comment_locked insert_event
dispatch-tells_example =
    dispatch-tells sample_host comment idle_daemon.store.conn commented.store.conn
      (mutation written) refl refl
