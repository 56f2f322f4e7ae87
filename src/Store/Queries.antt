-- ===== src/Store/Queries.antt =====
-- flowcore/src/store.rs: the read operations. Rows of `events` stand in the order of `seq`, the key of
-- the table; a SELECT with no ORDER BY is taken in the order of insertion.
pub mod Paging
pub mod Listing
use flowcontrol.Common.{
  ℕ, ℤ, pos, negsuc, Bool, false, not, ◌&&◌, ◌||◌, String, Option, none, some, List, [], ◌∷◌, ◌==◌,
  map, if◌then◌else◌, keep_if, take, length, ltb, leb, eqb_ℤ, ltb_ℤ, ◌+ℤ◌, wrap_i32, last?, is_some,
}
use mathlib.Core.List.{reverse}
use flowcontrol.Schema.{ProjectRow, NodeRow, DependencyRow, EventRow, Db, Host}
use flowcontrol.Schema.Checks.{node_at}
use flowcontrol.Sql.{◌>>=◌, pure, lift}
use flowcontrol.Message.{Project, Node, Dependency, Event, GetSnapshotResponse, PollChangesResponse}
use flowcontrol.Statement.{Session, reads}
use flowcontrol.Store.Rows.{
  project_cells, row_to_project, node_cells, row_to_node, event_cells, proto_event, collect,
}
use flowcontrol.Store.Reads.{verification_for, fetch_project}
use flowcontrol.Store.Progress.{progress_for}

-- ORDER BY created_at: insertion of each row behind those that are not later.
unfoldable pub insert_by_created : ProjectRow → List ProjectRow → List ProjectRow
insert_by_created p [] = p ∷ []
insert_by_created p (q ∷ qs) =
    let rest = insert_by_created p qs in
    if leb p.created_at q.created_at then p ∷ q ∷ qs else q ∷ rest

unfoldable pub order_by_created : List ProjectRow → List ProjectRow
unfolding insert_by_created
order_by_created [] = []
order_by_created (p ∷ ps) = insert_by_created p (order_by_created ps)

-- WHERE ?1 = 1 OR archived_at IS NULL
unfoldable pub list_projects_locked : Bool → Session (List Project)
unfolding order_by_created collect project_cells row_to_project
list_projects_locked include_archived = do
  rows ← reads (λ (d : Db).
      order_by_created
        (keep_if (λ (p : ProjectRow). include_archived || not (is_some p.archived_at)) d.projects))
  lift (collect (λ p. row_to_project (project_cells p)) rows)

-- The loop that fills in the verifications.
unfoldable pub with_verifications : List Node → Session (List Node)
unfolding verification_for
with_verifications [] = pure []
with_verifications (n ∷ ns) = do
  v ← verification_for n.id
  rest ← with_verifications ns
  pure (record n { verification = v } ∷ rest)

-- LIMIT n, where a negative number is no limit.
unfoldable pub limited {ℓ} : {A : Type ℓ} → ℤ → List A → List A
limited (pos n) rows = take n rows
limited (negsuc n) rows = rows

-- FROM events WHERE project_id = ?1 AND seq > ?2 ORDER BY seq ASC
unfoldable pub events_since : Db → String → ℤ → List EventRow
events_since d project after =
    keep_if (λ (e : EventRow). e.project_id == project && ltb_ℤ after (pos e.seq)) d.events

unfoldable pub to_events : List EventRow → Session (List Event)
unfolding collect event_cells proto_event
to_events rows = lift (collect (λ e. proto_event (event_cells e)) rows)

unfoldable pub events_after_locked : String → ℤ → Session (List Event)
unfolding events_since to_events
events_after_locked project from_seq = do
  rows ← reads (λ d. events_since d project from_seq)
  to_events rows

-- A limit that is not positive stands for 1000.
unfoldable pub poll_limit : ℤ → ℤ
poll_limit limit = if ltb_ℤ (pos 0) limit then limit else pos 1000

abbrev pub seq_or : ℤ → Option Event → ℤ
seq_or d none = d
seq_or d (some e) = e.seq

unfoldable pub poll_changes_locked : String → ℤ → ℤ → Session PollChangesResponse
unfolding events_since limited poll_limit to_events
poll_changes_locked project after_seq limit = do
  rows ← reads (λ d. limited (poll_limit limit) (events_since d project after_seq))
  events ← to_events rows
  pure (record { events = events; seq = seq_or after_seq (last? events) })

abbrev pub max_1 : ℤ → ℤ
max_1 n = if ltb_ℤ n (pos 1) then pos 1 else n

-- AND (?2 = '' OR node_id = ?2) AND (?3 = 0 OR seq < ?3)
abbrev pub node_matches : String → Option String → Bool
node_matches node none = node == ""
node_matches node (some id) = node == "" || id == node

unfoldable pub events_before : Db → String → String → ℤ → List EventRow
events_before d project node before =
    keep_if
      (λ (e : EventRow).
        e.project_id == project
        && node_matches node e.node_id
        && (eqb_ℤ before (pos 0) || ltb_ℤ (pos e.seq) before))
      d.events

-- `rows.truncate(lim as usize)`, for a limit that is at least 1.
abbrev pub truncate {ℓ} : {A : Type ℓ} → ℤ → List A → List A
truncate (pos n) l = take n l
truncate (negsuc n) l = l

-- `rows.len() as i32 > lim`
abbrev pub more_than {ℓ} : {A : Type ℓ} → ℤ → List A → Bool
more_than lim l = ltb_ℤ lim (wrap_i32 (pos (length l)))

-- Newest first, one row more than is asked for.
unfoldable pub list_events_locked : String → String → ℤ → ℤ → Session (List Event × Bool)
unfolding events_before limited to_events ◌+ℤ◌ wrap_i32
list_events_locked project node before_seq limit = do
  let lim = max_1 limit
  rows ←
      reads
        (λ d. limited (wrap_i32 (lim +ℤ pos 1)) (reverse (events_before d project node before_seq)))
  events ← to_events rows
  pure (truncate lim events, more_than lim events)

abbrev nodes_in : Db → String → List String → List NodeRow
nodes_in d project [] = []
nodes_in d project (id ∷ ids) = elim (node_at d.nodes id) [
  | none ↦ nodes_in d project ids
  | some n ↦ let rest = nodes_in d project ids in if n.project_id == project then n ∷ rest else rest
]

unfoldable pub to_nodes : Db → List NodeRow → Session (List Node)
unfolding collect node_cells row_to_node with_verifications
to_nodes d rows = do
  nodes ← lift (collect (λ n. row_to_node (node_cells d n)) rows)
  with_verifications nodes

-- JOIN nodes_fts … MATCH ?2 ORDER BY rank LIMIT ?3
unfoldable pub search_locked : Host → String → String → ℤ → Session (List Node)
unfolding limited to_nodes
search_locked host project query limit = do
  d ← reads (λ d. d)
  ids ← lift (host.match_fts d.nodes query)
  to_nodes d (limited (max_1 limit) (nodes_in d project ids))

abbrev in_project : Option NodeRow → String → Bool
in_project none project = false
in_project (some n) project = n.project_id == project

-- FROM dependencies d JOIN nodes a … JOIN nodes b … WHERE both stand in the project
unfoldable pub dependencies_in : Db → String → List Dependency
dependencies_in d project =
    map (λ (e : DependencyRow). record { blocker_id = e.blocker_id; blocked_id = e.blocked_id })
      (keep_if
        (λ (e : DependencyRow).
          in_project (node_at d.nodes e.blocker_id) project
          && in_project (node_at d.nodes e.blocked_id) project)
        d.dependencies)

-- COALESCE(MAX(seq), 0) over all the events.
abbrev pub max_seq : List EventRow → ℕ
max_seq [] = 0
max_seq (e ∷ es) = let rest = max_seq es in if ltb rest e.seq then e.seq else rest

unfoldable pub get_snapshot_locked : String → Session GetSnapshotResponse
unfolding fetch_project to_nodes dependencies_in progress_for to_events
get_snapshot_locked project = do
  found ← fetch_project project
  d ← reads (λ d. d)
  nodes ← to_nodes d (keep_if (λ (n : NodeRow). n.project_id == project) d.nodes)
  progress ← progress_for project
  events ←
      to_events (take 25 (reverse (keep_if (λ (e : EventRow). e.project_id == project) d.events)))
  pure (record {
    project = found;
    nodes = nodes;
    dependencies = dependencies_in d project;
    progress = progress;
    recent_events = events;
    seq = pos (max_seq d.events);
  })
