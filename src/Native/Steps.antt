-- ===== src/Native/Steps.antt =====
-- flowd/src/store/mod.rs: the interleavings of the daemon's requests. A task holds the mutex for its
-- whole session, so it is one step; its handler publishes in a later step, and other tasks run and
-- publish between the two. A handler that is dropped before it publishes leaves its mutation
-- unpublished for good.
pub mod Announced
use flowcontrol.Common.{Bool, true, false, List, [], ◌∷◌, ◌++◌, ◌≡◌, refl}
use flowcontrol.Error.{DResult, ok, err}
use flowcontrol.Schema.{Host}
use flowcontrol.Message.{Mutation}
use flowcontrol.Store.Dispatch.{Request, Answer, mutation, dispatch}
use flowcontrol.Native.{
  NativeStore, Fate, returns, panics, panics_locked, Joined, returned, panicked, spawn_blocking,
  on_session, publish,
}

-- The store, and the mutations of the writes that are committed and not yet published.
pub record System : Type 0 where
  pub store : NativeStore
  pub pending : List Mutation

-- What the handler of a task has to publish.
abbrev pub owed : Joined (DResult Answer) → List Mutation
owed (returned (ok (mutation m))) = m ∷ []
owed (returned _) = []
owed (panicked text) = []

unfoldable pub serve_task : Fate → Host → Request → System → System
unfolding spawn_blocking dispatch
serve_task fate host req s =
    let (r, store) = spawn_blocking fate (dispatch host req) s.store in
    record { store = store; pending = s.pending ++ owed r }

pub data Step : System → System → Type 0 where
  -- the task of a request
  task :
      (fate : Fate) (host : Host) (req : Request) (s : System) → Step s (serve_task fate host req s)
  -- the publishing of any mutation that is pending
  tell :
      (store : NativeStore) (before : List Mutation) (m : Mutation) (behind : List Mutation)
      → Step
          (record { store = store; pending = before ++ m ∷ behind })
          (record { store = publish m store; pending = before ++ behind })

pub data Reach (s : System) : System → Type 0 where
  here : Reach s s
  next : {t u : System} → Reach s t → Step t u → Reach s u

stays_poisoned :
    (fate : Fate) (host : Host) (req : Request) (s : System)
    → s.store.poisoned ≡ true
    → (serve_task fate host req s).store.poisoned ≡ true
unfolding serve_task spawn_blocking on_session
stays_poisoned returns host req s e = rw e refl
stays_poisoned (panics text) host req s e = e
stays_poisoned (panics_locked text c) host req s e = refl

-- A poisoned mutex stays so.
pub Step-poisoned : {s t : System} → Step s t → s.store.poisoned ≡ true → t.store.poisoned ≡ true
unfolding publish
Step-poisoned (task fate host req s) e = stays_poisoned fate host req s e
Step-poisoned (tell store before m behind) e = e

pub Reach-trans : {s t u : System} → Reach s t → Reach t u → Reach s u
Reach-trans r here = r
Reach-trans r (next q st) = next (Reach-trans r q) st
