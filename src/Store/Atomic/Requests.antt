-- ===== src/Store/Atomic/Requests.antt =====
-- flowcore/src/store.rs: a mutation of nodes, edges or verifications that fails, through `dispatch`.
use flowcontrol.Common.{◌⊎◌, none, ◌≡◌, subst}
use flowcontrol.Error.{DomainError}
use flowcontrol.Schema.{Host}
use flowcontrol.Sql.{Outcome, done, fail, pure, continue}
use flowcontrol.Statement.{Conn, Session}
use flowcontrol.Store.Atomic.{Atomic, Undone, IsRefused}
use flowcontrol.Store.Atomic.Operations.{
  create_node-Atomic, update_node-Atomic, delete_node-Atomic, set_status-Atomic,
  add_dependency-Atomic, remove_dependency-Atomic,
}
use flowcontrol.Store.Atomic.More.{
  report_condition-Atomic, set_verdict-Atomic, add_comment-Atomic, move_node-Atomic, undo-Atomic,
}
use flowcontrol.Store.Invariant.Rows.{IsSound}
use flowcontrol.Store.Dispatch.{
  Request, create_node, update_node, delete_node, set_status, add_dependency, remove_dependency,
  report_condition, set_verdict, add_comment, undo, move_node, Answer, answer_as, dispatch,
}

-- A request that changes nodes, edges or verifications.
abbrev pub Mutates : Request → Type 0
Mutates (create_node r) = Unit
Mutates (update_node r) = Unit
Mutates (delete_node r) = Unit
Mutates (set_status r) = Unit
Mutates (add_dependency r) = Unit
Mutates (remove_dependency r) = Unit
Mutates (report_condition r) = Unit
Mutates (set_verdict r) = Unit
Mutates (add_comment r) = Unit
Mutates (undo r) = Unit
Mutates (move_node r) = Unit
Mutates _ = ⊥

answered {ℓ} :
    {A : Type ℓ} (host : Host) (f : A → Answer) (c : Conn) (r : Outcome Conn A)
    → Undone host c r
    → Undone host c (continue r (λ a. pure (f a)))
answered host f c (done a c') u = tt
answered host f c (fail e c') u = u

answer_as-Atomic {ℓ} :
    {A : Type ℓ} {host : Host} (f : A → Answer) (m : Session A)
    → Atomic host m
    → Atomic host (answer_as f m)
answer_as-Atomic {host} f m am = record { at = λ c s h. answered host f c (m c) (am.at c s h) }

dispatch-Atomic : (host : Host) (req : Request) → Mutates req → Atomic host (dispatch host req)
unfolding dispatch
dispatch-Atomic host (create_node r) w = answer_as-Atomic _ _ (create_node-Atomic host r)
dispatch-Atomic host (update_node r) w = answer_as-Atomic _ _ (update_node-Atomic host r)
dispatch-Atomic host (delete_node r) w = answer_as-Atomic _ _ (delete_node-Atomic host r)
dispatch-Atomic host (set_status r) w = answer_as-Atomic _ _ (set_status-Atomic host r)
dispatch-Atomic host (add_dependency r) w = answer_as-Atomic _ _ (add_dependency-Atomic host r)
dispatch-Atomic host (remove_dependency r) w =
    answer_as-Atomic _ _ (remove_dependency-Atomic host r)
dispatch-Atomic host (report_condition r) w = answer_as-Atomic _ _ (report_condition-Atomic host r)
dispatch-Atomic host (set_verdict r) w = answer_as-Atomic _ _ (set_verdict-Atomic host r)
dispatch-Atomic host (add_comment r) w = answer_as-Atomic _ _ (add_comment-Atomic host r)
dispatch-Atomic host (undo r) w = answer_as-Atomic _ _ (undo-Atomic host r)
dispatch-Atomic host (move_node r) w = answer_as-Atomic _ _ (move_node-Atomic host r)
dispatch-Atomic host _ w = absurd w

-- Where the engine answers each SELECT, a request that changes nodes, edges or verifications, sent to a
-- session with no open transaction on sound rows, leaves the session exactly as it was if it fails, or
-- its error is the engine's refusal of the COMMIT: then the transaction stands open, and a rollback would
-- bring back what the session had.
pub dispatch-fails :
    (host : Host) (req : Request) (c c' : Conn) (e : DomainError)
    → Mutates req
    → c.saved ≡ none
    → IsSound c.db
    → dispatch host req c ≡ fail e c'
    → (c' ≡ c) ⊎ IsRefused host e c c'
dispatch-fails host req c c' e w s h p =
    subst (Undone host c) p ((dispatch-Atomic host req w).at c s h)
