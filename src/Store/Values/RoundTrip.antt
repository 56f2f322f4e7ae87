-- ===== src/Store/Values/RoundTrip.antt =====
-- flowcore/src/store.rs: a stored text read into a message's number and written back.
use flowcontrol.Common.{
  ◌≡◌, refl, subst, true, inl, inr, String, some, ◌==◌, eq_iff, arith, mem_str, Bool-cases, [], ◌∷◌,
}
use flowcontrol.Schema.{NodeRow}
use flowcontrol.Schema.Checks.{node_checks, opt_in}
use flowcontrol.Store.Values.{kind_str, kind_of, declared_str, declared_of, wp_str, wp_state_of}

one_of_three :
    (s a b c : String) (P : String → Type 0)
    → mem_str s (a ∷ b ∷ c ∷ []) ≡ true
    → P a
    → P b
    → P c
    → P s
one_of_three s a b c P h pa pb pc = elim (Bool-cases (a == s)) [
  | inl e ↦ subst P ((eq_iff a s).0 e) pa
  | inr e ↦ elim (Bool-cases (b == s)) [
    | inl f ↦ subst P ((eq_iff b s).0 f) pb
    | inr f ↦ subst P ((eq_iff c s).0 (ground arith)) pc
  ]
]

kind_str-kind_of :
    (s : String)
    → mem_str s ("WORK_PACKAGE" ∷ "TASK" ∷ "STEP" ∷ []) ≡ true
    → kind_str (kind_of s) ≡ s
unfolding kind_str kind_of
kind_str-kind_of s h =
    one_of_three s "WORK_PACKAGE" "TASK" "STEP" (λ x. kind_str (kind_of x) ≡ x) h refl refl refl

declared_str-declared_of :
    (s : String)
    → mem_str s ("OPEN" ∷ "DEFERRED" ∷ "DONE" ∷ []) ≡ true
    → declared_str (declared_of s) ≡ s
unfolding declared_str declared_of
declared_str-declared_of s h =
    one_of_three s "OPEN" "DEFERRED" "DONE" (λ x. declared_str (declared_of x) ≡ x) h refl refl refl

wp_str-wp_state_of :
    (s : String)
    → opt_in (some s) ("PLANNED" ∷ "ACTIVE" ∷ "DONE" ∷ "ARCHIVED" ∷ []) ≡ true
    → wp_str (wp_state_of (some s)) ≡ some s
unfolding wp_str wp_state_of
wp_str-wp_state_of s h = elim (Bool-cases ("PLANNED" == s)) [
  | inl e ↦ subst (λ x. wp_str (wp_state_of (some x)) ≡ some x) ((eq_iff "PLANNED" s).0 e) refl
  | inr e ↦
      one_of_three s "ACTIVE" "DONE" "ARCHIVED" (λ x. wp_str (wp_state_of (some x)) ≡ some x)
        (ground arith) refl refl refl
]

-- The kind and the declared status of a row that meets the CHECKs, and the state of one that has a
-- state, come back unchanged when they are read into a message's numbers and written as texts.
pub stored-written_back :
    (n : NodeRow)
    → node_checks n ≡ true
    → (kind_str (kind_of n.kind) ≡ n.kind)
      × (declared_str (declared_of n.declared_status) ≡ n.declared_status)
      × ((s : String) → n.wp_state ≡ some s → wp_str (wp_state_of n.wp_state) ≡ n.wp_state)
unfolding node_checks
stored-written_back n h = (
  kind_str-kind_of n.kind (ground arith),
  declared_str-declared_of n.declared_status (ground arith),
  λ s e. rw e (wp_str-wp_state_of s (ground arith)),
)
