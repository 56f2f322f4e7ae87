-- ===== src/Error.antt =====
-- flowcore/src/error.rs: the error taxonomy that every host shares.
-- A message is a text; `classify` searches its lower-case form, over the code points.
use Prim.Native.Char.{code}
use Prim.Native.String.{String}
use flowcontrol.Common.{
  ◌≡◌, ℕ, ◌+◌, Bool, true, false, ◌&&◌, ◌||◌, List, [], ◌∷◌, leb, nat_eq, if◌then◌else◌,
}

pub data Code : Type 0 where
  not_found invalid_argument failed_precondition internal : Code

pub record DomainError : Type 0 where
  pub code : Code
  pub message : String

-- `Result<T, DomainError>`.
pub data DResult {ℓ} (A : Type ℓ) : Type ℓ where
  ok : A → DResult A
  err : DomainError → DResult A

-- `Code::as_str`.
unfoldable pub as_str : Code → String
as_str not_found = "not_found"
as_str invalid_argument = "invalid_argument"
as_str failed_precondition = "failed_precondition"
as_str internal = "internal"

abbrev pub codes : String → List ℕ
codes String.[] = []
codes (String.◌∷◌ c s) = Prim.Native.Char.code c ∷ codes s

-- `char::to_lowercase`, as far as it can yield an ASCII character: the capital letters, the
-- Kelvin sign, and the dotted capital I. Every other character is left, since no text that is
-- searched for holds a character outside ASCII.
unfoldable pub lowercase : List ℕ → List ℕ
lowercase [] = []
lowercase (c ∷ cs) =
    let rest = lowercase cs in
    if leb b'A' c && leb c b'Z'
    then (c + 32) ∷ rest
    else if nat_eq c 0x212a
    then b'k' ∷ rest
    else if nat_eq c 0x130
    then b'i' ∷ 0x307 ∷ rest
    else c ∷ rest

unfoldable pub has_prefix : List ℕ → List ℕ → Bool
has_prefix [] s = true
has_prefix (p ∷ ps) [] = false
has_prefix (p ∷ ps) (c ∷ s) = nat_eq p c && has_prefix ps s

-- `str::contains`.
unfoldable pub contains : List ℕ → List ℕ → Bool
unfolding has_prefix
contains [] p = has_prefix p []
contains (c ∷ s) p = has_prefix p (c ∷ s) || contains s p

unfoldable pub has : List ℕ → String → Bool
unfolding contains
has m p = contains m (codes p)

-- The messages of `classify`'s three groups, in the order of its tests.
unfoldable pub is_not_found : List ℕ → Bool
unfolding has
is_not_found m = has m "not found"

unfoldable pub is_invalid_argument : List ℕ → Bool
unfolding has
is_invalid_argument m =
    has m "update_mask cannot be empty"
    || has m "unknown update_mask"
    || has m "requires a target kind"
    || has m "invalid agent result"
    || has m "syntax error"
    || has m "fts5"

unfoldable pub is_failed_precondition : List ℕ → Bool
unfolding has
is_failed_precondition m =
    has m "invalid parent kind"
    || has m "cross-project"
    || has m "children invalid"
    || has m "its own parent"
    || has m "would create a cycle"
    || has m "has dependents"
    || has m "work package"
    || has m "cannot demote"
    || has m "cannot undo"

unfoldable pub classify_codes : List ℕ → Code
unfolding is_not_found is_invalid_argument is_failed_precondition
classify_codes m =
    if is_not_found m
    then not_found
    else if is_invalid_argument m
    then invalid_argument
    else if is_failed_precondition m
    then failed_precondition
    else internal

unfoldable pub classify : String → Code
unfolding lowercase classify_codes
classify message = classify_codes (lowercase (codes message))

unfoldable pub from_db_message : String → DomainError
unfolding classify
from_db_message message = record { code = classify message; message = message }

abbrev pub internal_error : String → DomainError
internal_error message = record { code = internal; message = message }

pub ok-injective {ℓ} : {A : Type ℓ} {a b : A} → ok a ≡ ok b → a ≡ b
ok-injective h = cc
