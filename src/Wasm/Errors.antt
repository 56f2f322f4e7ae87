-- ===== src/Wasm/Errors.antt =====
-- flowwasm/src/lib.rs: the store that is handed to JavaScript, and its errors as texts.
use flowcontrol.Common.{
  ◌≡◌, refl, ◌∙◌, ap, ℕ, String, Option, none, some, List, [], ◌∷◌, ◌++◌, concat, nat_eq, ◌&&◌,
  if◌then◌else◌,
}
use Prim.Native.String
use Prim.Native.Char.{code}
use text.Mathlib.TextLemmas.{nil-append, cons-append}
use flowcontrol.Error
use flowcontrol.Error.{
  Code, DomainError, DResult, ok, err, codes, not_found, invalid_argument, failed_precondition,
  internal,
}
use flowcontrol.Schema.{Host}
use flowcontrol.Sql.{Outcome, done, fail}
use flowcontrol.Statement.{Conn}
use flowcontrol.Store.Codec.{Codec}
use flowcontrol.Store.Wire.{dispatch_bytes}

unfoldable pub to_js : DomainError → String
to_js e = concat (Error.as_str e.code ∷ ": " ∷ e.message ∷ [])

-- What a call from JavaScript ends in: bytes, or an exception with its text.
pub data Called (A : Type 0) : Type 0 where
  returned : A → Called A
  thrown : String → Called A

-- `Store::dispatch`.
unfoldable pub store_dispatch :
    {Bytes : Type 0} → Codec Bytes → Host → String → Bytes → Conn → Called Bytes × Conn
unfolding dispatch_bytes to_js
store_dispatch codec host name req c = ended (dispatch_bytes codec host name req c)
  where
    ended : {A : Type 0} → Outcome Conn A → Called A × Conn
    ended (done a c) = (returned a, c)
    ended (fail e c) = (thrown (to_js e), c)

-- What stands before the first colon with a space after it, and what stands after both.
unfoldable pub split_first : List ℕ → Option (List ℕ × List ℕ)
split_first [] = none
split_first (c ∷ cs) =
    let rest = split_first cs in
    elim cs [
      | [] ↦ none
      | d ∷ ds ↦
          if nat_eq c b':' && nat_eq d b' '
          then some ([], ds)
          else elim rest [ none ↦ none | some p ↦ some (c ∷ p.0, p.1) ]
    ]

codes-append : (s t : String) → codes (Prim.Native.String.◌++◌ s t) ≡ codes s ++ codes t
codes-append String.[] t = ap codes (nil-append t)
codes-append (String.◌∷◌ c s) t =
    ap codes (cons-append c s t) ∙ ap (λ l. Prim.Native.Char.code c ∷ l) (codes-append s t)

-- No name of a code holds a colon.
split_first-code :
    (c : Code) (m : List ℕ)
    → split_first (codes (Error.as_str c) ++ b':' ∷ b' ' ∷ m) ≡ some (codes (Error.as_str c), m)
unfolding split_first Error.as_str
split_first-code not_found m = refl
split_first-code invalid_argument m = refl
split_first-code failed_precondition m = refl
split_first-code internal m = refl

-- A host that splits the text of an exception at its first colon and space has the name of the code and
-- the message of the error, whatever the message holds.
pub to_js-split_first :
    (e : DomainError)
    → split_first (codes (to_js e)) ≡ some (codes (Error.as_str e.code), codes e.message)
unfolding to_js
to_js-split_first e =
    ap split_first (
      codes-append (Error.as_str e.code) _
      ∙ ap (λ l. codes (Error.as_str e.code) ++ l) (codes-append ": " e.message))
    ∙ split_first-code e.code (codes e.message)
