-- ===== src/Common/Text.antt =====
-- `format!` on texts: the parts in order.
use Prim.Native.String.{String}
use Prim.Native.String
use mathlib.Core.List.{List, [], ◌∷◌}

abbrev pub concat : List String → String
concat [] = ""
concat (s ∷ []) = s
concat (s ∷ t ∷ ss) = String.◌++◌ s (concat (t ∷ ss))
