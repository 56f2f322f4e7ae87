-- ===== src/Common/Members.antt =====
-- Membership of a list, by recursion, so that a proof is taken apart by its clauses.
use mathlib.Core.Path.{◌≡◌, refl, ap, subst}
use mathlib.Core.Logic.{◌⊎◌, inl, inr}
use mathlib.Core.Bool.{Bool, true, false}
use mathlib.Core.List.{List, [], ◌∷◌, ◌++◌, map}
use flowcontrol.Common.Lists.{keep_if}
use flowcontrol.Common.Tests.{if◌then◌else◌}

module _ {A : Type 0} where
  abbrev pub Among : A → List A → Type 0
  Among a [] = ⊥
  Among a (x ∷ xs) = (a ≡ x) ⊎ Among a xs

  pub Among-left : (a : A) (xs ys : List A) → Among a xs → Among a (xs ++ ys)
  Among-left a [] ys h = absurd h
  Among-left a (x ∷ xs) ys (inl e) = inl e
  Among-left a (x ∷ xs) ys (inr h) = inr (Among-left a xs ys h)

  pub Among-right : (a : A) (xs ys : List A) → Among a ys → Among a (xs ++ ys)
  Among-right a [] ys h = h
  Among-right a (x ∷ xs) ys h = inr (Among-right a xs ys h)

  pub Among-split : (a : A) (xs ys : List A) → Among a (xs ++ ys) → Among a xs ⊎ Among a ys
  Among-split a [] ys h = inr h
  Among-split a (x ∷ xs) ys (inl e) = inl (inl e)
  Among-split a (x ∷ xs) ys (inr h) = elim (Among-split a xs ys h) [
    | inl p ↦ inl (inr p)
    | inr p ↦ inr p
  ]

  -- What stands in a filtered list stood in the list.
  pub Among-keep_if : (p : A → Bool) (a : A) (xs : List A) → Among a (keep_if p xs) → Among a xs
  Among-keep_if p a [] h = h
  Among-keep_if p a (x ∷ xs) h = kept (p x) (Among-keep_if p a xs) h
    where
      kept :
          (b : Bool)
          → (Among a (keep_if p xs) → Among a xs)
          → Among a (if b then x ∷ keep_if p xs else keep_if p xs)
          → (a ≡ x) ⊎ Among a xs
      kept true r (inl e) = inl e
      kept true r (inr h) = inr (r h)
      kept false r h = inr (r h)

  pub Among-kept :
      (p : A → Bool) (a : A) (xs : List A) → p a ≡ true → Among a xs → Among a (keep_if p xs)
  Among-kept p a [] q h = h
  Among-kept p a (x ∷ xs) q (inl e) =
      subst (λ y. Among a (if p y then y ∷ keep_if p xs else keep_if p xs)) e (rw q (inl refl))
  Among-kept p a (x ∷ xs) q (inr h) = kept (p x) (Among-kept p a xs q h)
    where
      kept :
          (b : Bool)
          → Among a (keep_if p xs)
          → Among a (if b then x ∷ keep_if p xs else keep_if p xs)
      kept true r = inr r
      kept false r = r

pub Among-map :
    {A B : Type 0} (f : A → B) (a : A) (xs : List A) → Among a xs → Among (f a) (map f xs)
Among-map f a [] h = absurd h
Among-map f a (x ∷ xs) (inl e) = inl (ap f e)
Among-map f a (x ∷ xs) (inr h) = inr (Among-map f a xs h)

module _ {A : Type 0} (P : A → Type 0) where
  -- Some value of a list meets the predicate.
  abbrev pub AnyOf : List A → Type 0
  AnyOf [] = ⊥
  AnyOf (x ∷ xs) = P x ⊎ AnyOf xs

  pub AnyOf-left : (xs ys : List A) → AnyOf xs → AnyOf (xs ++ ys)
  AnyOf-left [] ys h = absurd h
  AnyOf-left (x ∷ xs) ys (inl p) = inl p
  AnyOf-left (x ∷ xs) ys (inr h) = inr (AnyOf-left xs ys h)

  pub AnyOf-right : (xs ys : List A) → AnyOf ys → AnyOf (xs ++ ys)
  AnyOf-right [] ys h = h
  AnyOf-right (x ∷ xs) ys h = inr (AnyOf-right xs ys h)

  pub AnyOf-split : (xs ys : List A) → AnyOf (xs ++ ys) → AnyOf xs ⊎ AnyOf ys
  AnyOf-split [] ys h = inr h
  AnyOf-split (x ∷ xs) ys (inl p) = inl (inl p)
  AnyOf-split (x ∷ xs) ys (inr h) = elim (AnyOf-split xs ys h) [
    | inl p ↦ inl (inr p)
    | inr p ↦ inr p
  ]
