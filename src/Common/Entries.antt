-- ===== src/Common/Entries.antt =====
-- A property of every entry of a map, and how writing and deleting entries keep it.
use mathlib.Core.Path.{◌≡◌, subst}
use mathlib.Core.Bool.{Bool, true}
use mathlib.Core.Logic.{inl, inr}
use mathlib.Core.Option.{some}
use mathlib.Core.List.{[], ◌∷◌}
use native.Mathlib.Omega.{arith}
use openclaw_nie_guard.Common.Tests.{Bool-cases}
use openclaw_nie_guard.Common.Equality.{Eq, ◌==◌}
use openclaw_nie_guard.Common.Maps.{Map, lookup, insert, retain}

module _ {K V : Type 0} (P : V → Type 0) where
  abbrev pub Every : Map K V → Type 0
  Every [] = Unit
  Every ((k, v) ∷ m) = P v × Every m

module _ {K V : Type 0} ⦃e : Eq K⦄ (P : V → Type 0) where
  pub Every-insert : (k : K) (v : V) (m : Map K V) → P v → Every P m → Every P (insert k v m)
  unfolding insert
  Every-insert k v [] p h = (p, tt)
  Every-insert k v ((j, w) ∷ m) p (q, h) = elim (Bool-cases (j == k)) [
    | inl same ↦ rw same (p, h)
    | inr other ↦ rw other (q, Every-insert k v m p h)
  ]

  pub Every-lookup : (k : K) (m : Map K V) (v : V) → Every P m → lookup k m ≡ some v → P v
  unfolding lookup
  Every-lookup k [] v h found = cc
  Every-lookup k ((j, w) ∷ m) v (q, h) found = elim (Bool-cases (j == k)) [
    | inl same ↦ let here : w ≡ v = ground arith in subst P here q
    | inr other ↦ Every-lookup k m v h (ground arith)
  ]

module _ {K V : Type 0} (P Q : V → Type 0) where
  -- Entries that pass the test have `Q` where those before had `P`.
  pub Every-retain :
      (p : K → V → Bool) (m : Map K V)
      → ((k : K) (v : V) → p k v ≡ true → P v → Q v)
      → Every P m
      → Every Q (retain p m)
  unfolding retain
  Every-retain p [] f h = tt
  Every-retain p ((k, v) ∷ m) f (q, h) = elim (Bool-cases (p k v)) [
    | inl kept ↦ rw kept (f k v kept q, Every-retain p m f h)
    | inr gone ↦ rw gone (Every-retain p m f h)
  ]
