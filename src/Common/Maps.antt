-- ===== src/Common/Maps.antt =====
-- `Map` and `Record` of the source as association lists. Reading takes the first entry of a key, and
-- writing replaces it, so a key has one value.
use mathlib.Core.Path.{◌≡◌, refl}
use mathlib.Core.Logic.{inl, inr}
use mathlib.Core.Bool.{Bool, true}
use mathlib.Core.Option.{Option, none, some}
use mathlib.Core.List.{List, [], ◌∷◌}
use native.Mathlib.Omega.{arith}
use openclaw_nie_guard.Common.Tests.{if◌then◌else◌, Bool-cases}
use openclaw_nie_guard.Common.Equality.{Eq, ◌==◌}

abbrev pub Map {ℓ κ} : Type ℓ → Type κ → Type (ℓ ⊔ κ)
Map K V = List (K × V)

module _ {ℓ κ} {K : Type ℓ} {V : Type κ} where
  -- Keep the entries that pass a test, as a loop of `delete` calls does.
  unfoldable pub retain : (K → V → Bool) → Map K V → Map K V
  retain p [] = []
  retain p ((key, value) ∷ entries) =
      if p key value then (key, value) ∷ retain p entries else retain p entries

module _ {ℓ κ} {K : Type ℓ} {V : Type κ} ⦃e : Eq K⦄ where
  unfoldable pub lookup : K → Map K V → Option V
  lookup key [] = none
  lookup key ((at, value) ∷ entries) = if at == key then some value else lookup key entries

  unfoldable pub insert : K → V → Map K V → Map K V
  insert key value [] = (key, value) ∷ []
  insert key value ((at, old) ∷ entries) =
      if at == key then (key, value) ∷ entries else (at, old) ∷ insert key value entries

  pub lookup-insert :
      (key at : K) (value : V) (entries : Map K V)
      → lookup at (insert key value entries) ≡ (if key == at then some value else lookup at entries)
  unfolding lookup insert
  lookup-insert key at value [] = refl
  lookup-insert key at value ((found, old) ∷ entries) = ground (
    arith,
    e.same_iff key at,
    e.same_iff found key,
    e.same_iff found at,
    lookup-insert key at value entries,
  )

  -- An entry that a retained map shows passes the test.
  pub lookup-retain :
      (p : K → V → Bool) (entries : Map K V) (key : K) (value : V)
      → lookup key (retain p entries) ≡ some value
      → p key value ≡ true
  unfolding lookup retain
  lookup-retain p [] key value h = cc
  lookup-retain p ((at, old) ∷ entries) key value h = elim (Bool-cases (p at old)) [
    | inl kept ↦ elim (Bool-cases (at == key)) [
      | inl same ↦
          let e' : at ≡ key = (e.same_iff at key).0 same in
          let w' : old ≡ value = ground arith in rw (← e', ← w') kept
      | inr other ↦ lookup-retain p entries key value (ground arith)
    ]
    | inr gone ↦ lookup-retain p entries key value (rw (gone, retain) at h)
  ]
