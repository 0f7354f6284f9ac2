-- ===== src/Common/Lists.antt =====
-- List operations of the source's language over decided equality: `includes`, `some`, `every`, `find`,
-- the insertion order of a `Set`, and lists measured and cut by native numbers.
use Prim.Native.Nat.{ℕ, zero, suc, ◌+◌}
use mathlib.Core.Path.{◌≡◌, refl}
use mathlib.Core.Logic.{inl, inr}
use mathlib.Core.Bool.{Bool, true, false, ◌&&◌, ◌||◌}
use mathlib.Core.Option.{Option, none, some}
use mathlib.Core.List.{List, [], ◌∷◌, ◌++◌}
use native.Mathlib.Omega.{arith}
use openclaw_nie_guard.Common.Tests.{if◌then◌else◌, Bool-cases}
use openclaw_nie_guard.Common.Equality.{Eq, ◌==◌}

module _ {ℓ} {A : Type ℓ} where
  abbrev pub length : List A → ℕ
  length [] = 0
  length (x ∷ xs) = suc (length xs)

  abbrev pub get_elem? : List A → ℕ → Option A
  get_elem? [] i = none
  get_elem? (x ∷ xs) zero = some x
  get_elem? (x ∷ xs) (suc i) = get_elem? xs i

  abbrev pub take : ℕ → List A → List A
  take zero xs = []
  take (suc n) [] = []
  take (suc n) (x ∷ xs) = x ∷ take n xs

  abbrev pub drop : ℕ → List A → List A
  drop zero xs = xs
  drop (suc n) [] = []
  drop (suc n) (x ∷ xs) = drop n xs

  abbrev pub any : (A → Bool) → List A → Bool
  any p [] = false
  any p (x ∷ xs) = p x || any p xs

  abbrev pub all : (A → Bool) → List A → Bool
  all p [] = true
  all p (x ∷ xs) = p x && all p xs

  abbrev pub find : (A → Bool) → List A → Option A
  find p [] = none
  find p (x ∷ xs) = if p x then some x else find p xs

  abbrev pub keep : (A → Bool) → List A → List A
  keep p [] = []
  keep p (x ∷ xs) = if p x then x ∷ keep p xs else keep p xs

  pub length-append : (xs ys : List A) → length (xs ++ ys) ≡ length xs + length ys
  length-append [] ys = omega arith
  length-append (x ∷ xs) ys = omega (arith, length-append xs ys)

  pub any-append : (p : A → Bool) (xs ys : List A) → any p (xs ++ ys) ≡ (any p xs || any p ys)
  any-append p [] ys = refl
  any-append p (x ∷ xs) ys = ground (arith, any-append p xs ys)

module _ {ℓ κ} {A : Type ℓ} (P : A → Type κ) where
  abbrev pub All : List A → Type κ
  All [] = Unit
  All (x ∷ xs) = P x × All xs

  pub All-append : (xs ys : List A) → All xs → All ys → All (xs ++ ys)
  All-append [] ys hx hy = hy
  All-append (x ∷ xs) ys hx hy = (hx.0, All-append xs ys hx.1 hy)

module _ {ℓ} {A : Type ℓ} ⦃e : Eq A⦄ where
  abbrev pub includes : List A → A → Bool
  includes [] a = false
  includes (x ∷ xs) a = x == a || includes xs a

  -- `[...new Set(xs)]`: the first occurrence of each element, in order.
  abbrev pub distinct_from : List A → List A → List A
  distinct_from seen [] = []
  distinct_from seen (x ∷ xs) =
      let later = distinct_from (x ∷ seen) xs in
      if includes seen x then distinct_from seen xs else x ∷ later

  abbrev pub distinct : List A → List A
  distinct xs = distinct_from [] xs

  pub includes-append :
      (xs ys : List A) (a : A) → includes (xs ++ ys) a ≡ (includes xs a || includes ys a)
  includes-append [] ys a = refl
  includes-append (x ∷ xs) ys a = ground (arith, includes-append xs ys a)

  pub includes-distinct_from :
      (seen xs : List A) (a : A)
      → (includes seen a || includes (distinct_from seen xs) a) ≡ (includes seen a || includes xs a)
  includes-distinct_from seen [] a = refl
  includes-distinct_from seen (x ∷ xs) a = elim (Bool-cases (includes seen x)) [
    | inl old ↦ elim (Bool-cases (x == a)) [
      | inl same ↦
          let e' : x ≡ a = (e.same_iff x a).0 same in
          let known : includes seen a ≡ true = subst_includes e' old in ground arith
      | inr other ↦ ground (arith, includes-distinct_from seen xs a)
    ]
    | inr new ↦ ground (arith, includes-distinct_from (x ∷ seen) xs a)
  ]
    where
      subst_includes : x ≡ a → includes seen x ≡ true → includes seen a ≡ true
      subst_includes p h = rw p at h

  pub includes-distinct : (xs : List A) (a : A) → includes (distinct xs) a ≡ includes xs a
  includes-distinct xs a = includes-distinct_from [] xs a

  abbrev pub NoRepeat : List A → Type 0
  NoRepeat [] = Unit
  NoRepeat (x ∷ xs) = (includes xs x ≡ false) × NoRepeat xs

  not-includes-distinct_from :
      (seen xs : List A) (a : A)
      → includes seen a ≡ true
      → includes (distinct_from seen xs) a ≡ false
  not-includes-distinct_from seen [] a h = refl
  not-includes-distinct_from seen (x ∷ xs) a h = elim (Bool-cases (includes seen x)) [
    | inl old ↦ rw old (not-includes-distinct_from seen xs a h)
    | inr new ↦ elim (Bool-cases (x == a)) [
      | inl same ↦
          let e' : x ≡ a = (e.same_iff x a).0 same in
          let clash : includes seen x ≡ true = rw e' h in absurd (cc)
      | inr other ↦ ground (arith, not-includes-distinct_from (x ∷ seen) xs a (ground arith))
    ]
  ]

  distinct_from-NoRepeat : (seen xs : List A) → NoRepeat (distinct_from seen xs)
  distinct_from-NoRepeat seen [] = tt
  distinct_from-NoRepeat seen (x ∷ xs) = elim (Bool-cases (includes seen x)) [
    | inl old ↦ rw old (distinct_from-NoRepeat seen xs)
    | inr new ↦ rw new (
      not-includes-distinct_from (x ∷ seen) xs x (ground (arith, e.same_iff x x)),
      distinct_from-NoRepeat (x ∷ seen) xs,
    )
  ]

  pub distinct-NoRepeat : (xs : List A) → NoRepeat (distinct xs)
  distinct-NoRepeat xs = distinct_from-NoRepeat [] xs
