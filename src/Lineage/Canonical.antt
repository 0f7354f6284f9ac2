-- ===== src/Lineage/Canonical.antt =====
-- The canonical form of a label: its origins strictly sorted, so that it depends only on which
-- origins there are.
use openclaw_nie_guard.Common.{
  ℕ, ◌<◌, ◌≡◌, refl, sym, ap, ◌∙◌, ◌≢◌, true, false, ◌||◌, List, [], ◌∷◌, ◌==◌, inl, inr,
  Bool-cases, Bool-eq_of_iff, nat_beq_iff, ap₂, ◌≤◌, true≢false, All, includes, distinct, NoRepeat,
  distinct-NoRepeat, includes-distinct, leb, arith,
}
use openclaw_nie_guard.Types.{Origin, origin_code, origin_eq}
use openclaw_nie_guard.Lineage.{Label, insert_origin, sort_origins, canonical_label}

abbrev Above : ℕ → List Origin → Type 0
Above n xs = All (λ y. n < origin_code y) xs

abbrev pub IsSorted : List Origin → Type 0
IsSorted [] = Unit
IsSorted (x ∷ xs) = Above (origin_code x) xs × IsSorted xs

Above-insert_origin :
    (n : ℕ) (o : Origin) (xs : List Origin)
    → n < origin_code o
    → Above n xs
    → Above n (insert_origin o xs)
unfolding insert_origin
Above-insert_origin n o [] h k = (h, tt)
Above-insert_origin n o (x ∷ xs) h k = ground (arith, Above-insert_origin n o xs h k.1)

Above-trans : (m n : ℕ) (xs : List Origin) → m < n → Above n xs → Above m xs
Above-trans m n [] h k = tt
Above-trans m n (x ∷ xs) h (k, ks) = (omega arith, Above-trans m n xs h ks)

origin_code_ne : (a b : Origin) → (a == b) ≡ false → origin_code a ≢ origin_code b
origin_code_ne a b h e = ground arith

insert_origin-IsSorted :
    (o : Origin) (xs : List Origin)
    → IsSorted xs
    → includes xs o ≡ false
    → IsSorted (insert_origin o xs)
unfolding insert_origin
insert_origin-IsSorted o [] h k = (tt, tt)
insert_origin-IsSorted o (x ∷ xs) (above, sorted) k =
    elim (Bool-cases (leb (origin_code o) (origin_code x))) [
      | inl first ↦
          let lt : origin_code o < origin_code x = ground arith in
          rw first ((lt, Above-trans _ _ xs lt above), (above, sorted))
      | inr later ↦ rw later (
        Above-insert_origin (origin_code x) o xs (ground arith) above,
        insert_origin-IsSorted o xs sorted (ground arith),
      )
    ]

includes-insert_origin :
    (o : Origin) (xs : List Origin) (a : Origin)
    → includes (insert_origin o xs) a ≡ (o == a || includes xs a)
unfolding insert_origin
includes-insert_origin o [] a = refl
includes-insert_origin o (x ∷ xs) a = ground (arith, includes-insert_origin o xs a)

pub includes-sort_origins :
    (xs : List Origin) (a : Origin) → includes (sort_origins xs) a ≡ includes xs a
unfolding sort_origins
includes-sort_origins [] a = refl
includes-sort_origins (x ∷ xs) a =
    ground (arith, includes-insert_origin x (sort_origins xs) a, includes-sort_origins xs a)

sort_origins-IsSorted : (xs : List Origin) → NoRepeat xs → IsSorted (sort_origins xs)
unfolding sort_origins
sort_origins-IsSorted [] h = tt
sort_origins-IsSorted (x ∷ xs) (new, h) =
    insert_origin-IsSorted x (sort_origins xs) (sort_origins-IsSorted xs h)
      (includes-sort_origins xs x ∙ new)

pub canonical_label-IsSorted : (l : Label) → IsSorted (canonical_label l).origins
unfolding canonical_label
canonical_label-IsSorted l = sort_origins-IsSorted _ (distinct-NoRepeat l.origins)

pub includes-canonical_label :
    (l : Label) (a : Origin) → includes (canonical_label l).origins a ≡ includes l.origins a
unfolding canonical_label
includes-canonical_label l a =
    includes-sort_origins (distinct l.origins) a ∙ includes-distinct l.origins a

not-includes-Above :
    (n : ℕ) (xs : List Origin) (a : Origin) → Above n xs → includes xs a ≡ true → n < origin_code a
not-includes-Above n [] a k h = absurd (cc)
not-includes-Above n (x ∷ xs) a (k, ks) h = elim (Bool-cases (x == a)) [
  | inl same ↦ ground arith
  | inr other ↦ not-includes-Above n xs a ks (ground arith)
]

head-le :
    (x : Origin) (xs : List Origin) (a : Origin)
    → Above (origin_code x) xs
    → includes (x ∷ xs) a ≡ true
    → origin_code x ≤ origin_code a
head-le x xs a k h = elim (Bool-cases (x == a)) [
  | inl same ↦ ground arith
  | inr other ↦
      let lt : origin_code x < origin_code a = not-includes-Above _ xs a k (ground arith) in
      omega arith
]

self_includes : (x : Origin) (xs : List Origin) → includes (x ∷ xs) x ≡ true
self_includes x xs = ground (arith, origin_eq.same_iff x x)

tail_same :
    (x : Origin) (xs ys : List Origin)
    → Above (origin_code x) xs
    → Above (origin_code x) ys
    → ((a : Origin) → includes (x ∷ xs) a ≡ includes (x ∷ ys) a)
    → (a : Origin) → includes xs a ≡ includes ys a
tail_same x xs ys hx hy same a = elim (Bool-cases (x == a)) [
  | inl here ↦
      Bool-eq_of_iff (includes xs a) (includes ys a)
        (λ h. absurd (omega (arith, not-includes-Above _ xs a hx h, (nat_beq_iff _ _).0 here)))
        (λ h. absurd (omega (arith, not-includes-Above _ ys a hy h, (nat_beq_iff _ _).0 here)))
  | inr other ↦ ground (arith, same a)
]

-- A sorted list is fixed by its members.
pub sorted_unique :
    (xs ys : List Origin)
    → IsSorted xs
    → IsSorted ys
    → ((a : Origin) → includes xs a ≡ includes ys a)
    → xs ≡ ys
sorted_unique [] [] hx hy same = refl
sorted_unique [] (y ∷ ys) hx hy same = absurd (true≢false (sym (self_includes y ys) ∙ sym (same y)))
sorted_unique (x ∷ xs) [] hx hy same = absurd (true≢false (sym (self_includes x xs) ∙ same x))
sorted_unique (x ∷ xs) (y ∷ ys) (ax, hx) (ay, hy) same =
    let le : origin_code x ≤ origin_code y = head-le x xs y ax (same y ∙ self_includes y ys) in
    let ge : origin_code y ≤ origin_code x =
      head-le y ys x ay (sym (same x) ∙ self_includes x xs) in
    let e : x ≡ y = (origin_eq.same_iff x y).0 ((nat_beq_iff _ _).1 (omega arith)) in
    let ay' : Above (origin_code x) ys = rw e ay in
    let same' : (a : Origin) → includes (x ∷ xs) a ≡ includes (x ∷ ys) a =
      λ a. same a ∙ ap (λ z. includes (z ∷ ys) a) (sym e) in
    let tails : xs ≡ ys = sorted_unique xs ys hx hy (tail_same x xs ys ax ay' same') in
    ap₂ (λ z zs. z ∷ zs) e tails

-- Two labels in canonical form are equal when their classifications and their sets of origins are.
pub label_ext :
    (a b : Label)
    → IsSorted a.origins
    → IsSorted b.origins
    → a.classification ≡ b.classification
    → ((o : Origin) → includes a.origins o ≡ includes b.origins o)
    → a ≡ b
label_ext a b ha hb e same =
    let eq : a.origins ≡ b.origins = sorted_unique a.origins b.origins ha hb same in
    λ i. record { classification = e i; origins = eq i }
