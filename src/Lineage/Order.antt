-- ===== src/Lineage/Order.antt =====
-- The order of labels, and the join as its least upper bound.
use mathlib.Core.List.{foldl}
use openclaw_nie_guard.Common.{
  ◌≤◌, ◌≡◌, refl, ◌∙◌, ◌↔◌, ◌⊎◌, true, ◌||◌, List, [], ◌∷◌, ◌++◌, All, any, all, includes,
  includes-append, ◌==◌, Bool-cases, arith, inl, inr,
}
use openclaw_nie_guard.Types.{
  Classification, Origin, origin_eq, mcp_response, external_channel, rag,
}
use openclaw_nie_guard.Lineage.{
  Label, bottom, canonical_label, join, join_all, label_leq, classification_rank, is_tainted,
  is_untrusted_origin,
}
use openclaw_nie_guard.Lineage.Canonical.{
  IsSorted, includes-canonical_label, canonical_label-IsSorted, label_ext,
}

-- `sub` is at most `sup`: a classification that is no more restrictive, and no further origin.
abbrev pub AtMost : Label → Label → Type 0
AtMost sub sup =
    (classification_rank sub.classification ≤ classification_rank sup.classification)
    × ((o : Origin) → includes sub.origins o ≡ true → includes sup.origins o ≡ true)

all-includes_sound :
    (xs ys : List Origin) (o : Origin)
    → all (λ o. includes ys o) xs ≡ true
    → includes xs o ≡ true
    → includes ys o ≡ true
all-includes_sound [] ys o h k = cc
all-includes_sound (x ∷ xs) ys o h k = elim (Bool-cases (x == o)) [
  | inl same ↦
      let e : x ≡ o = (origin_eq.same_iff x o).0 same in
      let here : includes ys x ≡ true = ground arith in rw e at here
  | inr other ↦ all-includes_sound xs ys o (ground arith) (ground arith)
]

all-includes_complete :
    (xs ys : List Origin)
    → ((o : Origin) → includes xs o ≡ true → includes ys o ≡ true)
    → all (λ o. includes ys o) xs ≡ true
all-includes_complete [] ys f = refl
all-includes_complete (x ∷ xs) ys f =
    let here : includes ys x ≡ true = f x (ground (arith, origin_eq.same_iff x x)) in
    let later : all (λ o. includes ys o) xs ≡ true =
      all-includes_complete xs ys (λ o k. f o (ground arith)) in
    ground arith

pub label_leq_iff : (sub sup : Label) → (label_leq sub sup ≡ true) ↔ AtMost sub sup
unfolding label_leq
label_leq_iff sub sup = (
  λ h. (ground arith, λ o. all-includes_sound sub.origins sup.origins o (ground arith)),
  λ h. ground (arith, all-includes_complete sub.origins sup.origins h.1),
)

classification-canonical_label : (l : Label) → (canonical_label l).classification ≡ l.classification
unfolding canonical_label
classification-canonical_label l = refl

pub includes-join :
    (a b : Label) (o : Origin)
    → includes (join a b).origins o ≡ (includes a.origins o || includes b.origins o)
unfolding join
includes-join a b o =
    includes-canonical_label
      (record { classification = a.classification; origins = a.origins ++ b.origins }) o
    ∙ includes-append a.origins b.origins o

-- The classification of a join is the more restrictive of the two.
classification-join :
    (a b : Label)
    → (classification_rank a.classification ≤ classification_rank (join a b).classification)
      × (classification_rank b.classification ≤ classification_rank (join a b).classification)
      × (((join a b).classification ≡ a.classification)
          ⊎ ((join a b).classification ≡ b.classification))
unfolding join
classification-join a b = ground arith

rank_injective : (c d : Classification) → classification_rank c ≡ classification_rank d → c ≡ d
unfolding classification_rank
rank_injective c d h = ground arith

module _ (a b : Label) where
  pub left-AtMost-join : AtMost a (join a b)
  left-AtMost-join = ((classification-join a b).0, λ o h. ground (arith, includes-join a b o))

  pub right-AtMost-join : AtMost b (join a b)
  right-AtMost-join = ((classification-join a b).1, λ o h. ground (arith, includes-join a b o))

  pub join-AtMost : (c : Label) → AtMost a c → AtMost b c → AtMost (join a b) c
  join-AtMost c (ra, ia) (rb, ib) = (
    ground (arith, classification-join a b),
    λ o h. ground (arith, includes-join a b o, ia o, ib o),
  )

pub AtMost-refl : (a : Label) → AtMost a a
AtMost-refl a = (omega arith, λ o h. h)

pub AtMost-trans : (a b c : Label) → AtMost a b → AtMost b c → AtMost a c
AtMost-trans a b c (r, f) (s, g) = (omega arith, λ o h. g o (f o h))

-- The join of two labels is at least each of them, and is at most every label that both are at
-- most: `labelLeq` orders labels so that `join` is the least upper bound.
pub join_least_upper_bound :
    (a b : Label)
    → (label_leq a (join a b) ≡ true)
      × (label_leq b (join a b) ≡ true)
      × ((c : Label) → label_leq a c ≡ true → label_leq b c ≡ true → label_leq (join a b) c ≡ true)
join_least_upper_bound a b = (
  (label_leq_iff _ _).1 (left-AtMost-join a b),
  (label_leq_iff _ _).1 (right-AtMost-join a b),
  λ c h k.
      (label_leq_iff _ _).1 (join-AtMost a b c ((label_leq_iff _ _).0 h) ((label_leq_iff _ _).0 k)),
)

classification-join_comm : (a b : Label) → (join a b).classification ≡ (join b a).classification
classification-join_comm a b =
    rank_injective _ _ (ground (arith, classification-join a b, classification-join b a))

classification-join_assoc :
    (a b c : Label) → (join (join a b) c).classification ≡ (join a (join b c)).classification
classification-join_assoc a b c = rank_injective _ _ (
    ground (
      arith,
      classification-join a b,
      classification-join (join a b) c,
      classification-join b c,
      classification-join a (join b c),
    ))

join-IsSorted : (a b : Label) → IsSorted (join a b).origins
unfolding join
join-IsSorted a b =
    canonical_label-IsSorted
      (record { classification = a.classification; origins = a.origins ++ b.origins })

-- The join does not depend on the order or the grouping of its operands, and joining a label with
-- itself gives its canonical form: the equations are between labels, so the serialisations agree too.
pub join_semilattice :
    (a b c : Label)
    → (join a b ≡ join b a)
      × (join (join a b) c ≡ join a (join b c))
      × (join a a ≡ canonical_label a)
join_semilattice a b c = (
  label_ext _ _ (join-IsSorted a b) (join-IsSorted b a) (classification-join_comm a b)
      (λ o. ground (arith, includes-join a b o, includes-join b a o)),
  label_ext _ _ (join-IsSorted (join a b) c) (join-IsSorted a (join b c))
      (classification-join_assoc a b c)
      (λ o. ground (
        arith,
        includes-join (join a b) c o,
        includes-join a b o,
        includes-join a (join b c) o,
        includes-join b c o,
      )),
  label_ext _ _ (join-IsSorted a a) (canonical_label-IsSorted a)
      (ground (arith, classification-join a a, classification-canonical_label a))
      (λ o. ground (arith, includes-join a a o, includes-canonical_label a o)),
)

-- Taint of a list of origins is a matter of the three untrusted origins only.
any_untrusted :
    (xs : List Origin)
    → any is_untrusted_origin xs
      ≡ (includes xs mcp_response || includes xs external_channel || includes xs rag)
unfolding is_untrusted_origin
any_untrusted [] = refl
any_untrusted (x ∷ xs) = ground (arith, any_untrusted xs)

pub is_tainted-join : (a b : Label) → is_tainted (join a b) ≡ (is_tainted a || is_tainted b)
unfolding is_tainted
is_tainted-join a b = ground (
  arith,
  any_untrusted (join a b).origins,
  any_untrusted a.origins,
  any_untrusted b.origins,
  includes-join a b mcp_response,
  includes-join a b external_channel,
  includes-join a b rag,
)

foldl-join_bounds :
    (acc : Label) (ls : List Label)
    → AtMost acc (foldl join acc ls) × All (λ l. AtMost l (foldl join acc ls)) ls
foldl-join_bounds acc [] = (AtMost-refl acc, tt)
foldl-join_bounds acc (l ∷ ls) =
    let (low, rest) = foldl-join_bounds (join acc l) ls in
    (
      AtMost-trans _ _ _ (left-AtMost-join acc l) low,
      (AtMost-trans _ _ _ (right-AtMost-join acc l) low, rest),
    )

foldl-join_least :
    (acc : Label) (ls : List Label) (c : Label)
    → AtMost acc c
    → All (λ l. AtMost l c) ls
    → AtMost (foldl join acc ls) c
foldl-join_least acc [] c h hs = h
foldl-join_least acc (l ∷ ls) c h (k, ks) =
    foldl-join_least (join acc l) ls c (join-AtMost acc l c h k) ks

is_tainted-foldl-join :
    (acc : Label) (ls : List Label)
    → is_tainted (foldl join acc ls) ≡ (is_tainted acc || any is_tainted ls)
is_tainted-foldl-join acc [] = ground arith
is_tainted-foldl-join acc (l ∷ ls) =
    ground (arith, is_tainted-foldl-join (join acc l) ls, is_tainted-join acc l)

bottom-AtMost : (c : Label) → AtMost bottom c
unfolding classification_rank
bottom-AtMost c = (omega arith, λ o h. cc)

-- The label of a node with many parents is at least each parent's label, is at most every label that
-- all parents' labels are at most, and is tainted exactly when some parent's label is.
pub join_all_lem :
    (labels : List Label)
    → All (λ l. AtMost l (join_all labels)) labels
      × ((c : Label) → All (λ l. AtMost l c) labels → AtMost (join_all labels) c)
      × (is_tainted (join_all labels) ≡ any is_tainted labels)
unfolding join_all
join_all_lem labels = (
  (foldl-join_bounds bottom labels).1,
  λ c hs. foldl-join_least bottom labels c (bottom-AtMost c) hs,
  unfold is_tainted in is_tainted-foldl-join bottom labels,
)
