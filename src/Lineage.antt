-- ===== src/Lineage.antt =====
-- packages/shared-types/src/lineage.ts: the label lattice by which taint is carried along.
pub mod Canonical
pub mod Order
use openclaw_nie_guard.Common.{
  ℕ, Bool, List, [], ◌∷◌, ◌++◌, any, all, includes, distinct, ◌==◌, leb, if◌then◌else◌, true, false,
  ◌&&◌,
}
use mathlib.Core.List.{foldl}
use openclaw_nie_guard.Types.{
  Classification, public, sensitive, regulated, classified_adjacent, classification_code, Origin,
  mcp_response, external_channel, rag, origin_code, origin_eq,
}

-- `UNTRUSTED_ORIGINS`
abbrev untrusted_origins : List Origin
untrusted_origins = mcp_response ∷ external_channel ∷ rag ∷ []

unfoldable pub is_untrusted_origin : Origin → Bool
is_untrusted_origin origin = includes untrusted_origins origin

-- `classificationRank`: the index in `CLASSIFICATION_ORDER`. A classification that the type does not
-- have cannot be written, so the branch for an index of -1 is not reached.
unfoldable pub classification_rank : Classification → ℕ
classification_rank public = 0
classification_rank sensitive = 1
classification_rank regulated = 2
classification_rank classified_adjacent = 3

pub record Label : Type 0 where
  pub classification : Classification
  pub origins : List Origin

-- `BOTTOM`
abbrev pub bottom : Label
bottom = record { classification = public; origins = [] }

-- `sort()` on the origins' names, as an insertion sort over the order of the names.
pub insert_origin : Origin → List Origin → List Origin
insert_origin o [] = o ∷ []
insert_origin o (x ∷ xs) =
    if leb (origin_code o) (origin_code x) then o ∷ x ∷ xs else x ∷ insert_origin o xs

pub sort_origins : List Origin → List Origin
sort_origins [] = []
sort_origins (x ∷ xs) = insert_origin x (sort_origins xs)

pub canonical_label : Label → Label
canonical_label label = record {
  classification = label.classification;
  origins = sort_origins (distinct label.origins);
}

unfoldable pub join : Label → Label → Label
unfolding canonical_label classification_rank
join a b = canonical_label (record {
  classification =
      if leb (classification_rank b.classification) (classification_rank a.classification)
      then a.classification
      else b.classification;
  origins = a.origins ++ b.origins;
})

-- `labels.reduce(join, BOTTOM)`
unfoldable pub join_all : List Label → Label
join_all labels = foldl join bottom labels

unfoldable pub is_tainted : Label → Bool
is_tainted label = any is_untrusted_origin label.origins

unfoldable pub label_leq : Label → Label → Bool
unfolding classification_rank
label_leq sub sup =
    leb (classification_rank sub.classification) (classification_rank sup.classification)
    && all (λ o. includes sup.origins o) sub.origins
