-- ===== src/Types/Classifications.antt =====
-- classification.ts, and the origins of lineage.ts, in packages/shared-types.
use openclaw_nie_guard.Common.{
  ℕ, zero, suc, ◌≡◌, refl, String, Option, List, [], ◌∷◌, Eq, eq_of_code,
}

-- `Classification`
pub data Classification : Type 0 where
  public sensitive regulated classified_adjacent : Classification

abbrev pub classification_code : Classification → ℕ
classification_code public = 0
classification_code sensitive = 1
classification_code regulated = 2
classification_code classified_adjacent = 3

abbrev classification_of_code : ℕ → Classification
classification_of_code zero = public
classification_of_code (suc zero) = sensitive
classification_of_code (suc (suc zero)) = regulated
classification_of_code _ = classified_adjacent

pub classification_of_code-classification_code :
    (a : Classification) → classification_of_code (classification_code a) ≡ a
classification_of_code-classification_code public = refl
classification_of_code-classification_code sensitive = refl
classification_of_code-classification_code regulated = refl
classification_of_code-classification_code classified_adjacent = refl

instance abbrev pub classification_eq : Eq Classification
classification_eq =
    eq_of_code classification_code classification_of_code classification_of_code-classification_code

-- `FheMode`: 'A', 'B' and 'C'
pub data FheMode : Type 0 where
  mode_a mode_b mode_c : FheMode

abbrev pub fhe_mode_code : FheMode → ℕ
fhe_mode_code mode_a = 0
fhe_mode_code mode_b = 1
fhe_mode_code mode_c = 2

abbrev fhe_mode_of_code : ℕ → FheMode
fhe_mode_of_code zero = mode_a
fhe_mode_of_code (suc zero) = mode_b
fhe_mode_of_code _ = mode_c

pub fhe_mode_of_code-fhe_mode_code : (a : FheMode) → fhe_mode_of_code (fhe_mode_code a) ≡ a
fhe_mode_of_code-fhe_mode_code mode_a = refl
fhe_mode_of_code-fhe_mode_code mode_b = refl
fhe_mode_of_code-fhe_mode_code mode_c = refl

instance abbrev pub fhe_mode_eq : Eq FheMode
fhe_mode_eq = eq_of_code fhe_mode_code fhe_mode_of_code fhe_mode_of_code-fhe_mode_code

-- `MODE_COMPATIBILITY`
unfoldable pub mode_compatibility : Classification → List FheMode
mode_compatibility public = mode_a ∷ mode_b ∷ mode_c ∷ []
mode_compatibility sensitive = mode_a ∷ mode_b ∷ mode_c ∷ []
mode_compatibility regulated = mode_a ∷ mode_b ∷ mode_c ∷ []
mode_compatibility classified_adjacent = mode_a ∷ []

-- `Origin`, in the order in which the names sort as UTF-16: external-channel, mcp-response, rag,
-- system, tool-output, user.
pub data Origin : Type 0 where
  external_channel mcp_response rag system tool_output user : Origin

abbrev pub origin_code : Origin → ℕ
origin_code external_channel = 0
origin_code mcp_response = 1
origin_code rag = 2
origin_code system = 3
origin_code tool_output = 4
origin_code user = 5

abbrev origin_of_code : ℕ → Origin
origin_of_code zero = external_channel
origin_of_code (suc zero) = mcp_response
origin_of_code (suc (suc zero)) = rag
origin_of_code (suc (suc (suc zero))) = system
origin_of_code (suc (suc (suc (suc zero)))) = tool_output
origin_of_code _ = user

pub origin_of_code-origin_code : (a : Origin) → origin_of_code (origin_code a) ≡ a
origin_of_code-origin_code external_channel = refl
origin_of_code-origin_code mcp_response = refl
origin_of_code-origin_code rag = refl
origin_of_code-origin_code system = refl
origin_of_code-origin_code tool_output = refl
origin_of_code-origin_code user = refl

instance abbrev pub origin_eq : Eq Origin
origin_eq = eq_of_code origin_code origin_of_code origin_of_code-origin_code

-- `ContextElement`: one piece of material that enters the model context.
pub record ContextElement : Type 0 where
  pub element_id : String
  pub provenance : Origin
  pub classification : Classification
  pub content_hash : String
  pub sentinel_mark_id : Option String
  pub registered_at : ℕ
