-- ===== src/Common/Equality.antt =====
-- Decided equality as an interface, with instances for numbers and texts, and a way to derive it for
-- an enumeration from a code that can be read back.
use Prim.Native.Nat.{ℕ}
use Prim.Native.String.{String}
use mathlib.Core.Path.{◌≡◌, refl, ap, sym, ◌∙◌}
use mathlib.Core.Logic.{◌↔◌, ◌≢◌, inl, inr}
use mathlib.Core.Bool.{Bool, true, false}
use text.Mathlib.Text.{◌==◌ as str_eq}
use text.Mathlib.TextEquality.{eq_iff}
use openclaw_nie_guard.Common.Tests.{nat_beq, nat_beq_iff, Bool-cases}

pub record Eq {ℓ} (A : Type ℓ) : Type ℓ where
  pub same : A → A → Bool
  pub same_iff : (x y : A) → (same x y ≡ true) ↔ (x ≡ y)

module _ {ℓ} {A : Type ℓ} where
  pub code_injective :
      (code : A → ℕ) (decode : ℕ → A)
      → ((a : A) → decode (code a) ≡ a)
      → (a b : A) → (nat_beq (code a) (code b) ≡ true) ↔ (a ≡ b)
  code_injective code decode inverse a b = (
    λ h. sym (inverse a) ∙ ap decode ((nat_beq_iff (code a) (code b)).0 h) ∙ inverse b,
    λ e. (nat_beq_iff (code a) (code b)).1 (ap code e),
  )

  abbrev pub eq_of_code : (code : A → ℕ) (decode : ℕ → A) → ((a : A) → decode (code a) ≡ a) → Eq A
  eq_of_code code decode inverse = record {
    same = λ a b. nat_beq (code a) (code b);
    same_iff = code_injective code decode inverse;
  }

instance abbrev pub string_eq : Eq String
string_eq = record { same_iff = eq_iff; same = str_eq }

instance abbrev pub nat_eq : Eq ℕ
nat_eq = record { same_iff = nat_beq_iff; same = nat_beq }

infix 50 ◌==◌
abbrev pub ◌==◌ {ℓ} : {A : Type ℓ} ⦃decided : Eq A⦄ → A → A → Bool
◌==◌ ⦃decided⦄ = decided.same

module _ {ℓ} {A : Type ℓ} ⦃e : Eq A⦄ where
  pub beq_refl : (a : A) → (a == a) ≡ true
  beq_refl a = (e.same_iff a a).1 refl

  pub beq_sound : (a b : A) → (a == b) ≡ true → a ≡ b
  beq_sound a b = (e.same_iff a b).0

  pub beq_ne : (a b : A) → a ≢ b → (a == b) ≡ false
  beq_ne a b h = elim (Bool-cases (a == b)) [
    | inl same ↦ absurd (h (beq_sound a b same))
    | inr other ↦ other
  ]
