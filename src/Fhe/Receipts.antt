-- ===== src/Fhe/Receipts.antt =====
-- packages/fhe-gate/src/mock.ts: the reference provider, with its results and its receipts passed along. The
-- floating-point numbers and their arithmetic are parameters, the random ids are arguments, and so is whether the
-- sink takes the record of a release.
pub mod Released
use openclaw_nie_guard.Common.{
  ℕ, ◌+◌, ◌*◌, ◌≤◌, ◌≡◌, refl, sym, ap, ◌∙◌, subst, ◌⊎◌, inl, inr, String, Option, none, some, Bool,
  true, false, not, ◌||◌, List, [], ◌∷◌, length, ltb, distinct, ◌==◌, nat_eq, string_eq,
  if◌then◌else◌, Map, lookup, insert, lookup-insert, Bool-cases, Option-cases, arith, eq_iff,
}

pub record Receipt : Type 0 where
  pub handle : String
  pub used : Bool
  pub expires_at : ℕ

pub record Arithmetic : Type 1 where
  pub Number : Type 0
  pub zero : Number
  pub plus : Number → Number → Number
  pub times : Number → Number → Number

module _ (a : Arithmetic) where
  pub record Provider : Type 0 where
    pub results : Map String (List a.Number)
    pub receipts : Map String Receipt

  weighted : List a.Number → List a.Number → a.Number → a.Number
  weighted [] ws sum = sum
  weighted (v ∷ vs) [] sum = sum
  weighted (v ∷ vs) (w ∷ ws) sum = weighted vs ws (a.plus sum (a.times v w))

  -- `inferModeA`, with the weights as `Number` reads them, `none` where one is not finite.
  unfoldable pub infer_mode_a :
      Provider → String → List a.Number → Option (List a.Number) → String → Provider × Option String
  unfolding weighted
  infer_mode_a p template values none uuid = (p, none)
  infer_mode_a p template values (some weights) uuid =
      if not (template == "weighted-sum") || not (length weights == length values)
      then (p, none)
      else (
        record p { results = insert uuid (weighted values weights a.zero ∷ []) p.results },
        some uuid,
      )

  -- `issueDualControlReceipt`, for five minutes.
  unfoldable pub issue_receipt :
      Provider → String → List String → String → ℕ → Provider × Option String
  issue_receipt p ciphertext principals uuid now =
      if ltb (length (distinct principals)) 2 then (p, none) else (
        record p {
          receipts =
              insert uuid
                (record { handle = ciphertext; used = false; expires_at = now + 5 * 60000 })
                p.receipts;
        },
        some uuid,
      )

  -- The test of `releaseModeC` on a receipt that is there.
  abbrev pub is_valid : Receipt → String → ℕ → Bool
  is_valid r ciphertext now = not (r.used || not (r.handle == ciphertext) || ltb r.expires_at now)

  -- `releaseModeC`: the receipt is used up before the sink is called.
  unfoldable pub release_mode_c :
      Provider → String → String → ℕ → Bool → Provider × Option (List a.Number)
  release_mode_c p ciphertext receipt_id now sink_takes = elim (lookup receipt_id p.receipts) [
    | none ↦ (p, none)
    | some r ↦
        if not (is_valid r ciphertext now) then (p, none) else elim (lookup ciphertext p.results) [
          | none ↦ (p, none)
          | some values ↦ (
            record p { receipts = insert receipt_id (record r { used = true }) p.receipts },
            if sink_takes then some values else none,
          )
        ]
  ]

  -- One call of the provider. A receipt id that is drawn has not been drawn before.
  pub data Call : Provider → Provider → Type 0 where
    infers :
        (p : Provider) (template : String) (values : List a.Number)
        (weights : Option (List a.Number)) (uuid : String)
        → Call p (infer_mode_a p template values weights uuid).0
    issues :
        (p : Provider) (ciphertext : String) (principals : List String) (uuid : String) (now : ℕ)
        → lookup uuid p.receipts ≡ none
        → Call p (issue_receipt p ciphertext principals uuid now).0
    releases :
        (p : Provider) (ciphertext receipt_id : String) (now : ℕ) (sink_takes : Bool)
        → Call p (release_mode_c p ciphertext receipt_id now sink_takes).0

  pub data Calls (p : Provider) : Provider → Type 0 where
    here : Calls p p
    next : {q r : Provider} → Calls p q → Call q r → Calls p r
