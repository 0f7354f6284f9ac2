-- ===== src/Broker/Deadline.antt =====
-- lib/deadline.ts. The work of a dependency settles after some milliseconds, or never; `with_deadline`
-- waits for it within a budget. The work is not cancelled: what it does to its own state it does
-- whether or not the caller still waits.
use openclaw_nie_guard.Common.{
  Bool-cases, ℕ, ◌≡◌, ◌⊎◌, inl, inr, refl, Option, none, some, ltb, ◌||◌, ◌==◌, nat_eq,
  if◌then◌else◌, arith,
}
use openclaw_nie_guard.Types.{Thrown, Result, ok, threw}

pub record Work {ℓ} (A : Type ℓ) : Type ℓ where
  pub settles_after : Option ℕ
  pub result : Result A

pub data Awaited {ℓ} (A : Type ℓ) : Type ℓ where
  settled : A → Awaited A
  rejected : Thrown → Awaited A
  exceeded : ℕ → Awaited A

abbrev settle {ℓ} : {A : Type ℓ} → Result A → Awaited A
settle (ok a) = settled a
settle (threw e) = rejected e

-- `exceeded` is `DeadlineExceeded` with its budget. Work that settles exactly at the budget counts as
-- late, since the timer was set first, unless it was settled at once: a settled promise goes before any timer.
abbrev pub with_deadline {ℓ} : {A : Type ℓ} → ℕ → Work A → Awaited A
with_deadline budget_ms work = elim work.settles_after [
  | none ↦ exceeded budget_ms
  | some elapsed ↦
      if elapsed == 0 || ltb elapsed budget_ms then settle work.result else exceeded budget_ms
]

-- What is done with an answer, with the rejection of the work, and after the deadline.
abbrev pub on_awaited {ℓ ℓ'} :
    {A : Type ℓ} {B : Type ℓ'} → Awaited A → (Thrown → B) → (ℕ → B) → (A → B) → B
on_awaited (rejected err) on_error on_late on_answer = on_error err
on_awaited (exceeded budget_ms) on_error on_late on_answer = on_late budget_ms
on_awaited (settled a) on_error on_late on_answer = on_answer a

-- `DEADLINES`, from the environment
pub record Deadlines : Type 0 where
  pub token_verify : ℕ
  pub nonce_consume : ℕ
  pub envelope_validate : ℕ
  pub adapter_forward : ℕ

abbrev pub default_deadlines : Deadlines
default_deadlines = record {
  token_verify = 2000;
  nonce_consume = 2000;
  envelope_validate = 3000;
  adapter_forward = 15000;
}

pub Awaited-cases {ℓ} :
    {A : Type ℓ} (w : Awaited A)
    → ((err : Thrown) × (w ≡ rejected err))
      ⊎ (((ms : ℕ) × (w ≡ exceeded ms)) ⊎ ((a : A) × (w ≡ settled a)))
Awaited-cases (rejected err) = inl (err, refl)
Awaited-cases (exceeded ms) = inr (inl (ms, refl))
Awaited-cases (settled a) = inr (inr (a, refl))

-- What is waited for is what the work returned.
pub settled_in_time {ℓ} :
    {A : Type ℓ} (budget_ms : ℕ) (settles_after : Option ℕ) (a b : A)
    → with_deadline budget_ms (record { settles_after = settles_after; result = ok a }) ≡ settled b
    → a ≡ b
settled_in_time budget_ms none a b h = ground arith
settled_in_time budget_ms (some n) a b h = elim (Bool-cases (n == 0 || ltb n budget_ms)) [
  | inl e ↦ ground (arith, e, h)
  | inr e ↦ ground (arith, e, h)
]
