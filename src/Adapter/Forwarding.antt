-- ===== src/Adapter/Forwarding.antt =====
-- When the adapter calls the transport, and that it never refuses what the default policy allows.
use openclaw_nie_guard.Common.{
  ◌≡◌, inl, inr, sym, ap, ◌∙◌, ◌↔◌, String, none, some, Bool, true, false, not, ◌||◌, includes,
  lookup, Every, Every-lookup, ◌==◌, string_eq, if◌then◌else◌, ◌or_else◌, arith,
}
use mathlib.Core.Path.{subst₂}
use openclaw_nie_guard.Types.{
  OperationClass, operation_class_eq, node_invoke, export_data, exec_run, admin_control,
  PolicyProfile, policy_profile_eq, standard, strict, scif,
}
use openclaw_nie_guard.Policy.{
  PolicyEngine, PolicyEvaluationInput, PolicyDecision, evaluate, resolve_role,
}
use openclaw_nie_guard.Policy.Roles.{
  RoleDefinition, default_role_matrix, get_property, lookup_of_own,
}
use openclaw_nie_guard.Policy.Decisions.{evaluate_allowed_iff, own-injective}
use openclaw_nie_guard.Adapter.{MediatedOperation, OpenClawTransport, forward, method_of}

-- The profiles at which an operation class goes through.
abbrev pub goes_through : OperationClass → PolicyProfile → Bool
goes_through exec_run profile = profile == strict || profile == scif
goes_through admin_control profile = profile == strict || profile == scif
goes_through node_invoke profile = not (profile == standard)
goes_through export_data profile = not (profile == standard)
goes_through _ profile = true

pub forward_lem :
    (transport : OpenClawTransport) (op : MediatedOperation) (profile : PolicyProfile)
    → let answer = transport.call (method_of op.operation_class) op in
      let (called, response) = forward transport op profile in
      (called ≡ (
        if goes_through op.operation_class profile
        then some (method_of op.operation_class)
        else none))
      × (goes_through op.operation_class profile ≡ true
          → (response.ok ≡ answer.ok)
            × (response.error ≡ answer.error)
            × (response.result ≡ answer.result)
            × ((response.forwarded ≡ some false) ↔ (answer.forwarded ≡ some false)))
      × (goes_through op.operation_class profile ≡ false
          → (response.ok ≡ false) × (response.forwarded ≡ some false))
unfolding forward
forward_lem transport op profile = ground arith

-- The operations of a role go through at the role's default profile.
abbrev AllGoThrough : RoleDefinition → Type 0
AllGoThrough r =
    (op : OperationClass)
    → includes r.allowed_operations op ≡ true
    → goes_through op r.default_profile ≡ true

matrix-AllGoThrough : Every AllGoThrough default_role_matrix
matrix-AllGoThrough = (
  λ op h. ground arith,
  (
    λ op h. ground arith,
    (
      λ op h. ground arith,
      (
        λ op h. ground arith,
        (λ op h. ground arith, (λ op h. ground arith, (λ op h. ground arith, tt))),
      ),
    ),
  ),
)

default_of_no_bundle :
    (engine : PolicyEngine) (name : String)
    → engine.bundle ≡ none
    → resolve_role engine name ≡ get_property name default_role_matrix
unfolding resolve_role
default_of_no_bundle engine name e = rw (e, resolve_role)

-- Defence in depth never contradicts the policy: what the engine allows under the default matrix, with
-- no profile asked for, the adapter forwards at the decision's profile.
pub allowed_is_forwarded :
    (transport : OpenClawTransport) (engine : PolicyEngine) (input : PolicyEvaluationInput)
    (d : PolicyDecision) (op : MediatedOperation)
    → engine.bundle ≡ none
    → input.requested_profile ≡ none
    → evaluate engine input ≡ some d
    → d.allowed ≡ true
    → op.operation_class ≡ input.operation_class
    → (forward transport op d.profile).0 ≡ some (method_of op.operation_class)
allowed_is_forwarded transport engine input d op no_bundle no_profile decided allowed same =
    let (when, grant) = evaluate_allowed_iff engine input d decided in
    let (r, resolved, (inside, _, _)) = when.0 allowed in
    let known : lookup input.role default_role_matrix ≡ some r =
      lookup_of_own input.role default_role_matrix r
        (sym (default_of_no_bundle engine input.role no_bundle) ∙ resolved) in
    let through : goes_through input.operation_class r.default_profile ≡ true =
      Every-lookup AllGoThrough input.role default_role_matrix r matrix-AllGoThrough known
        input.operation_class inside in
    let profile : d.profile ≡ (input.requested_profile or_else r.default_profile) = elim grant [
      | inl denies ↦ absurd (ground (arith, allowed, denies))
      | inr (q, resolved', (is_profile, _, _, _)) ↦
          is_profile
          ∙ ap (λ (x : RoleDefinition). input.requested_profile or_else x.default_profile)
              (own-injective (sym resolved' ∙ resolved))
    ] in
    let own_profile : d.profile ≡ r.default_profile =
      profile ∙ ap (λ o. o or_else r.default_profile) no_profile in
    let here : goes_through op.operation_class d.profile ≡ true =
      subst₂ (λ c p. goes_through c p ≡ true) (sym same) (sym own_profile) through in
    (forward_lem transport op d.profile).0
    ∙ ap (λ b. if b then some (method_of op.operation_class) else none) here
