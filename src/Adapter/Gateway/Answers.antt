-- ===== src/Adapter/Gateway/Answers.antt =====
-- When the gateway is called, and when its answer is a result.
use openclaw_nie_guard.Common.{
  ◌≡◌, ◌↔◌, refl, sym, ap, ◌∙◌, ◌⊎◌, inl, inr, String, Option, none, some, Bool, true, false, ◌&&◌,
  ◌==◌, nat_eq, string_eq, if◌then◌else◌, ◌or_else◌, lookup, is_some, arith, Option-cases,
  Bool-cases, eq_iff,
}
use openclaw_nie_guard.Types.{
  OperationClass, operator_read, operator_write, tool_invoke, node_invoke, file_read, file_write,
  export_data, exec_run, admin_control, PolicyProfile,
}
use openclaw_nie_guard.Adapter.{MediatedOperation, AdapterResponse, Method, method_of, forward}
use openclaw_nie_guard.Adapter.Forwarding.{goes_through, forward_lem}
use openclaw_nie_guard.Adapter.Gateway.{
  GatewayTarget, OpenClawGatewayTransportOptions, GatewayCall, Fetched, answered, no_answer,
  GatewayBody, mapped, read_result, call_of, perform, read_target, not_mapped, gateway_transport,
}

-- The operation classes that the gateway reads.
abbrev pub is_read : OperationClass → Bool
is_read operator_read = true
is_read file_read = true
is_read export_data = true
is_read _ = false

none_not_some : {A : Type 0} {a : A} → none ≡ some a → ⊥
none_not_some e = absurd (ground (arith, e))

true_not_false : some true ≡ some false → ⊥
true_not_false e = absurd (ground (arith, e))

status_is_ok : (status : Option String) → ((status or_else "") == "ok") ≡ true → status ≡ some "ok"
status_is_ok none e = absurd (ground (arith, eq_iff "" "ok"))
status_is_ok (some s) e = ap some ((eq_iff s "ok").0 e)

mapped_good :
    (target : GatewayTarget) (body : GatewayBody)
    → body.ok ≡ true
    → body.details.status ≡ some "ok"
    → (mapped target (answered 200 body)).ok ≡ true
unfolding mapped
mapped_good target body is_ok status =
    let same : ((body.details.status or_else "") == "ok") ≡ true =
      ap (λ o. (o or_else "") == "ok") status in
    ground (arith, is_ok, same)

mapped-ok :
    (target : GatewayTarget) (found : Fetched)
    → ((mapped target found).ok ≡ false)
      ⊎ ((body : GatewayBody) × (found ≡ answered 200 body)
          × (body.ok ≡ true)
          × (body.details.status ≡ some "ok")
          × ((mapped target found).ok ≡ true)
          × ((mapped target found).result ≡ some (read_result target body.details)))
unfolding mapped
mapped-ok target (no_answer e) = inl refl
mapped-ok target (answered status body) = elim (Bool-cases (status == 200)) [
  | inr other ↦ inl (ground (arith, other))
  | inl good ↦ elim (Bool-cases body.ok) [
    | inr bad ↦ inl (ground (arith, good, bad))
    | inl fine ↦ elim (Bool-cases ((body.details.status or_else "") == "ok")) [
      | inr other ↦ inl (ground (arith, good, fine, other))
      | inl is_ok ↦ inr (
        body,
        ground (arith, good),
        fine,
        status_is_ok body.details.status is_ok,
        ground (arith, good, fine, is_ok),
        ground (arith, good, fine, is_ok),
      )
    ]
  ]
]

module _ (options : OpenClawGatewayTransportOptions) (fetch : GatewayCall → Fetched) where
  -- The gateway's call for an operation: one that goes through the adapter, is a read, and has a target.
  abbrev pub gateway_call : MediatedOperation → PolicyProfile → Option GatewayCall
  gateway_call op profile = elim (lookup op.target_id options.targets) [
    | none ↦ none
    | some target ↦
        if goes_through op.operation_class profile && is_read op.operation_class
        then some (call_of options fetch target op)
        else none
  ]

  -- The calls that the adapter leads to.
  abbrev pub calls_of : Option Method → MediatedOperation → Option GatewayCall
  calls_of none op = none
  calls_of (some method) op = (perform options fetch method op).0

  class_cases :
      (c : OperationClass) (op : MediatedOperation)
      → ((is_read c ≡ true)
          × (perform options fetch (method_of c) op ≡ read_target options fetch op))
        ⊎ ((is_read c ≡ false)
            × (perform options fetch (method_of c) op ≡ not_mapped options fetch op))
  unfolding perform method_of
  class_cases operator_read op = inl (refl, refl)
  class_cases operator_write op = inr (refl, refl)
  class_cases tool_invoke op = inr (refl, refl)
  class_cases node_invoke op = inr (refl, refl)
  class_cases file_read op = inl (refl, refl)
  class_cases file_write op = inr (refl, refl)
  class_cases export_data op = inl (refl, refl)
  class_cases exec_run op = inr (refl, refl)
  class_cases admin_control op = inr (refl, refl)

  mapped-forwarded :
      (target : GatewayTarget) (found : Fetched) → (mapped target found).forwarded ≡ none
  unfolding mapped
  mapped-forwarded target found = ground arith

  -- What the transport does with an operation: a call and its answer, or a refusal.
  performed :
      (op : MediatedOperation)
      → let (call, answer) = perform options fetch (method_of op.operation_class) op in
        ((target : GatewayTarget) × (lookup op.target_id options.targets ≡ some target)
          × (is_read op.operation_class ≡ true)
          × (call ≡ some (call_of options fetch target op))
          × (answer ≡ mapped target (fetch (call_of options fetch target op))))
        ⊎ ((is_some (lookup op.target_id options.targets) && is_read op.operation_class ≡ false)
            × (call ≡ none)
            × (answer.ok ≡ false)
            × (answer.forwarded ≡ some false))
  unfolding read_target not_mapped
  performed op = elim (class_cases op.operation_class op) [
    | inr (other, e) ↦
        inr (ground (arith, other), ap (λ x. x.0) e, ap (λ x. x.1.ok) e, ap (λ x. x.1.forwarded) e)
    | inl (reads, e) ↦ elim (Option-cases (lookup op.target_id options.targets)) [
      | inl missing ↦ inr (
        ground (arith, missing),
        ap (λ x. x.0) e ∙ ground (arith, missing),
        ap (λ x. x.1.ok) e ∙ ground (arith, missing),
        ap (λ x. x.1.forwarded) e ∙ ground (arith, missing),
      )
      | inr (target, found) ↦ inl (
        target,
        found,
        reads,
        ap (λ x. x.0) e ∙ ground (arith, found),
        ap (λ x. x.1) e ∙ ground (arith, found),
      )
    ]
  ]

  abbrev Called : MediatedOperation → PolicyProfile → GatewayTarget → Type 0
  Called op profile target =
      let (method, response) = forward (gateway_transport options fetch) op profile in
      let answer = mapped target (fetch (call_of options fetch target op)) in
      (lookup op.target_id options.targets ≡ some target)
      × (goes_through op.operation_class profile ≡ true)
      × (is_read op.operation_class ≡ true)
      × (calls_of method op ≡ some (call_of options fetch target op))
      × (response.ok ≡ answer.ok)
      × (response.result ≡ answer.result)
      × (response.forwarded ≡ some true)

  abbrev NotCalled : MediatedOperation → PolicyProfile → Type 0
  NotCalled op profile =
      let (method, response) = forward (gateway_transport options fetch) op profile in
      (gateway_call op profile ≡ none)
      × (calls_of method op ≡ none)
      × (response.ok ≡ false)
      × (response.forwarded ≡ some false)

  answer_of :
      (op : MediatedOperation) (method : Method)
      → (gateway_transport options fetch).call method op ≡ (perform options fetch method op).1
  unfolding gateway_transport
  answer_of op method = refl

  forwarded-given :
      (op : MediatedOperation) (profile : PolicyProfile)
      → let (method, response) = forward (gateway_transport options fetch) op profile in
        (response.forwarded ≡ some true) ⊎ (response.forwarded ≡ some false)
  unfolding forward
  forwarded-given op profile = ground arith

  outcome :
      (op : MediatedOperation) (profile : PolicyProfile)
      → ((target : GatewayTarget) × Called op profile target) ⊎ NotCalled op profile
  outcome op profile =
      let (called, through, stopped) = forward_lem (gateway_transport options fetch) op profile in
      elim (Bool-cases (goes_through op.operation_class profile)) [
        | inr shut ↦
            let (fails, kept_back) = stopped shut in
            inr (
              ground (arith, shut),
              ap (λ m. calls_of m op)
                  (called ∙ ap (λ b. if b then some (method_of op.operation_class) else none) shut),
              fails,
              kept_back,
            )
        | inl clear ↦
            let (same_ok, same_error, same_result, back) = through clear in
            let is_method =
              called ∙ ap (λ b. if b then some (method_of op.operation_class) else none) clear in
            let answers = answer_of op (method_of op.operation_class) in
            elim (performed op) [
              | inr (none_of, no_call, fails, kept_back) ↦ inr (
                ground (arith, none_of),
                ap (λ m. calls_of m op) is_method ∙ no_call,
                same_ok ∙ ap (λ (r : AdapterResponse). r.ok) answers ∙ fails,
                back.1 (ap (λ (r : AdapterResponse). r.forwarded) answers ∙ kept_back),
              )
              | inl (target, found, reads, calls, maps) ↦ inl (
                target,
                (
                  found,
                  clear,
                  reads,
                  ap (λ m. calls_of m op) is_method ∙ calls,
                  same_ok ∙ ap (λ (r : AdapterResponse). r.ok) (answers ∙ maps),
                  same_result ∙ ap (λ (r : AdapterResponse). r.result) (answers ∙ maps),
                  elim (forwarded-given op profile) [
                    | inl so ↦ so
                    | inr back_kept ↦ absurd (
                        none_not_some (
                          sym (mapped-forwarded target _)
                          ∙ sym (ap (λ (r : AdapterResponse). r.forwarded) (answers ∙ maps))
                          ∙ back.0 back_kept))
                  ],
                ),
              )
            ]
      ]

  gateway_call-some :
      (op : MediatedOperation) (profile : PolicyProfile) (target : GatewayTarget)
      → lookup op.target_id options.targets ≡ some target
      → goes_through op.operation_class profile ≡ true
      → is_read op.operation_class ≡ true
      → gateway_call op profile ≡ some (call_of options fetch target op)
  gateway_call-some op profile target found clear reads = ground (arith, found, clear, reads)

  -- The adapter over this transport calls the gateway exactly for an operation that goes through at the profile, is a read, and has a target in the table, with the target's tool and path and the correlation id; and its response says `forwarded` exactly then.
  pub gateway_is_called :
      (op : MediatedOperation) (profile : PolicyProfile)
      → let (method, response) = forward (gateway_transport options fetch) op profile in
        (calls_of method op ≡ gateway_call op profile)
        × ((response.forwarded ≡ some true) ↔ (is_some (gateway_call op profile) ≡ true))
  gateway_is_called op profile = elim (outcome op profile) [
    | inl (target, (found, clear, reads, calls, _, _, forwards)) ↦
        let e = gateway_call-some op profile target found clear reads in
        (calls ∙ sym e, ((λ _. ap is_some e), λ _. forwards))
    | inr (no_call, calls, _, back) ↦ (
      calls ∙ sym no_call,
      (
        (λ forwards. absurd (true_not_false (sym forwards ∙ back))),
        λ called. absurd (ground (arith, no_call, called)),
      ),
    )
  ]

  -- A response is a success exactly if the operation has a target in the table, goes through at the profile and is a read, and the gateway's answer to its call is 200 with `ok` and with the tool's status `ok`. And a response is no success, or its result is what the tool read in that answer.
  pub success_is_read :
      (op : MediatedOperation) (profile : PolicyProfile)
      → let (method, response) = forward (gateway_transport options fetch) op profile in
        ((response.ok ≡ true) ↔ (
          (target : GatewayTarget) × (body : GatewayBody) × (lookup op.target_id options.targets
            ≡ some target)
          × (goes_through op.operation_class profile ≡ true)
          × (is_read op.operation_class ≡ true)
          × (fetch (call_of options fetch target op) ≡ answered 200 body)
          × (body.ok ≡ true)
          × (body.details.status ≡ some "ok")))
        × ((response.ok ≡ false)
            ⊎ ((target : GatewayTarget) × (body : GatewayBody) × (lookup op.target_id
                    options.targets
                  ≡ some target)
                × (fetch (call_of options fetch target op) ≡ answered 200 body)
                × (response.result ≡ some (read_result target body.details))))
  success_is_read op profile = elim (outcome op profile) [
    | inr (no_call, _, fails, _) ↦ (
      (
        (λ succeeds. absurd (ground (arith, succeeds, fails))),
        λ (target, _, found, clear, reads, _, _, _).
            absurd (ground (arith, no_call, gateway_call-some op profile target found clear reads)),
      ),
      inl fails,
    )
    | inl (target, (found, clear, reads, _, same_ok, same_result, _)) ↦ (
      (
        (λ succeeds. elim (mapped-ok target (fetch (call_of options fetch target op))) [
          | inl fails ↦ absurd (ground (arith, succeeds, same_ok, fails))
          | inr (body, answers, is_ok, status, _, _) ↦
              (target, body, found, clear, reads, answers, is_ok, status)
        ]),
        λ (target', body, found', _, _, answers, is_ok, status).
            let same : target' ≡ target = ground (arith, found, found') in
            same_ok
            ∙ sym (ap (λ t. (mapped t (fetch (call_of options fetch t op))).ok) same)
            ∙ ap (λ f. (mapped target' f).ok) answers
            ∙ mapped_good target' body is_ok status,
      ),
      elim (mapped-ok target (fetch (call_of options fetch target op))) [
        | inl fails ↦ inl (same_ok ∙ fails)
        | inr (body, answers, _, _, _, result) ↦
            inr (target, body, found, answers, same_result ∙ result)
      ],
    )
  ]
