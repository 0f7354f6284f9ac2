-- ===== src/Fhe/Receipts/Released.antt =====
-- What a release of the reference provider has behind it, and that its receipt is used up.
use openclaw_nie_guard.Common.{
  ℕ, ◌+◌, ◌*◌, ◌≤◌, ◌≡◌, refl, sym, ap, ◌∙◌, subst, ◌⊎◌, inl, inr, String, Option, none, some, Bool,
  true, false, List, [], length, ltb, distinct, ◌==◌, nat_eq, string_eq, if◌then◌else◌, lookup,
  insert, lookup-insert, Bool-cases, Option-cases, arith, eq_iff,
}
use openclaw_nie_guard.Fhe.Receipts.{
  Receipt, Arithmetic, Provider, infer_mode_a, issue_receipt, is_valid, release_mode_c, Call,
  infers, issues, releases, Calls, here, next,
}

module _ (a : Arithmetic) where
  -- The receipt is there and used up.
  IsSpent : String → Provider a → Type 0
  IsSpent id p = (r : Receipt) × (lookup id p.receipts ≡ some r) × (r.used ≡ true)

  infers-receipts :
      (p : Provider a) (template : String) (values : List a.Number)
      (weights : Option (List a.Number)) (uuid : String)
      → (infer_mode_a a p template values weights uuid).0.receipts ≡ p.receipts
  unfolding infer_mode_a
  infers-receipts p template values none uuid = refl
  infers-receipts p template values (some weights) uuid = ground arith

  spent-refused :
      (id : String) (p : Provider a) (ciphertext : String) (now : ℕ) (sink_takes : Bool)
      → IsSpent id p
      → release_mode_c a p ciphertext id now sink_takes ≡ (p, none)
  unfolding release_mode_c IsSpent
  spent-refused id p ciphertext now sink_takes (r, there, used) = ground (arith, there, used)

  -- A release leaves the provider and throws, or it has a valid receipt and a result, and uses the receipt up.
  release-cases :
      (p : Provider a) (ciphertext receipt_id : String) (now : ℕ) (sink_takes : Bool)
      → let result = release_mode_c a p ciphertext receipt_id now sink_takes in
        (result ≡ (p, none))
        ⊎ ((r : Receipt) × (values : List a.Number) × (lookup receipt_id p.receipts ≡ some r)
            × (is_valid a r ciphertext now ≡ true)
            × (lookup ciphertext p.results ≡ some values)
            × (result ≡ (
              record p { receipts = insert receipt_id (record r { used = true }) p.receipts },
              if sink_takes then some values else none,
            )))
  unfolding release_mode_c
  release-cases p ciphertext receipt_id now sink_takes =
      elim (Option-cases (lookup receipt_id p.receipts)) [
        | inl missing ↦ inl (ground (arith, missing))
        | inr (r, there) ↦ elim (Bool-cases (is_valid a r ciphertext now)) [
          | inr invalid ↦ inl (ground (arith, there, invalid))
          | inl valid ↦ elim (Option-cases (lookup ciphertext p.results)) [
            | inl missing ↦ inl (ground (arith, there, valid, missing))
            | inr (values, result) ↦
                inr (r, values, there, valid, result, ground (arith, there, valid, result))
          ]
        ]
      ]

  spend-IsSpent :
      (id receipt_id : String) (p : Provider a) (r : Receipt)
      → (receipt_id ≡ id) ⊎ IsSpent id p
      → IsSpent id (record p { receipts = insert receipt_id (record r { used = true }) p.receipts })
  unfolding IsSpent
  spend-IsSpent id receipt_id p r h = elim (Bool-cases (receipt_id == id)) [
    | inl same ↦ (
      record r { used = true },
      ground (arith, lookup-insert receipt_id id (record r { used = true }) p.receipts, same),
      refl,
    )
    | inr other ↦ elim h [
      | inl same ↦ absurd (ground (arith, (eq_iff receipt_id id).1 same, other))
      | inr (q, there, used) ↦ (
        q,
        ground (
          arith,
          lookup-insert receipt_id id (record r { used = true }) p.receipts,
          other,
          there,
        ),
        used,
      )
    ]
  ]

  issue-IsSpent :
      (id : String) (p : Provider a) (ciphertext : String) (principals : List String)
      (uuid : String) (now : ℕ)
      → lookup uuid p.receipts ≡ none
      → IsSpent id p
      → IsSpent id (issue_receipt a p ciphertext principals uuid now).0
  unfolding IsSpent issue_receipt
  issue-IsSpent id p ciphertext principals uuid now unused (r, there, used) =
      elim (Bool-cases (ltb (length (distinct principals)) 2)) [
        | inl few ↦ (r, ground (arith, few, there), used)
        | inr enough ↦ elim (Bool-cases (uuid == id)) [
          | inl same ↦
              let e : uuid ≡ id = (eq_iff uuid id).0 same in
              absurd (ground (arith, ap (λ k. lookup k p.receipts) e, unused, there))
          | inr other ↦
              let fresh : Receipt = record {
                handle = ciphertext;
                used = false;
                expires_at = now + 5 * 60000;
              } in
              (
                r,
                ground (arith, enough, lookup-insert uuid id fresh p.receipts, other, there),
                used,
              )
        ]
      ]

  Call-IsSpent : (id : String) {p q : Provider a} → Call a p q → IsSpent id p → IsSpent id q
  unfolding IsSpent
  Call-IsSpent id (infers p template values weights uuid) (r, there, used) =
      (r, ap (lookup id) (infers-receipts p template values weights uuid) ∙ there, used)
  Call-IsSpent id (issues p ciphertext principals uuid now unused) spent =
      issue-IsSpent id p ciphertext principals uuid now unused spent
  Call-IsSpent id (releases p ciphertext receipt_id now sink_takes) spent =
      elim (release-cases p ciphertext receipt_id now sink_takes) [
        | inl same ↦
            subst (λ (x : Provider a × Option (List a.Number)). IsSpent id x.0) (sym same) spent
        | inr (r, values, _, _, _, e) ↦
            subst (λ (x : Provider a × Option (List a.Number)). IsSpent id x.0) (sym e)
              (spend-IsSpent id receipt_id p r (inr spent))
      ]

  Calls-IsSpent : (id : String) {p q : Provider a} → Calls a p q → IsSpent id p → IsSpent id q
  Calls-IsSpent id here spent = spent
  Calls-IsSpent id (next before call) spent = Call-IsSpent id call (Calls-IsSpent id before spent)

  -- The provider at the start.
  abbrev pub new_provider : Provider a
  new_provider = record { results = []; receipts = [] }

  -- The receipt was issued to two principals at least, for this ciphertext and five minutes before it expires.
  abbrev pub IssuedFor : String → String → ℕ → Provider a → Type 0
  IssuedFor id ciphertext expires_at p =
      (q : Provider a) × (principals : List String) × (at : ℕ) × Calls a new_provider q
      × (2 ≤ length (distinct principals))
      × (expires_at ≡ at + 300000)
      × Calls a (issue_receipt a q ciphertext principals id at).0 p

  IssuedFor-next :
      (id ciphertext : String) (expires_at : ℕ) {p p' : Provider a}
      → Call a p p'
      → IssuedFor id ciphertext expires_at p
      → IssuedFor id ciphertext expires_at p'
  IssuedFor-next id ciphertext expires_at call (q, principals, at, from, two, end, calls) =
      (q, principals, at, from, two, end, next calls call)

  -- What a receipt is after a call: it was there before, but for its use, or it was issued by the call.
  issue-cases :
      (id : String) (p : Provider a) (ciphertext : String) (principals : List String)
      (uuid : String) (now : ℕ) (r : Receipt)
      → lookup id (issue_receipt a p ciphertext principals uuid now).0.receipts ≡ some r
      → (lookup id p.receipts ≡ some r)
        ⊎ ((uuid ≡ id)
            × (2 ≤ length (distinct principals))
            × (r.handle ≡ ciphertext)
            × (r.expires_at ≡ now + 300000))
  unfolding issue_receipt
  issue-cases id p ciphertext principals uuid now r there =
      let fresh : Receipt = record {
        handle = ciphertext;
        used = false;
        expires_at = now + 5 * 60000;
      } in
      elim (Bool-cases (ltb (length (distinct principals)) 2)) [
        | inl few ↦ inl (ground (arith, few, there))
        | inr enough ↦ elim (Bool-cases (uuid == id)) [
          | inl same ↦
              let e : fresh ≡ r =
                ground (arith, enough, there, lookup-insert uuid id fresh p.receipts, same) in
              inr (
                (eq_iff uuid id).0 same,
                ground (arith, enough),
                sym (ap (λ (x : Receipt). x.handle) e),
                sym (ap (λ (x : Receipt). x.expires_at) e),
              )
          | inr other ↦
              inl (ground (arith, enough, there, lookup-insert uuid id fresh p.receipts, other))
        ]
      ]

  spend-cases :
      (id receipt_id : String) (p : Provider a) (q r : Receipt)
      → lookup receipt_id p.receipts ≡ some q
      → lookup id (insert receipt_id (record q { used = true }) p.receipts) ≡ some r
      → (before : Receipt) × (lookup id p.receipts ≡ some before)
        × (before.handle ≡ r.handle)
        × (before.expires_at ≡ r.expires_at)
  spend-cases id receipt_id p q r kept there = elim (Bool-cases (receipt_id == id)) [
    | inl same ↦
        let spent : Receipt = record q { used = true } in
        let e : spent ≡ r =
          ground (arith, there, lookup-insert receipt_id id spent p.receipts, same) in
        (
          q,
          ap (λ k. lookup k p.receipts) (sym ((eq_iff receipt_id id).0 same)) ∙ kept,
          ap (λ (x : Receipt). x.handle) e,
          ap (λ (x : Receipt). x.expires_at) e,
        )
    | inr other ↦
        let spent : Receipt = record q { used = true } in
        (r, ground (arith, there, lookup-insert receipt_id id spent p.receipts, other), refl, refl)
  ]

  receipt-IssuedFor :
      (id : String) (r : Receipt) {p : Provider a}
      → Calls a new_provider p
      → lookup id p.receipts ≡ some r
      → IssuedFor id r.handle r.expires_at p
  unfolding lookup
  receipt-IssuedFor id r here there = absurd (ground (arith, there))
  receipt-IssuedFor id r (next before (infers p template values weights uuid)) there =
      IssuedFor-next id r.handle r.expires_at (infers p template values weights uuid) (
        receipt-IssuedFor id r before
          (ap (lookup id) (sym (infers-receipts p template values weights uuid)) ∙ there))
  receipt-IssuedFor id r (next before (issues p ciphertext principals uuid now unused)) there =
      elim (issue-cases id p ciphertext principals uuid now r there) [
        | inl kept ↦
            IssuedFor-next id r.handle r.expires_at (issues p ciphertext principals uuid now unused)
              (receipt-IssuedFor id r before kept)
        | inr (same, two, handle, end) ↦
            subst
              (λ h.
                IssuedFor id h r.expires_at (issue_receipt a p ciphertext principals uuid now).0)
              (sym handle)
              (
                p,
                principals,
                now,
                before,
                two,
                end,
                subst
                    (λ k.
                      Calls a (issue_receipt a p ciphertext principals k now).0
                        (issue_receipt a p ciphertext principals uuid now).0)
                    same here,
              )
      ]
  receipt-IssuedFor id r (next before (releases p ciphertext receipt_id now sink_takes)) there =
      let call = releases p ciphertext receipt_id now sink_takes in
      elim (release-cases p ciphertext receipt_id now sink_takes) [
        | inl same ↦ IssuedFor-next id r.handle r.expires_at call (
            receipt-IssuedFor id r before (
              ap (λ (x : Provider a × Option (List a.Number)). lookup id x.0.receipts) (sym same)
              ∙ there))
        | inr (q, values, kept, _, _, e) ↦
            let (old, was, handle, end) = spend-cases id receipt_id p q r kept (
              ap (λ (x : Provider a × Option (List a.Number)). lookup id x.0.receipts) (sym e)
              ∙ there) in
            IssuedFor-next id r.handle r.expires_at call (
              subst (λ h. IssuedFor id h r.expires_at p) handle
                (subst (λ n. IssuedFor id old.handle n p) end
                  (receipt-IssuedFor id old before was)))
      ]

  -- In any provider that calls lead to from the start, a release that returns values has a receipt that was issued to two distinct principals at least, for this ciphertext and five minutes before it expires, and that was not used and has not expired; and it returns the result that is kept under the ciphertext. After it, whatever inferences, receipts and releases follow, no release with this receipt returns anything, and it changes nothing.
  pub release_once :
      (p q : Provider a) (ciphertext receipt_id : String) (now : ℕ) (sink_takes : Bool)
      (values : List a.Number) (ciphertext' : String) (now' : ℕ) (sink_takes' : Bool)
      → Calls a new_provider p
      → (release_mode_c a p ciphertext receipt_id now sink_takes).1 ≡ some values
      → Calls a (release_mode_c a p ciphertext receipt_id now sink_takes).0 q
      → ((r : Receipt) × (lookup receipt_id p.receipts ≡ some r)
          × (r.used ≡ false)
          × (now ≤ r.expires_at)
          × IssuedFor receipt_id ciphertext r.expires_at p
          × (lookup ciphertext p.results ≡ some values))
        × (release_mode_c a q ciphertext' receipt_id now' sink_takes' ≡ (q, none))
  release_once p q ciphertext receipt_id now sink_takes values ciphertext' now' sink_takes' started
        returns calls =
      elim (release-cases p ciphertext receipt_id now sink_takes) [
        | inl throws ↦ absurd (ground (arith, returns, throws))
        | inr (r, kept, there, valid, result, e) ↦
            let same : kept ≡ values = ground (arith, returns, e) in
            let spent =
              subst (λ (x : Provider a × Option (List a.Number)). IsSpent receipt_id x.0) (sym e)
                (spend-IsSpent receipt_id receipt_id p r (inl refl)) in
            (
              (
                r,
                there,
                ground (arith, valid),
                ground (arith, valid),
                subst (λ h. IssuedFor receipt_id h r.expires_at p)
                    ((eq_iff r.handle ciphertext).0 (ground (arith, valid)))
                    (receipt-IssuedFor receipt_id r started there),
                result ∙ ap some same,
              ),
              spent-refused receipt_id q ciphertext' now' sink_takes'
                  (Calls-IsSpent receipt_id calls spent),
            )
      ]
