-- ===== src/Tests/Receipts.antt =====
-- A result that is released once.
use openclaw_nie_guard.Common.{
  ℕ, ◌+◌, ◌*◌, ◌≤◌, ◌≡◌, refl, none, some, true, false, [], ◌∷◌, lookup, insert, string_eq,
}
use openclaw_nie_guard.Fhe.Receipts.{
  Arithmetic, Receipt, Provider, infer_mode_a, issue_receipt, release_mode_c, here, next, infers,
  issues,
}
use openclaw_nie_guard.Fhe.Receipts.Released.{new_provider, IssuedFor, release_once}

abbrev naturals : Arithmetic
naturals = record { Number = ℕ; zero = 0; plus = ◌+◌; times = ◌*◌ }

abbrev inferred : Provider naturals
inferred =
    (infer_mode_a naturals (new_provider naturals) "weighted-sum" (6 ∷ []) (some (7 ∷ []))
      "result").0

abbrev scored : Provider naturals
scored = (issue_receipt naturals inferred "result" ("alice" ∷ "bob" ∷ []) "receipt" 0).0

released : (release_mode_c naturals scored "result" "receipt" 1000 true).1 ≡ some (42 ∷ [])
unfolding release_mode_c issue_receipt infer_mode_a lookup insert
released = refl

abbrev after_release : Provider naturals
after_release = (release_mode_c naturals scored "result" "receipt" 1000 true).0

release_once_example :
    ((r : Receipt) × (lookup "receipt" scored.receipts ≡ some r)
      × (r.used ≡ false)
      × (1000 ≤ r.expires_at)
      × IssuedFor naturals "receipt" "result" r.expires_at scored
      × (lookup "result" scored.results ≡ some (42 ∷ [])))
    × (release_mode_c naturals after_release "result" "receipt" 2000 true ≡ (after_release, none))
unfolding issue_receipt infer_mode_a lookup insert
release_once_example =
    release_once naturals scored after_release "result" "receipt" 1000 true (42 ∷ []) "result" 2000
      true
      (next
        (next here
          (infers (new_provider naturals) "weighted-sum" (6 ∷ []) (some (7 ∷ [])) "result"))
        (issues inferred "result" ("alice" ∷ "bob" ∷ []) "receipt" 0 refl))
      released here
