-- ===== src/Tests/Labels.antt =====
-- Lineage and the labels of sessions.
use openclaw_nie_guard.Common.{◌≡◌, none, some, true, List, [], ◌∷◌, lookup, string_eq}
use openclaw_nie_guard.Lineage.{join, label_leq, is_untrusted_origin}
use openclaw_nie_guard.Lineage.Order.{join_least_upper_bound, join_semilattice}
use openclaw_nie_guard.Labels
use openclaw_nie_guard.Labels.{get, join_elements, ancestors, existing_tainted_at}
use openclaw_nie_guard.Labels.Joins.{join_elements_lem}
use openclaw_nie_guard.Labels.History.{Registration, run, taint_history, taint_stamp_history}
use openclaw_nie_guard.Tests.Fixtures.{user_label, mcp_label, web_element, own_element}

join_least_upper_bound_example : label_leq user_label (join user_label mcp_label) ≡ true
join_least_upper_bound_example = (join_least_upper_bound user_label mcp_label).0

join_semilattice_example : join user_label mcp_label ≡ join mcp_label user_label
join_semilattice_example = (join_semilattice user_label mcp_label user_label).0

join_elements_lem_example :
    let registered = join_elements [] "s1" (own_element ∷ web_element ∷ []) (some "c1") 5 in
    registered.1 ≡ get registered.0 "s1"
join_elements_lem_example =
    (join_elements_lem [] "s1" (own_element ∷ web_element ∷ []) (some "c1") 5).3

abbrev two_registrations : List Registration
two_registrations =
    (record { session_id = "s1"; elements = own_element ∷ []; correlation_id = none; now = 5 })
    ∷ (record { session_id = "s1"; elements = web_element ∷ []; correlation_id = none; now = 9 })
    ∷ []

taint_history_example : Labels.is_tainted (run [] two_registrations) "s1" ≡ true
unfolding is_untrusted_origin
taint_history_example = (taint_history two_registrations "s1").0

taint_stamp_history_example : existing_tainted_at (lookup "s1" (run [] two_registrations)) ≡ some 9
unfolding is_untrusted_origin
taint_stamp_history_example = taint_stamp_history two_registrations "s1"
