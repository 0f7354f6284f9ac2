-- ===== src/Bindings/Nonces.antt =====
-- A nonce is accepted once in a session, over every sequence of calls of the bindings.
use openclaw_nie_guard.Common.{
  ◌≡◌, String, Bool, true, false, not, ◌&&◌, ◌||◌, [], ◌∷◌, includes, ◌==◌, string_eq, lookup,
  lookup-insert, arith, eq_iff, beq_refl,
}
use openclaw_nie_guard.Bindings.{
  MockState, attest, admitted, derive_scoped_capability, revoke_subject, consume_nonce, nonces_of,
}
use openclaw_nie_guard.Bindings.Tokens.{
  Step, attests, derives, revokes, consumes, Steps, here, next,
}

-- The nonce has been accepted in the session.
abbrev pub is_spent : MockState → String → String → Bool
is_spent s nonce session_id = includes (nonces_of (lookup session_id s.seen_nonces)) nonce

-- A nonce is accepted exactly if it has not been accepted in the session before; it is then spent there, and nothing else is.
pub consume_nonce_lem :
    (s : MockState) (nonce session_id other_nonce other_session : String)
    → ((consume_nonce s nonce session_id).1.first_use ≡ not (is_spent s nonce session_id))
      × (is_spent (consume_nonce s nonce session_id).0 other_nonce other_session ≡ (
          is_spent s other_nonce other_session
          || (session_id == other_session && nonce == other_nonce)))
unfolding consume_nonce
consume_nonce_lem s nonce session_id other_nonce other_session =
    let set = nonces_of (lookup session_id s.seen_nonces) in
    ground (
      arith,
      lookup-insert session_id other_session (nonce ∷ set) s.seen_nonces,
      eq_iff session_id other_session,
      eq_iff nonce other_nonce,
    )

Step-is_spent :
    {hash : String → String} {s t : MockState} (nonce session_id : String)
    → Step hash s t
    → is_spent s nonce session_id ≡ true
    → is_spent t nonce session_id ≡ true
unfolding attest admitted derive_scoped_capability revoke_subject
Step-is_spent {hash} nonce session_id (attests s request fresh _ new) h = ground (
  arith,
  lookup-insert fresh.random_session_id session_id [] s.seen_nonces,
  eq_iff fresh.random_session_id session_id,
)
Step-is_spent {hash} nonce session_id (derives s input now uuid) h = ground arith
Step-is_spent nonce session_id (revokes s input now) h = ground arith
Step-is_spent nonce session_id (consumes s n i) h =
    ground (arith, consume_nonce_lem s n i nonce session_id)

Steps-is_spent :
    {hash : String → String} {s t : MockState} (nonce session_id : String)
    → is_spent s nonce session_id ≡ true
    → Steps hash s t
    → is_spent t nonce session_id ≡ true
Steps-is_spent nonce session_id h here = h
Steps-is_spent nonce session_id h (next before last) =
    Step-is_spent nonce session_id last (Steps-is_spent nonce session_id h before)

-- A nonce that was presented in a session is refused in it ever after, whatever calls of the bindings
-- come between.
pub nonce_once :
    (hash : String → String) (s t : MockState) (nonce session_id : String)
    → Steps hash (consume_nonce s nonce session_id).0 t
    → (consume_nonce t nonce session_id).1.first_use ≡ false
nonce_once hash s t nonce session_id steps =
    let spent : is_spent (consume_nonce s nonce session_id).0 nonce session_id ≡ true = ground (
      arith,
      consume_nonce_lem s nonce session_id nonce session_id,
      beq_refl session_id,
      beq_refl nonce,
    ) in
    let still = Steps-is_spent nonce session_id spent steps in
    ground (arith, (consume_nonce_lem t nonce session_id nonce session_id).0, still)
