-- ===== src/Oauth/Families/Refines.antt =====
-- The methods on families of src/auth-broker/app/mcp_oauth/store.py refine the abstract chains.
use mathai_ai_swarm_memory.Common.{
  ◌≡◌, inl, inr, false, List, [], ◌∷◌, ◌++◌, String, str_eq, eq_iff, ok, arith, Bool-cases,
  Result-cases,
}
use mathai_ai_swarm_memory.Broker.Store.{Datetime}
use mathai_ai_swarm_memory.Oauth.Store.{OauthStore, needs_aware}
use mathai_ai_swarm_memory.Oauth.Families.{
  OauthFamily, new_family, insert_family, insert_token, create_family, create_family_tx,
  revoke_family, revoke_locked,
}
use mathai_ai_swarm_memory.Oauth.Families.Chain.{Chain, revokes, Steps, done, then_steps}
use mathai_ai_swarm_memory.Oauth.Families.Views.{
  FamilyCall, creating, revoking, rotating, run_call, run_calls, event_of, events_of, IsViewed,
  append-IsViewed, revoked-IsViewed, other_revoked-IsViewed,
}
use mathai_ai_swarm_memory.Oauth.Families.Rotates.{HasStepped, view_kept, rotate_refresh-HasStepped}

create_family_tx-families :
    (x : OauthFamily) (token_hash : String) (now : Datetime) (st st' : OauthStore) (y : OauthFamily)
    → create_family_tx x token_hash now st ≡ ok (y, st')
    → st'.families ≡ st.families ++ new_family x token_hash now ∷ []
unfolding create_family_tx insert_family insert_token
create_family_tx-families x token_hash now st st' y h = ground arith

-- Every call makes the step that its answer tells.
run_call-HasStepped :
    (family_id : String) (call : FamilyCall) (st : OauthStore) (c : Chain)
    → IsViewed family_id st c
    → HasStepped family_id (event_of family_id call st) (run_call call st) c
unfolding create_family revoke_family
run_call-HasStepped family_id (creating x token_hash now) st c v =
    elim (Result-cases (create_family_tx x token_hash now st)) [
      | inl ((y, st'), ran) ↦
          rw (ran, run_call)
            (view_kept family_id st' c (
              append-IsViewed family_id st c v st' (new_family x token_hash now)
                (create_family_tx-families x token_hash now st st' y ran)))
      | inr (e, raised) ↦ rw (raised, run_call) (view_kept family_id st c v)
    ]
run_call-HasStepped family_id (revoking other now) st c v = elim (Result-cases (needs_aware now)) [
  | inr (e, raised) ↦ rw (raised, run_call, event_of) (view_kept family_id st c v)
  | inl (u, aware_now) ↦
      rw (aware_now, run_call, event_of)
        (elim (Bool-cases (str_eq other family_id)) [
          | inl named ↦
              let same : other ≡ family_id = (eq_iff other family_id).0 named in
              rw named (record {
                after = record c { is_live = false };
                step = revokes c;
                view = rw same (revoked-IsViewed family_id st c v now);
              })
          | inr differs ↦ rw differs (
              view_kept family_id (revoke_locked other now st) c
                (other_revoked-IsViewed family_id st c v other now differs))
        ])
]
run_call-HasStepped family_id (rotating token_hash r) st c v =
    rotate_refresh-HasStepped family_id token_hash r st c v

-- The store refines the abstract chain: whatever calls create, revoke or rotate families, the
-- chain of a known family makes the steps that the answers of the calls tell (the exchange of the
-- presented token, which was the current one of the live family; the end of the family by the reuse
-- of another token, while it was live, or by a revocation; and nothing else), and the store holds
-- the chain at the end of these steps.
pub run_calls_refine :
    (family_id : String) (calls : List FamilyCall) (st : OauthStore) (c : Chain)
    → IsViewed family_id st c
    → (c' : Chain) × Steps c (events_of family_id calls st) c'
      × IsViewed family_id (run_calls calls st) c'
run_calls_refine family_id [] st c v = (c, done c, v)
run_calls_refine family_id (call ∷ calls) st c v =
    let m = run_call-HasStepped family_id call st c v in
    let (c', steps, view) = run_calls_refine family_id calls (run_call call st) m.after m.view in
    (c', then_steps m.step steps, view)
