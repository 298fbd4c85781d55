-- ===== src/Config/Production.antt =====
-- What follows from the checks of an environment that production accepts.
use nestjs_modular_monolith.Common.{
  ◌≡◌, refl, Bool, true, false, not, ◌&&◌, List, [], ◌∷◌, ◌++◌, inl, inr, All, Option-cases,
  is_null, arith,
}
use nestjs_modular_monolith.Text.{Text}
use nestjs_modular_monolith.Config.{
  EnvApi, Issue, api_checks, is_production, is_direct, issue_if, gather, refine_api_for_production,
}
use nestjs_modular_monolith.Observability.{
  RequestIdCarrier, target_of, ensure_request_ids, resolve_request_id,
}

append_nil : (a b : List Issue) → a ++ b ≡ [] → (a ≡ []) × (b ≡ [])
append_nil [] b h = (refl, h)
append_nil (x ∷ a) b h = cc

gather_nil : (checks : List (List Issue)) → gather checks ≡ [] → All (λ c. c ≡ []) checks
gather_nil [] h = tt
gather_nil (c ∷ checks) h =
    let (first, rest) = append_nil c (gather checks) h in (first, gather_nil checks rest)

issue_if_nil : (b : Bool) (path message : Text) → issue_if b path message ≡ [] → b ≡ false
issue_if_nil true path message h = cc
issue_if_nil false path message h = refl

module _ (to_lower_case : Text → Text) (env : EnvApi) where
  -- Where no issue is found, a proxy is trusted only where there is one, and an inbound identifier only
  -- behind a trusted proxy.
  trust_checks :
      All (λ c. c ≡ []) (api_checks to_lower_case env)
      → ((env.trust_inbound_request_id && not env.trust_proxy) ≡ false)
        × ((is_direct env.deployment_topology && env.trust_proxy) ≡ false)
  trust_checks (_, (_, (_, (_, (_, (_, (_, (inbound, (_, (proxy, _)))))))))) =
      (issue_if_nil _ _ _ inbound, issue_if_nil _ _ _ proxy)

  untrusted :
      refine_api_for_production to_lower_case env ≡ []
      → is_production env.node_env ≡ true
      → is_direct env.deployment_topology ≡ true
      → env.trust_inbound_request_id ≡ false
  unfolding refine_api_for_production
  untrusted accepted live direct =
      let (inbound, proxy) =
        trust_checks (gather_nil (api_checks to_lower_case env) (rw live at accepted)) in
      ground arith

own_request_id :
    (request : RequestIdCarrier) (new_id : Text)
    → is_null (target_of request request.raw).stamped ≡ true
    → (ensure_request_ids request false new_id).0.request_id ≡ new_id
unfolding ensure_request_ids resolve_request_id
own_request_id request new_id fresh = elim (Option-cases (target_of request request.raw).stamped) [
  | inl nothing ↦ rw nothing refl
  | inr (ids, known) ↦ cc
]

-- In production, where clients connect directly and the checks of the environment find no issue, no
-- caller decides the identifier of its request: under the environment's own setting a request that is
-- not stamped yet is given the new one, whatever its headers say.
pub refine_api_for_production-own_request_id :
    (to_lower_case : Text → Text) (env : EnvApi) (request : RequestIdCarrier) (new_id : Text)
    → is_production env.node_env ≡ true
    → is_direct env.deployment_topology ≡ true
    → refine_api_for_production to_lower_case env ≡ []
    → is_null (target_of request request.raw).stamped ≡ true
    → (ensure_request_ids request env.trust_inbound_request_id new_id).0.request_id ≡ new_id
refine_api_for_production-own_request_id to_lower_case env request new_id live direct accepted
      fresh =
    rw (untrusted to_lower_case env accepted live direct) (own_request_id request new_id fresh)
