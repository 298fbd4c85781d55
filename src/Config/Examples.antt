-- ===== src/Config/Examples.antt =====
-- The theorem on the environment at a concrete one.
use nestjs_modular_monolith.Common.{◌≡◌, refl, none, false, [], ◌∷◌}
use nestjs_modular_monolith.Text.{Text, literal}
use nestjs_modular_monolith.Config.{
  EnvApi, production, direct, refine_api_for_production, refine_metrics_exposure,
}
use nestjs_modular_monolith.Config.Production.{refine_api_for_production-own_request_id}
use nestjs_modular_monolith.Observability.{RequestIdCarrier, absent, one, ensure_request_ids}

abbrev same_case : Text → Text
same_case s = s

abbrev env : EnvApi
env = record {
  node_env = production;
  better_auth_secret = literal "0123456789abcdef0123456789abcdef";
  better_auth_url = literal "https://api.acme.test";
  frontend_base_url = literal "https://acme.test";
  cors_origins = literal "https://acme.test" ∷ [];
  metrics_allow_cidrs = literal "10.0.0.0/8" ∷ [];
  trust_inbound_request_id = false;
  trust_proxy = false;
  deployment_topology = direct;
}

accepted : refine_api_for_production same_case env ≡ []
unfolding refine_api_for_production refine_metrics_exposure
accepted = refl

-- The caller brings an identifier that is not taken.
abbrev request : RequestIdCarrier
request = record {
  own = record {
    request_id_header = one (literal "forged");
    correlation_id_header = absent;
    stamped = none;
  };
  raw = none;
}

refine_api_for_production-own_request_id_example :
    (ensure_request_ids request false (literal "new-id")).0.request_id ≡ literal "new-id"
refine_api_for_production-own_request_id_example =
    refine_api_for_production-own_request_id same_case env request (literal "new-id") refl refl
      accepted refl
