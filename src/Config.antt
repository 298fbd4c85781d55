-- ===== src/Config.antt =====
-- src/bootstrap/config/env.production.ts: what a process refuses to start with in production.
pub mod Production
pub mod Examples
use nestjs_modular_monolith.Common.{
  ℕ, Bool, true, false, not, ◌&&◌, ◌||◌, Option, none, some, List, [], ◌∷◌, ◌++◌, ltb,
  if◌then◌else◌, any, is_null,
}
use nestjs_modular_monolith.Text.{Text, text_eq, literal}
use nestjs_modular_monolith.Http.{starts_with}

pub data NodeEnv : Type 0 where
  development test production : NodeEnv

pub data Topology : Type 0 where
  direct behind_proxy : Topology

-- Of the environment of a role, what the refinements read.
pub record EnvApi : Type 0 where
  pub node_env : NodeEnv
  pub better_auth_secret : Text
  pub better_auth_url : Text
  pub frontend_base_url : Text
  pub cors_origins : List Text
  pub metrics_allow_cidrs : List Text
  pub trust_inbound_request_id : Bool
  pub trust_proxy : Bool
  pub deployment_topology : Topology

pub record EnvWorker : Type 0 where
  pub node_env : NodeEnv
  pub metrics_allow_cidrs : List Text
  pub mail_host : Text
  pub frontend_base_url : Option Text

pub record EnvScheduler : Type 0 where
  pub node_env : NodeEnv
  pub metrics_allow_cidrs : List Text
  pub outbox_drain_interval_seconds : ℕ

pub record Issue : Type 0 where
  pub path : Text
  pub message : Text

abbrev pub is_production : NodeEnv → Bool
is_production production = true
is_production _ = false

abbrev pub is_direct : Topology → Bool
is_direct direct = true
is_direct behind_proxy = false

abbrev pub https_scheme : Text
https_scheme = literal "https://"

abbrev pub forbidden_secret_substrings : List Text
forbidden_secret_substrings =
    literal "changeme"
    ∷ literal "change-me"
    ∷ literal "placeholder"
    ∷ literal "example"
    ∷ literal "development"
    ∷ literal "insecure"
    ∷ literal "password"
    ∷ literal "secret-key"
    ∷ literal "your-secret"
    ∷ []

-- `text.includes(word)`
abbrev pub includes : Text → Text → Bool
includes [] word = starts_with word []
includes (c ∷ text) word = starts_with word (c ∷ text) || includes text word

abbrev pub find_word : Text → List Text → Option Text
find_word secret [] = none
find_word secret (word ∷ words) = if includes secret word then some word else find_word secret words

-- One issue, or none.
abbrev pub issue_if : Bool → Text → Text → List Issue
issue_if b path message = if b then (record { path = path; message = message }) ∷ [] else []

-- An issue for each text that fails a check.
abbrev pub issue_for_each : (Text → Bool) → Text → (Text → Text) → List Text → List Issue
issue_for_each fails path message [] = []
issue_for_each fails path message (text ∷ texts) =
    issue_if (fails text) path (message text) ++ issue_for_each fails path message texts

-- What the checks add in their turn.
abbrev pub gather : List (List Issue) → List Issue
gather [] = []
gather (issues ∷ rest) = issues ++ gather rest

abbrev pub is_empty_list : List Text → Bool
is_empty_list [] = true
is_empty_list (_ ∷ _) = false

abbrev pub is_wildcard : Text → Bool
is_wildcard = text_eq (literal "*")

abbrev pub is_insecure_origin : Text → Bool
is_insecure_origin origin = not (is_wildcard origin) && not (starts_with https_scheme origin)

abbrev pub placeholder_issue : Option Text → List Issue
placeholder_issue none = []
placeholder_issue (some placeholder) =
    (record {
      path = literal "BETTER_AUTH_SECRET";
      message =
          literal "must not contain \""
          ++ (placeholder ++ literal "\" in production — every session depends on it");
    })
    ∷ []

unfoldable pub refine_metrics_exposure : List Text → List Issue
refine_metrics_exposure metrics_allow_cidrs =
    issue_if (is_empty_list metrics_allow_cidrs) (literal "METRICS_ALLOW_CIDRS")
      (literal "must list at least one CIDR in production — an empty allow-list fails closed")

abbrev pub https_issue : Text → Text → List Issue
https_issue key url = issue_if (not (starts_with https_scheme url)) key (
    literal
      "must be https in production: session cookies are issued Secure, and a browser never sends those over http")

-- The checks of the API, in their order.
abbrev pub api_checks : (Text → Text) → EnvApi → List (List Issue)
api_checks to_lower_case env =
    placeholder_issue (find_word (to_lower_case env.better_auth_secret) forbidden_secret_substrings)
    ∷ refine_metrics_exposure env.metrics_allow_cidrs
    ∷ issue_for_each is_wildcard (literal "CORS_ORIGINS")
        (λ origin. literal "a wildcard origin is incompatible with credentialed cookie sessions")
        env.cors_origins
    ∷ issue_if (not (any (text_eq env.frontend_base_url) env.cors_origins)) (literal "CORS_ORIGINS")
        (literal "must include FRONTEND_BASE_URL, or every browser request is rejected")
    ∷ https_issue (literal "BETTER_AUTH_URL") env.better_auth_url
    ∷ https_issue (literal "FRONTEND_BASE_URL") env.frontend_base_url
    ∷ issue_for_each is_insecure_origin (literal "CORS_ORIGINS")
        (λ origin.
          origin
          ++ literal
              " cannot send a Secure cookie — an http origin is a broken login, not a relaxed one")
        env.cors_origins
    ∷ issue_if (env.trust_inbound_request_id && not env.trust_proxy)
        (literal "TRUST_INBOUND_REQUEST_ID")
        (literal
          "trusts a header from a caller that is not behind a trusted proxy — anyone could forge the id every log line is correlated by")
    ∷ issue_if (not (is_direct env.deployment_topology) && not env.trust_proxy)
        (literal "TRUST_PROXY")
        (literal
          "must be true behind a proxy: every request would otherwise arrive with the balancer address, so the whole deployment shares one rate-limit bucket and locks itself out")
    ∷ issue_if (is_direct env.deployment_topology && env.trust_proxy) (literal "TRUST_PROXY") (
        literal
          "must be false when clients connect directly: trusting X-Forwarded-For from an arbitrary caller lets anyone spoof their address past the rate limiter")
    ∷ []

unfoldable pub refine_api_for_production : (Text → Text) → EnvApi → List Issue
refine_api_for_production to_lower_case env =
    if not (is_production env.node_env) then [] else gather (api_checks to_lower_case env)

unfoldable pub refine_worker_for_production : EnvWorker → List Issue
refine_worker_for_production env =
    if not (is_production env.node_env)
    then []
    else gather (
        refine_metrics_exposure env.metrics_allow_cidrs
        ∷ issue_if
            (text_eq env.mail_host (literal "localhost")
              || text_eq env.mail_host (literal "127.0.0.1"))
            (literal "MAIL_HOST")
            (literal "points at the container itself in production — no mail would ever leave")
        ∷ issue_if (is_null env.frontend_base_url) (literal "FRONTEND_BASE_URL")
            (literal "is required in production: email links have nowhere else to point")
        ∷ [])

unfoldable pub refine_scheduler_for_production : EnvScheduler → List Issue
refine_scheduler_for_production env =
    if not (is_production env.node_env)
    then []
    else gather (
        refine_metrics_exposure env.metrics_allow_cidrs
        ∷ issue_if (ltb 60 env.outbox_drain_interval_seconds)
            (literal "OUTBOX_DRAIN_INTERVAL_SECONDS")
            (literal "above 60s the p95 < 30s dispatch target cannot be met")
        ∷ [])
