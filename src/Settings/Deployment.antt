-- ===== src/Settings/Deployment.antt =====
-- src/cryptovira/settings.py and src/cryptovira/logging_config.py: what the settings make of Django, of
-- its API and tokens, and of Celery. Names that only Django reads (applications, middleware, templates,
-- password validators, static files, the schema's title) are left out.
use cryptovira.Prelude.{
  ℕ, ◌*◌, String, ◌≡◌, ◌≢◌, refl, Bool, true, false, Option, none, some, List, [], ◌∷◌, str_eq,
  if◌then◌else◌, inl, inr,
}
use cryptovira.Exec.{ok}
use cryptovira.Settings.{
  Settings, is_production_like, insecure_dev_secret, validate_settings, validate_settings-Safe,
}

-- `structlog.processors.JSONRenderer()`, `structlog.dev.ConsoleRenderer(colors=True)`
pub data Renderer : Type 0 where
  json_renderer console_renderer : Renderer

pub record Logger : Type 0 where
  pub name : String
  pub level : String
  pub propagate : Bool

pub record Logging : Type 0 where
  pub version : ℕ
  pub disable_existing_loggers : Bool
  pub renderer : Renderer
  pub processors : List String
  pub root_level : String
  pub loggers : List Logger

-- `_shared_processors`, by their names
abbrev pub shared_processors : List String
shared_processors =
    "merge_contextvars" ∷ "add_logger_name" ∷ "add_log_level" ∷ "TimeStamper" ∷ "StackInfoRenderer"
    ∷ "UnicodeDecoder" ∷ []

-- `build_logging_config`
unfoldable pub build_logging_config : String → Bool → Logging
build_logging_config level json_output = record {
  version = 1;
  disable_existing_loggers = false;
  renderer = if json_output then json_renderer else console_renderer;
  processors = shared_processors;
  root_level = level;
  loggers =
      record { name = "django.request"; level = "WARNING"; propagate = true }
      ∷ record { name = "django.db.backends"; level = "WARNING"; propagate = true }
      ∷ [];
}

-- the names that the module sets only under `if env.is_production_like`
pub record Hardening : Type 0 where
  pub ssl_redirect : Bool
  pub session_cookie_secure : Bool
  pub csrf_cookie_secure : Bool
  pub hsts_seconds : ℕ
  pub hsts_include_subdomains : Bool
  pub hsts_preload : Bool
  pub content_type_nosniff : Bool
  pub x_frame_options : String

-- `REST_FRAMEWORK`
pub record RestFramework : Type 0 where
  pub authentication_classes : List String
  pub permission_classes : List String
  pub default_version : String
  pub allowed_versions : List String
  pub throttle_rates : List (String × String)

-- `SIMPLE_JWT`; the lifetimes are in seconds
pub record SimpleJwt : Type 0 where
  pub access_token_lifetime : ℕ
  pub refresh_token_lifetime : ℕ
  pub rotate_refresh_tokens : Bool
  pub blacklist_after_rotation : Bool
  pub update_last_login : Bool
  pub auth_header_types : List String
  pub user_id_field : String
  pub user_id_claim : String

pub record DjangoSettings : Type 0 where
  pub secret_key : String
  pub debug : Bool
  pub allowed_hosts : List String
  pub csrf_trusted_origins : List String
  -- what `dj_database_url.parse` is called with
  pub database_url : String
  pub database_conn_max_age : ℕ
  pub cache_location : String
  pub rest_framework : RestFramework
  pub simple_jwt : SimpleJwt
  pub celery_broker_url : String
  pub celery_result_backend : String
  pub celery_task_always_eager : Bool
  pub celery_timezone : String
  pub proxy_ssl_header : String × String
  pub hardening : Option Hardening
  pub logging : Logging

abbrev pub rest_framework_settings : RestFramework
rest_framework_settings = record {
  authentication_classes =
      "rest_framework_simplejwt.authentication.JWTAuthentication"
      ∷ "rest_framework.authentication.SessionAuthentication" ∷ [];
  permission_classes = "rest_framework.permissions.IsAuthenticated" ∷ [];
  default_version = "v1";
  allowed_versions = "v1" ∷ [];
  throttle_rates =
      ("anon", "60/min")
      ∷ ("user", "1000/hour")
      ∷ ("registration", "20/hour")
      ∷ ("login", "20/hour")
      ∷ [];
}

abbrev pub simple_jwt_settings : SimpleJwt
simple_jwt_settings = record {
  access_token_lifetime = 15 * 60;
  refresh_token_lifetime = 7 * 24 * 60 * 60;
  rotate_refresh_tokens = true;
  blacklist_after_rotation = true;
  update_last_login = true;
  auth_header_types = "Bearer" ∷ [];
  user_id_field = "uuid";
  user_id_claim = "sub";
}

-- the security block
unfoldable pub harden : Bool → Option Hardening
harden production_like =
    if production_like
    then some (record {
      ssl_redirect = true;
      session_cookie_secure = true;
      csrf_cookie_secure = true;
      hsts_seconds = 60 * 60 * 24 * 365;
      hsts_include_subdomains = true;
      hsts_preload = true;
      content_type_nosniff = true;
      x_frame_options = "DENY";
    })
    else none

-- the module, executed with `env`
unfoldable pub django_settings : Settings → DjangoSettings
django_settings env = record {
  secret_key = env.secret_key;
  debug = env.debug;
  allowed_hosts = env.allowed_hosts;
  csrf_trusted_origins = env.csrf_trusted_origins;
  database_url = env.database_url;
  database_conn_max_age = env.database_conn_max_age;
  cache_location = env.redis_url;
  rest_framework = rest_framework_settings;
  simple_jwt = simple_jwt_settings;
  celery_broker_url = env.celery_broker_url;
  celery_result_backend = env.celery_result_backend;
  celery_task_always_eager = env.celery_task_always_eager;
  celery_timezone = "UTC";
  proxy_ssl_header = ("HTTP_X_FORWARDED_PROTO", "https");
  hardening = harden (is_production_like env.environment);
  logging = build_logging_config env.log_level env.log_json;
}

-- What Django runs with where the program serves others.
pub record Hardened (d : DjangoSettings) : Type 0 where
  pub own_secret : str_eq d.secret_key insecure_dev_secret ≡ false
  pub no_debug : d.debug ≡ false
  pub has_host : d.allowed_hosts ≢ []
  pub settings : Hardening
  pub hardened : d.hardening ≡ some settings
  pub encrypted :
      (settings.ssl_redirect ≡ true)
      × (settings.session_cookie_secure ≡ true)
      × (settings.csrf_cookie_secure ≡ true)
  -- a year
  pub remembered : settings.hsts_seconds ≡ 31536000

-- In staging and production, settings that the validators accept make Django run with a secret key of
-- its own, without debug mode, for named hosts, and with redirection to TLS, secure cookies and a
-- year of strict transport security. Elsewhere the module sets none of the last.
pub django_settings-Hardened :
    (env : Settings)
    → validate_settings env ≡ ok env
    → (is_production_like env.environment ≡ true → Hardened (django_settings env))
      × (is_production_like env.environment ≡ false → (django_settings env).hardening ≡ none)
unfolding django_settings harden
django_settings-Hardened env valid = (
  (λ serves. elim (((validate_settings-Safe env).0 valid).in_production) [
    | inl other ↦ absurd (cc (serves, other))
    | inr safe ↦ rw serves (record {
      own_secret = safe.0;
      no_debug = safe.1;
      has_host = safe.2;
      settings = _;
      hardened = refl;
      encrypted = (refl, refl, refl);
      remembered = refl;
    })
  ]),
  (λ other. rw other refl),
)
