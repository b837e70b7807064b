-- ===== src/App/Performance.antt =====
-- app/performance.py. The environment, `int` and `float` of a text and the constants of app/version.py
-- are parameters; what `sentry_sdk.init` is called with is the result.
pub mod Laws
use text.Mathlib.Text.{◌==◌ as eq_str}
use notifications_template_p.Prelude.{
  String, Bool, true, false, not, ◌&&◌, Option, none, some, if◌then◌else◌,
}
use notifications_template_p.Prelude.Int.{ℤ, pos, eq_ℤ}
use notifications_template_p.Python.Errors.{Exn, Result, ok, raised, ◌>>=◌}

-- The process: its environment, how it reads texts, and the commit that the build wrote down, if it did.
pub record Process : Type 1 where
  pub Float : Type 0
  pub zero : Float
  pub one : Float
  pub float : String → Result Float
  pub int : String → Result ℤ
  pub lower : String → String
  pub getenv : String → Option String
  pub git_commit : Option String

-- The arguments of `sentry_sdk.init`; `traces_sampler` is kept by the rate that it is given.
pub record SentryOptions (Float : Type 0) : Type 0 where
  pub dsn : String
  pub environment : String
  pub sample_rate : Float
  pub send_default_pii : Bool
  pub max_request_body_size : String
  pub trace_sample_rate : Float
  pub profiles_sample_rate : Float
  pub release : Option String

module _ (process : Process) where
  open process use {Float, zero, one, float, int, lower, getenv, git_commit}

  -- `sentry_sampler`, by the `parent_sampled` of its context.
  unfoldable pub sentry_sampler : Option Bool → Float → Float
  sentry_sampler (some true) sample_rate = one
  sentry_sampler parent_sampled sample_rate = sample_rate

  abbrev pub getenv_or : String → String → String
  getenv_or key default = elim (getenv key) [ none ↦ default | some text ↦ text ]

  -- `float(os.getenv(key, 0.0))`
  abbrev pub rate : String → Result Float
  rate key = elim (getenv key) [ none ↦ ok zero | some text ↦ float text ]

  -- `os.getenv("NOTIFY_ENVIRONMENT").lower()`
  abbrev pub notify_environment : Result String
  notify_environment = elim (getenv "NOTIFY_ENVIRONMENT") [
    | none ↦ raised Exn.attribute_error
    | some text ↦ ok (lower text)
  ]

  -- The body of the `if` statement.
  unfoldable pub sentry_options : String → Bool → String → Result (SentryOptions Float)
  sentry_options environment allow_pii dsn = do
    error_sample_rate ← rate "SENTRY_ERRORS_SAMPLE_RATE"
    trace_sample_rate ← rate "SENTRY_TRACES_SAMPLE_RATE"
    profiles_sample_rate ← rate "SENTRY_PROFILES_SAMPLE_RATE"
    ok (record {
      dsn = dsn;
      environment = environment;
      sample_rate = error_sample_rate;
      send_default_pii = if allow_pii then true else false;
      max_request_body_size = if allow_pii then "medium" else "never";
      trace_sample_rate = trace_sample_rate;
      profiles_sample_rate = profiles_sample_rate;
      release = git_commit;
    })

  -- The condition of the `if` statement.
  abbrev pub is_monitored : String → ℤ → String → Bool
  is_monitored environment enabled dsn =
      not (eq_str environment "") && (not (eq_ℤ enabled (pos 0)) && not (eq_str dsn ""))

  -- `init_performance_monitoring`: nothing, or a call of `sentry_sdk.init`.
  unfoldable pub init_performance_monitoring : Result (Option (SentryOptions Float))
  init_performance_monitoring = do
    environment ← notify_environment
    enabled ← int (getenv_or "SENTRY_ENABLED" "0")
    if is_monitored environment enabled (getenv_or "SENTRY_DSN" "")
        then (do
          options ←
              sentry_options environment (eq_str (getenv_or "SENTRY_ALLOW_PII" "0") "1")
                (getenv_or "SENTRY_DSN" "")
          ok (some options))
        else ok none
