-- ===== src/Examples/Monitoring.antt =====
-- A process with a DSN that does not let personal data be sent, and one with three log handlers.
use text.Mathlib.Text.{◌==◌ as eq_str}
use notifications_template_p.Prelude.{
  ℕ, [], ◌∷◌, ◌||◌, ◌≡◌, ◌≢◌, ◌⊎◌, refl, String, false, Option, none, some, if◌then◌else◌,
}
use notifications_template_p.Prelude.Int.{ℤ, pos}
use notifications_template_p.Python.Errors.{ok}
use notifications_template_p.App.Logging.{
  Loggers, has, remove, add_handler, move_handlers, warning, configure_global_logging, IsDistinct,
  configure_global_logging-moves,
}
use notifications_template_p.App.Performance.{
  Process, SentryOptions, init_performance_monitoring, sentry_options,
}
use notifications_template_p.App.Performance.Laws.{init_performance_monitoring-private}

abbrev environment : String → Option String
environment key =
    if eq_str key "NOTIFY_ENVIRONMENT"
    then some "test"
    else if eq_str key "SENTRY_ENABLED"
    then some "1"
    else if eq_str key "SENTRY_DSN"
    then some "https://sentry"
    else none

abbrev process : Process
process = record {
  Float = ℤ;
  zero = pos 0;
  one = pos 1;
  float = λ t. ok (pos 0);
  int = λ t. if eq_str t "1" then ok (pos 1) else ok (pos 0);
  lower = λ t. t;
  getenv = environment;
  git_commit = none;
}

abbrev started : SentryOptions ℤ
started = record {
  dsn = "https://sentry";
  environment = "test";
  sample_rate = pos 0;
  send_default_pii = false;
  max_request_body_size = "never";
  trace_sample_rate = pos 0;
  profiles_sample_rate = pos 0;
  release = none;
}

init_performance_monitoring-private_example :
    (environment "SENTRY_DSN" ≡ some started.dsn)
    × (started.dsn ≢ "")
    × ((environment "SENTRY_ALLOW_PII" ≡ some "1")
        ⊎ ((started.send_default_pii ≡ false) × (started.max_request_body_size ≡ "never")))
unfolding init_performance_monitoring sentry_options
init_performance_monitoring-private_example =
    init_performance_monitoring-private process started refl

-- Handler 5 is on both loggers.
abbrev loggers : Loggers
loggers = record { app_handlers = 3 ∷ 5 ∷ []; root_handlers = 5 ∷ 8 ∷ []; root_level = 0 }

loggers_configured :
    configure_global_logging loggers
    ≡ record { app_handlers = []; root_handlers = 5 ∷ 8 ∷ 3 ∷ []; root_level = warning }
unfolding configure_global_logging move_handlers add_handler has remove
loggers_configured = refl

loggers-IsDistinct : IsDistinct (5 ∷ 8 ∷ [])
unfolding has
loggers-IsDistinct = (refl, (refl, tt))

configure_global_logging-moves_example :
    let after = configure_global_logging loggers in
    (after.app_handlers ≡ [])
    × (after.root_level ≡ warning)
    × IsDistinct after.root_handlers
    × ((h : ℕ) → has h after.root_handlers ≡ (has h (5 ∷ 8 ∷ []) || has h (3 ∷ 5 ∷ [])))
configure_global_logging-moves_example = configure_global_logging-moves loggers loggers-IsDistinct
