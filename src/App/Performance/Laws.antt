-- ===== src/App/Performance/Laws.antt =====
-- What is sent to Sentry.
use text.Mathlib.Text.{◌==◌ as eq_str}
use text.Mathlib.TextEquality.{eq_iff}
use notifications_template_p.Prelude.{
  ◌≡◌, ◌≢◌, ◌⊎◌, refl, ap, sym, if◌then◌else◌, ◌∙◌, inl, inr, String, Bool, true, false, none, some,
  arith, Bool-cases, Option-cases,
}
use notifications_template_p.Prelude.Int.{ℤ}
use notifications_template_p.Python.Errors.{Result, ok, raised, ◌>>=◌, >>=-ok}
use notifications_template_p.App.Performance.{
  Process, SentryOptions, rate, notify_environment, getenv_or, is_monitored, sentry_options,
  init_performance_monitoring,
}

module _ (process : Process) where
  open process use {Float, int, getenv, lower}

  options-private :
      (environment dsn : String) (allow_pii : Bool) (options : SentryOptions Float)
      → sentry_options process environment allow_pii dsn ≡ ok options
      → (options.send_default_pii ≡ (if allow_pii then true else false))
        × (options.max_request_body_size ≡ (if allow_pii then "medium" else "never"))
        × (options.dsn ≡ dsn)
  unfolding sentry_options
  options-private environment dsn allow_pii options h =
      let (a, _, h1) = >>=-ok (rate process "SENTRY_ERRORS_SAMPLE_RATE") _ h in
      let (b, _, h2) = >>=-ok (rate process "SENTRY_TRACES_SAMPLE_RATE") _ h1 in
      let (c, _, h3) = >>=-ok (rate process "SENTRY_PROFILES_SAMPLE_RATE") _ h2 in (cc, cc, cc)

  -- Personal data is allowed only by the value "1".
  allowed :
      (getenv "SENTRY_ALLOW_PII" ≡ some "1")
      ⊎ (eq_str (getenv_or process "SENTRY_ALLOW_PII" "0") "1" ≡ false)
  allowed = elim (Option-cases (getenv "SENTRY_ALLOW_PII")) [
    | inl absent ↦ inr (rw (absent, getenv_or))
    | inr (text, there) ↦ elim (Bool-cases (eq_str text "1")) [
      | inl same ↦ inl (there ∙ ap (λ t. some t) ((eq_iff text "1").0 same))
      | inr other ↦ inr (rw (there, getenv_or) other)
    ]
  ]

  from_if :
      (c : Bool) (m : Result (SentryOptions Float)) (options : SentryOptions Float)
      → (if c then (do o ← m; ok (some o)) else ok none) ≡ ok (some options)
      → (c ≡ true) × (m ≡ ok options)
  from_if true (ok o) options h = (refl, cc)
  from_if true (raised e) options h = absurd cc
  from_if false m options h = absurd cc

  monitored_dsn :
      (environment : String) (enabled : ℤ)
      → is_monitored process environment enabled (getenv_or process "SENTRY_DSN" "") ≡ true
      → (getenv "SENTRY_DSN" ≡ some (getenv_or process "SENTRY_DSN" ""))
        × (getenv_or process "SENTRY_DSN" "" ≢ "")
  monitored_dsn environment enabled h =
      let filled : getenv_or process "SENTRY_DSN" "" ≢ "" =
        λ e. ground (arith, (eq_iff (getenv_or process "SENTRY_DSN" "") "").1 e) in
      (given filled, filled)
    where
      given :
          getenv_or process "SENTRY_DSN" "" ≢ ""
          → getenv "SENTRY_DSN" ≡ some (getenv_or process "SENTRY_DSN" "")
      given filled = elim (Option-cases (getenv "SENTRY_DSN")) [
        | inl absent ↦ absurd (filled (rw (absent, getenv_or)))
        | inr (text, there) ↦ rw (there, getenv_or)
      ]

  -- Whenever Sentry is started, it is with the DSN of the environment, which is not empty; and unless SENTRY_ALLOW_PII is "1", it is started so that neither personal data nor the bodies of requests are sent.
  pub init_performance_monitoring-private :
      (options : SentryOptions Float)
      → init_performance_monitoring process ≡ ok (some options)
      → (getenv "SENTRY_DSN" ≡ some options.dsn)
        × (options.dsn ≢ "")
        × ((getenv "SENTRY_ALLOW_PII" ≡ some "1")
            ⊎ ((options.send_default_pii ≡ false) × (options.max_request_body_size ≡ "never")))
  unfolding init_performance_monitoring
  init_performance_monitoring-private options h =
      let (environment, _, h1) = >>=-ok (notify_environment process) _ h in
      let (enabled, _, h2) = >>=-ok (int (getenv_or process "SENTRY_ENABLED" "0")) _ h1 in
      let (monitored, made) = from_if _ _ options h2 in
      let (pii, bodies, same) =
        options-private environment (getenv_or process "SENTRY_DSN" "")
          (eq_str (getenv_or process "SENTRY_ALLOW_PII" "0") "1") options made in
      let (given, filled) = monitored_dsn environment enabled monitored in
      (
        rw same given,
        (λ e. filled (sym same ∙ e)),
        elim allowed [
          | inl one ↦ inl one
          | inr off ↦ inr (
            pii ∙ ap (λ b. if b then true else false) off,
            bodies ∙ ap (λ b. if b then "medium" else "never") off,
          )
        ],
      )
