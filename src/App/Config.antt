-- ===== src/App/Config.antt =====
-- app/config.py: the queues, the options of their broker, and the buckets of the environments that are
-- named there, with the choice that `create_app` of app/__init__.py makes. What the process's
-- environment gives is a parameter.
pub mod Laws
use Prim.Native.String.{◌++◌ as ◌<>◌}
use text.Mathlib.Text.{◌==◌ as eq_str}
use notifications_template_p.Prelude.{
  ℕ, ◌*◌, String, Bool, true, List, [], ◌∷◌, map, Option, none, some, if◌then◌else◌,
}
use notifications_template_p.Storage.{Config}
use notifications_template_p.Tasks.{letters_queue, sanitise_letters_queue}

-- `QueueNames.all_queues`
abbrev pub all_queues : List String
all_queues = letters_queue ∷ sanitise_letters_queue ∷ []

-- A text in an f-string.
abbrev shown : Option String → String
shown none = "None"
shown (some text) = text

-- `QueueNames.predefined_queues`: names and URLs.
unfoldable pub predefined_queues : Option String → String → String → List (String × String)
predefined_queues prefix aws_region aws_account_id =
    map
      (λ queue. (
        shown prefix <> queue,
        "https://sqs."
            <> (aws_region
                <> (".amazonaws.com/" <> (aws_account_id <> ("/" <> (shown prefix <> queue))))),
      ))
      all_queues

pub data BrokerOption : Type 0 where
  region : String → BrokerOption
  wait_time_seconds : ℕ → BrokerOption
  queue_name_prefix : Option String → BrokerOption
  is_secure : Bool → BrokerOption
  queues : List (String × String) → BrokerOption

abbrev aws_region : String
aws_region = "eu-west-1"

-- `broker_transport_options` of `Config`, for a prefix and an account.
unfoldable pub broker_transport_options : Option String → String → List (String × BrokerOption)
broker_transport_options prefix aws_account_id =
    ("region", region aws_region)
    ∷ ("wait_time_seconds", wait_time_seconds 20)
    ∷ ("queue_name_prefix", queue_name_prefix prefix)
    ∷ ("is_secure", is_secure true)
    ∷ ("predefined_queues", queues (predefined_queues prefix aws_region aws_account_id))
    ∷ []

-- The dict without a key.
unfoldable pub without : String → List (String × BrokerOption) → List (String × BrokerOption)
without key [] = []
without key ((k, v) ∷ options) =
    let rest = without key options in if eq_str k key then rest else (k, v) ∷ rest

-- `broker_transport_options` of `Development` and of `Test`.
abbrev pub local_transport_options : Option String → String → List (String × BrokerOption)
local_transport_options prefix aws_account_id =
    without "predefined_queues" (broker_transport_options prefix aws_account_id)

-- kombu's `Queue(name, Exchange(exchange), routing_key=…)`
pub record Queue : Type 0 where
  pub name : String
  pub exchange : String
  pub routing_key : String

-- The rest of the dict `CELERY`: what a worker is started with.
pub record CelerySettings : Type 0 where
  pub broker_url : String
  pub broker_transport : String
  pub timezone : String
  pub worker_max_memory_per_child : ℕ
  pub worker_max_tasks_per_child : ℕ
  pub imports : List String
  pub task_queues : List Queue
  pub worker_prefetch_multiplier : Option String

-- A variable of the environment, if it is set and not empty.
abbrev pub set_or_none : Option String → Option String
set_or_none none = none
set_or_none (some text) = if eq_str text "" then none else some text

-- `CELERY` without the options of the broker, for the value of `CELERYD_PREFETCH_MULTIPLIER`.
unfoldable pub celery_settings : Option String → CelerySettings
celery_settings celeryd_prefetch_multiplier = record {
  broker_url = "https://sqs.eu-west-1.amazonaws.com";
  broker_transport = "sqs";
  timezone = "Europe/London";
  worker_max_memory_per_child = 256 * 1024;
  worker_max_tasks_per_child = 64;
  imports = "app.celery.tasks" ∷ [];
  task_queues =
      record {
        name = sanitise_letters_queue;
        exchange = "default";
        routing_key = sanitise_letters_queue;
      }
      ∷ [];
  worker_prefetch_multiplier = set_or_none celeryd_prefetch_multiplier;
}

-- The buckets of `Development`.
abbrev pub development : Config
development = record {
  letters_scan_bucket_name = "development-letters-scan";
  letter_cache_bucket_name = "development-template-preview-cache";
  letters_pdf_bucket_name = "development-letters-pdf";
  test_letters_bucket_name = "development-test-letters";
  invalid_pdf_bucket_name = "development-letters-invalid-pdf";
  sanitised_letter_bucket_name = "development-letters-sanitise";
  precompiled_originals_backup_letter_bucket_name =
      "development-letters-precompiled-originals-backup";
  letter_attachment_bucket_name = "development-letter-attachments";
}

-- The buckets of `Test`.
abbrev pub test : Config
test = record {
  letters_scan_bucket_name = "test-letters-scan";
  letter_cache_bucket_name = "test-template-preview-cache";
  letters_pdf_bucket_name = "test-letters-pdf";
  test_letters_bucket_name = "test-test-letters";
  invalid_pdf_bucket_name = "test-letters-invalid-pdf";
  sanitised_letter_bucket_name = "test-letters-sanitise";
  precompiled_originals_backup_letter_bucket_name = "test-letters-precompiled-originals-backup";
  letter_attachment_bucket_name = "test-letter-attachments";
}

-- `configs`
unfoldable pub configs : String → Option Config
configs name =
    if eq_str name "development"
    then some development
    else if eq_str name "test"
    then some test
    else none

-- The configuration that `create_app` takes; `deployed` is that of the process's environment.
unfoldable pub chosen_config : String → Config → Config
chosen_config notify_environment deployed = elim (configs notify_environment) [
  | some config ↦ config
  | none ↦ deployed
]
