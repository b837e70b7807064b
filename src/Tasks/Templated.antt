-- ===== src/Tasks/Templated.antt =====
-- `create_pdf_for_templated_letter` of app/celery/tasks.py, with `get_page_count_for_pdf` of
-- app/preview.py. Logging is left out.
pub mod Routing
pub mod Billing
pub mod Frame
use Prim.Native.Char.{code}
use Prim.Native.String
use Prim.Native.String.{◌++◌ as ◌<>◌}
use text.Mathlib.Text.{◌==◌ as eq_str}
use notifications_template_p.Prelude.{
  ℕ, ltb, ◌==◌, length, String, Bool, true, false, List, [], ◌∷◌, Option, none, some, if◌then◌else◌,
}
use notifications_template_p.Python.Errors.{Exn, Result, ok, raised}
use notifications_template_p.Python.Stream.{BytesIo, bytes_io, rewind, read}
use notifications_template_p.Python.Text.{str}
use notifications_template_p.External.{Libraries}
use notifications_template_p.Storage.{
  Services, Task, signed, retry_task, Action, ◌>>=◌, ◌>>◌, pure, lift, send_task, upload, Upload,
  Message, counted, LetterDetails, QueuedLetter, Language, TemplateArguments,
}
use notifications_template_p.Precompiled.Overlay.{pdf_reader}
use notifications_template_p.Json.{Members, no_members, member}
use notifications_template_p.Weasyprint.{write_pdf}
use notifications_template_p.Templated.{get_datetime_from_json, generate_templated_pdf, print}
use notifications_template_p.Tasks.{
  try_else, create_pdf_task, sanitise_letters_queue, letters_queue,
  update_billable_units_for_letter, update_validation_failed_for_templated_letter,
}

-- `filename.split("/")`
unfoldable pub split_slash : String → List String
split_slash String.[] = "" ∷ []
split_slash (String.◌∷◌ c s) = elim (split_slash s) [
  | [] ↦ []
  | part ∷ parts ↦ if code c == b'/' then "" ∷ part ∷ parts else (String.◌∷◌ c part) ∷ parts
]

-- `_remove_folder_from_filename`
unfoldable pub remove_folder_from_filename : String → String
remove_folder_from_filename filename = elim (split_slash filename) [
  | [] ↦ ""
  | part ∷ [] ↦ part
  | part ∷ second ∷ parts ↦ second
]

-- `f"{name}.svg" if name else None`
abbrev pub svg_name : Option String → Option String
svg_name none = none
svg_name (some logo) = if eq_str logo "" then none else some (logo <> ".svg")

-- `values or None`
abbrev pub values_or_none : Option Members → Option Members
values_or_none (some (member k v ms)) = some (member k v ms)
values_or_none _ = none

-- `except WeasyprintError`
abbrev pub is_weasyprint_error : Exn → Bool
is_weasyprint_error Exn.weasyprint_error = true
is_weasyprint_error _ = false

-- The run of `create_pdf_for_templated_letter`, its `self`.
abbrev pub templated_task : String → String → Task
templated_task message_group_id encoded_letter_data = record {
  name = create_pdf_task;
  payload = signed encoded_letter_data;
  message_group_id = message_group_id;
}

-- Where the PDF of a letter goes, and the task that is told.
pub record Destination : Type 0 where
  pub bucket_name : String
  pub filename : String
  pub metadata : List (String × String)
  pub task_name : String

module _ (lib : Libraries) (V : Services) where
  open V use {S3, config, Datetime, print_template, letter_max_page_count}

  unfoldable pub template_arguments :
      LetterDetails → Language → Bool → Option Datetime → TemplateArguments Datetime
  template_arguments details language includes_first_page date = record {
    template = details.template;
    values = values_or_none details.values;
    contact_block = details.letter_contact_block;
    logo_file_name = svg_name details.logo_filename;
    language = language;
    includes_first_page = includes_first_page;
    date = date;
  }

  -- `html.write_pdf()` under `except WeasyprintError: task.retry(…)`
  unfoldable pub write_or_retry : Task → String → Action S3 BytesIo
  write_or_retry task html = elim (write_pdf V html) [
    | ok bytes ↦ pure (bytes_io bytes)
    | raised e ↦
        if is_weasyprint_error e
        then retry_task V task sanitise_letters_queue e
        else lift (raised e)
  ]

  -- `_create_pdf_for_letter`
  unfoldable pub create_pdf_for_letter : Task → LetterDetails → Language → Bool → Action S3 BytesIo
  create_pdf_for_letter task details language includes_first_page = do
    date ← lift (get_datetime_from_json V details)
    write_or_retry task
        (print_template (template_arguments details language includes_first_page date))

  -- `_prepare_pdf`
  unfoldable pub prepare_pdf : Task → LetterDetails → Action S3 BytesIo
  prepare_pdf task details = generate_templated_pdf lib V details (create_pdf_for_letter task) print

  -- `get_page_count_for_pdf`, and the stream after it.
  unfoldable pub get_page_count_for_pdf : BytesIo → Result (ℕ × BytesIo)
  get_page_count_for_pdf pdf = elim (pdf_reader lib pdf) [
    | ok (pages, f) ↦ ok (length pages, f)
    | raised e ↦ raised e
  ]

  -- The branch on the number of pages and on the key type.
  unfoldable pub destination : QueuedLetter → ℕ → Destination
  destination details page_count =
      if ltb letter_max_page_count page_count
      then record {
        bucket_name = config.invalid_pdf_bucket_name;
        filename = remove_folder_from_filename details.letter_filename;
        metadata =
            ("validation_status", "failed")
            ∷ ("message", "letter-too-long")
            ∷ ("page_count", str page_count)
            ∷ [];
        task_name = update_validation_failed_for_templated_letter;
      }
      else record {
        bucket_name =
            if eq_str details.key_type "test"
            then config.test_letters_bucket_name
            else config.letters_pdf_bucket_name;
        filename = details.letter_filename;
        metadata = [];
        task_name = update_billable_units_for_letter;
      }

  -- The upload and the message at the end of the task.
  unfoldable pub upload_and_tell : String → QueuedLetter → ℕ → BytesIo → Action S3 (Unit {0})
  upload_and_tell message_group_id details page_count cmyk_pdf =
      let d = destination details page_count in
      try_else
        (upload V (record {
          bucket_name = d.bucket_name;
          file_location = d.filename;
          filedata = (read cmyk_pdf).0;
          metadata = d.metadata;
        }))
        (λ _. send_task (record {
          name = d.task_name;
          payload = counted details.notification_id page_count;
          queue = letters_queue;
          message_group_id = message_group_id;
        }))

  -- `create_pdf_for_templated_letter`
  unfoldable pub create_pdf_for_templated_letter : String → String → Action S3 (Unit {0})
  create_pdf_for_templated_letter message_group_id encoded_letter_data = do
    details ← lift (V.decode encoded_letter_data)
    cmyk_pdf ← prepare_pdf (templated_task message_group_id encoded_letter_data) details.letter
    (page_count, f) ← lift (get_page_count_for_pdf cmyk_pdf)
    upload_and_tell message_group_id details page_count (rewind f)
