-- ===== src/Tasks.antt =====
-- The Celery tasks of app/celery/tasks.py that handle precompiled letters and attachments, and the
-- names of app/config.py. Logging is left out.
pub mod Precompiled
pub mod Frame
pub mod Ahead
pub mod Templated
use Prim.Native.String.{◌++◌ as ◌<>◌}
use notifications_template_p.Prelude.{
  ℕ, String, Bool, true, false, List, [], ◌∷◌, Option, none, some, if◌then◌else◌,
}
use notifications_template_p.Python.Errors.{Exn, Result, ok, raised}
use notifications_template_p.Python.Stream.{Bytes}
use notifications_template_p.Python.Text.{str}
use notifications_template_p.Python.Base64.{b64decode}
use notifications_template_p.External.{Libraries}
use notifications_template_p.Storage.{
  Services, World, Action, ◌>>=◌, ◌>>◌, pure, lift, send_task, download, upload, copy_s3_object,
  is_boto_client_error, Upload, Copy, Message, signed, SanitiseData,
}
use notifications_template_p.Templated.{get_transient_letter_file_location}
use notifications_template_p.Precompiled.Sanitise.{
  SanitisationDetails, sanitise_file_contents, has_message,
}

-- `QueueNames` and `TaskNames`
abbrev pub letters_queue : String
letters_queue = "letter-tasks"

abbrev pub sanitise_letters_queue : String
sanitise_letters_queue = "sanitise-letter-tasks"

abbrev pub process_sanitised_letter : String
process_sanitised_letter = "process-sanitised-letter"

abbrev pub update_billable_units_for_letter : String
update_billable_units_for_letter = "update-billable-units-for-letter"

abbrev pub update_validation_failed_for_templated_letter : String
update_validation_failed_for_templated_letter = "update-validation-failed-for-templated-letter"

-- The name under which `create_pdf_for_templated_letter` is registered.
abbrev pub create_pdf_task : String
create_pdf_task = "create-pdf-for-templated-letter"

-- `except BotoClientError: … return`, with what follows the `try` statement as the last argument.
abbrev pub try_else : {S A : Type 0} → Action S A → (A → Action S (Unit {0})) → Action S (Unit {0})
try_else body after w =
    let (r, w') = body w in
    elim r [
      | ok a ↦ after a w'
      | raised e ↦ (if is_boto_client_error e then ok tt else raised e, w')
    ]

-- `base64.b64decode(sanitisation_details["file"].encode())`
unfoldable pub file_of : SanitisationDetails → Result Bytes
file_of details = elim details.file [
  | none ↦ raised Exn.other
  | some encoded ↦ elim (b64decode encoded) [
    | none ↦ raised Exn.value_error
    | some bytes ↦ ok bytes
  ]
]

-- `str` of a number of pages that may be missing.
abbrev pub str_page_count : Option ℕ → String
str_page_count none = "None"
str_page_count (some n) = str n

module _ (lib : Libraries) (V : Services) where
  open V use {S3, config}

  -- The branch of `sanitise_and_upload_letter` on the message; the validation status.
  unfoldable pub upload_if_passed : String → String → SanitisationDetails → Action S3 String
  upload_if_passed notification_id filename details =
      if has_message details then pure "failed" else (do
        file_data ← lift (file_of details)
        upload V (record {
          bucket_name = config.sanitised_letter_bucket_name;
          file_location = filename;
          filedata = file_data;
          metadata = [];
        })
        copy_s3_object V (record {
          source_bucket = config.letters_scan_bucket_name;
          source_filename = filename;
          target_bucket = config.precompiled_originals_backup_letter_bucket_name;
          target_filename = notification_id <> ".pdf";
        })
        pure "passed")

  -- The `try` block of `sanitise_and_upload_letter`.
  unfoldable pub sanitise_and_upload :
      String → String → Bool → Action S3 (SanitisationDetails × String)
  sanitise_and_upload notification_id filename allow_international_letters = do
    pdf_content ← download V config.letters_scan_bucket_name filename
    let details = sanitise_file_contents lib pdf_content allow_international_letters false
    validation_status ← upload_if_passed notification_id filename details
    pure (details, validation_status)

  -- What is sent to `process-sanitised-letter`.
  unfoldable pub sanitised_message :
      String → String → String → SanitisationDetails → String → Message
  sanitised_message message_group_id notification_id filename details validation_status = record {
    name = process_sanitised_letter;
    payload = signed (
        V.encode (record {
          page_count = details.page_count;
          message = details.message;
          invalid_pages = details.invalid_pages;
          validation_status = validation_status;
          filename = filename;
          notification_id = notification_id;
          address = details.recipient_address;
        }));
    queue = letters_queue;
    message_group_id = message_group_id;
  }

  -- `sanitise_and_upload_letter`
  unfoldable pub sanitise_and_upload_letter : String → String → String → Bool → Action S3 (Unit {0})
  sanitise_and_upload_letter message_group_id notification_id filename allow_international_letters =
      try_else (sanitise_and_upload notification_id filename allow_international_letters)
        (λ (details, validation_status).
          send_task
            (sanitised_message message_group_id notification_id filename details validation_status))

  -- `recreate_pdf_for_precompiled_letter`
  unfoldable pub recreate_pdf_for_precompiled_letter : String → String → Bool → Action S3 (Unit {0})
  recreate_pdf_for_precompiled_letter notification_id file_location allow_international_letters =
      try_else
        (do
          pdf_content ←
              download V config.precompiled_originals_backup_letter_bucket_name
                (notification_id <> ".pdf")
          let details = sanitise_file_contents lib pdf_content allow_international_letters false
          if has_message details then pure tt else do
            file_data ← lift (file_of details)
            upload V (record {
              bucket_name = config.letters_pdf_bucket_name;
              file_location = file_location;
              filedata = file_data;
              metadata = [];
            }))
        pure

  -- `recreate_pdf_for_template_letter_attachments`
  unfoldable pub recreate_pdf_for_template_letter_attachments :
      String → String → String → Action S3 (Unit {0})
  recreate_pdf_for_template_letter_attachments service_id attachment_id original_filename =
      try_else
        (do
          pdf_content ←
              download V config.precompiled_originals_backup_letter_bucket_name
                (attachment_id <> ".pdf")
          let details = sanitise_file_contents lib pdf_content false true
          if has_message details then pure tt else do
            file_data ← lift (file_of details)
            upload V (record {
              bucket_name = config.letter_attachment_bucket_name;
              file_location = get_transient_letter_file_location service_id attachment_id;
              filedata = file_data;
              metadata =
                  ("page_count", str_page_count details.page_count)
                  ∷ ("filename", V.quote original_filename)
                  ∷ [];
            }))
        pure
