-- ===== src/Storage.antt =====
-- The services that app/utils.py, app/templated.py, app/letter_attachments.py and
-- app/celery/tasks.py act on: S3, the queue, the signing client, the letter templates and WeasyPrint.
-- An action takes the state of these and of the process, and gives it back with a result; what was
-- written before an exception stays written.
pub mod Steps
use text.Mathlib.Text.{◌==◌ as eq_str}
use notifications_template_p.Prelude.{
  ℕ, String, ◌≡◌, Bool, true, false, ◌&&◌, List, [], ◌∷◌, ◌++◌, Option, if◌then◌else◌,
}
use notifications_template_p.Python.Errors.{Exn, Result, ok, raised}
use notifications_template_p.Python.Stream.{Bytes}
use notifications_template_p.Python.Text.{Text}
use notifications_template_p.Prelude.Int.{ℤ}
use notifications_template_p.Json.{Json, Members}

-- What `s3upload` is called with; the region is always the configured one.
pub record Upload : Type 0 where
  pub bucket_name : String
  pub file_location : String
  pub filedata : Bytes
  pub metadata : List (String × String)

-- What `copy_s3_object` is called with; no caller gives metadata.
pub record Copy : Type 0 where
  pub source_bucket : String
  pub source_filename : String
  pub target_bucket : String
  pub target_filename : String

-- The dict that `sanitise_and_upload_letter` signs.
pub record SanitiseData : Type 0 where
  pub page_count : Option ℕ
  pub message : Option String
  pub invalid_pages : Option (List ℕ)
  pub validation_status : String
  pub filename : String
  pub notification_id : String
  pub address : Option Text

-- The arguments of a task: a signed text, or a notification with its number of pages.
pub data Payload : Type 0 where
  signed : String → Payload
  counted : String → ℕ → Payload

-- A call of `notify_celery.send_task`.
pub record Message : Type 0 where
  pub name : String
  pub payload : Payload
  pub queue : String
  pub message_group_id : String

-- A task that is being run: what a message says of it, but for the queue.
pub record Task : Type 0 where
  pub name : String
  pub payload : Payload
  pub message_group_id : String

-- What celery does when a task is to be tried again: what `task.retry` raises, and whether it sends
-- the task again before that, as it does until the task was tried too often.
pub record Retry : Type 0 where
  pub raises : Exn
  pub is_sent : Bool

-- What the JSON of the queue and of the preview endpoints says of a templated letter. The logo is
-- `logo_filename` on the queue and `filename` in a preview.
pub record LetterDetails : Type 0 where
  pub logo_filename : Option String
  pub template : Json
  pub letter_languages : Option String
  -- `template.get("letter_attachment")`, if it is truthy
  pub letter_attachment : Option Json
  pub values : Option Members
  pub letter_contact_block : Option String
  pub date : Option String

-- The JSON that `create_pdf_for_templated_letter` is handed.
pub record QueuedLetter : Type 0 where
  pub notification_id : String
  pub letter_filename : String
  pub key_type : String
  pub letter : LetterDetails

pub data Language : Type 0 where
  english welsh : Language

-- The arguments of `LetterPrintTemplate` and `LetterPreviewTemplate`.
pub record TemplateArguments (Datetime : Type 0) : Type 0 where
  pub template : Json
  pub values : Option Members
  pub contact_block : Option String
  pub logo_file_name : Option String
  pub language : Language
  pub includes_first_page : Bool
  pub date : Option Datetime

-- The names of the buckets, from app/config.py.
pub record Config : Type 0 where
  pub letters_scan_bucket_name : String
  pub letter_cache_bucket_name : String
  pub letters_pdf_bucket_name : String
  pub test_letters_bucket_name : String
  pub invalid_pdf_bucket_name : String
  pub sanitised_letter_bucket_name : String
  pub precompiled_originals_backup_letter_bucket_name : String
  pub letter_attachment_bucket_name : String

pub record Services : Type 1 where
  pub config : Config
  -- S3. A call that fails leaves it as it was.
  pub S3 : Type 0
  pub s3download : S3 → String → String → Result Bytes
  pub s3upload : S3 → Upload → Result S3
  pub copy_object : S3 → Copy → Result S3
  -- the signing client
  pub encode : SanitiseData → String
  pub decode : String → Result QueuedLetter
  -- notifications_utils and dateutil
  pub Datetime : Type 0
  pub parse_date : String → Result Datetime
  pub print_template : TemplateArguments Datetime → String
  pub preview_template : TemplateArguments Datetime → String
  pub letter_max_page_count : ℕ
  -- WeasyPrint: what it reports to its logger as errors while it draws a page, each a message and
  -- its arguments, and what it then gives back
  pub reported : String → List (String × List String)
  pub rendered : String → Result Bytes
  -- hashlib.sha1(text).hexdigest()
  pub sha1_hexdigest : String → String
  -- urllib.parse.quote
  pub quote : String → String
  -- `text.lower()` and `int(text)`
  pub lower : String → String
  pub int : String → Result ℤ
  -- the text of a value in an f-string
  pub format : Json → String
  -- celery's `task.retry(exc=…)`
  pub retry : Task → Exn → Retry

-- What S3 promises: a file that was put, or copied, is what a later download gives under its name,
-- and nothing else changes.
pub record IsLawful (V : Services) : Type 0 where
  pub download-upload :
      (s t : V.S3) (u : Upload) (bucket key : String)
      → V.s3upload s u ≡ ok t
      → V.s3download t bucket key ≡ (
          if eq_str bucket u.bucket_name && eq_str key u.file_location
          then ok u.filedata
          else V.s3download s bucket key)
  pub download-copy :
      (s t : V.S3) (c : Copy) (bucket key : String)
      → V.copy_object s c ≡ ok t
      → V.s3download t bucket key ≡ (
          if eq_str bucket c.target_bucket && eq_str key c.target_filename
          then V.s3download s c.source_bucket c.source_filename
          else V.s3download s bucket key)

-- An entry of the `lru_cache` on `_cached_s3_download`: bucket, filename and base64.
pub record Cached : Type 0 where
  pub bucket_name : String
  pub filename : String
  pub encoded : Bytes

-- S3, the messages sent so far, the latest last, and the process's cache, the latest used first.
pub record World (S : Type 0) : Type 0 where
  pub s3 : S
  pub sent : List Message
  pub cached : List Cached

abbrev pub Action : Type 0 → Type 0 → Type 0
Action S A = World S → Result A × World S

infixl 5 ◌>>=◌ ◌>>◌
abbrev pub ◌>>=◌ : {S A B : Type 0} → Action S A → (A → Action S B) → Action S B
◌>>=◌ m f w = let (r, w') = m w in elim r [ ok a ↦ f a w' | raised e ↦ (raised e, w') ]

abbrev pub ◌>>◌ : {S A B : Type 0} → Action S A → Action S B → Action S B
m >> k = m >>= λ _. k

abbrev pub pure : {S A : Type 0} → A → Action S A
pure a w = (ok a, w)

abbrev pub lift : {S A : Type 0} → Result A → Action S A
lift r w = (r, w)

-- `notify_celery.send_task`
abbrev pub send_task : {S : Type 0} → Message → Action S (Unit {0})
send_task m w = (ok tt, record w { sent = w.sent ++ (m ∷ []) })

-- The message of a task that is sent again.
abbrev pub again : Task → String → Message
again task queue = record {
  name = task.name;
  payload = task.payload;
  queue = queue;
  message_group_id = task.message_group_id;
}

-- Whether `except BotoClientError` catches an exception; `S3ObjectNotFound` is a subclass.
abbrev pub is_boto_client_error : Exn → Bool
is_boto_client_error Exn.boto_client_error = true
is_boto_client_error Exn.s3_object_not_found = true
is_boto_client_error _ = false

module _ (V : Services) where
  open V use {S3}

  abbrev pub download : String → String → Action S3 Bytes
  download bucket key w = (V.s3download w.s3 bucket key, w)

  abbrev pub upload : Upload → Action S3 (Unit {0})
  upload u w = elim (V.s3upload w.s3 u) [
    | ok s ↦ (ok tt, record w { s3 = s })
    | raised e ↦ (raised e, w)
  ]

  -- `copy_s3_object`
  unfoldable pub copy_s3_object : Copy → Action S3 (Unit {0})
  copy_s3_object c w = elim (V.copy_object w.s3 c) [
    | ok s ↦ (ok tt, record w { s3 = s })
    | raised e ↦ (raised e, w)
  ]

  -- `task.retry(exc=exc, queue=queue)`: celery sends the same task to the queue, or does not, and
  -- raises.
  abbrev pub retry_task : {A : Type 0} → Task → String → Exn → Action S3 A
  retry_task task queue exc w = (
    raised (V.retry task exc).raises,
    if (V.retry task exc).is_sent then (send_task (again task queue) w).1 else w,
  )
