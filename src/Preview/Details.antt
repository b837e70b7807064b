-- ===== src/Preview/Details.antt =====
-- What app/preview.py reads of a JSON that its schema admits, before it does anything else.
use notifications_template_p.Prelude.{Option, none, some, if◌then◌else◌}
use notifications_template_p.Prelude.Int.{ℤ}
use notifications_template_p.Python.Errors.{Exn, Result, ok, raised, ◌>>=◌}
use notifications_template_p.Json.{Json, Members, object, integer, index, get, is_truthy, as_text}
use notifications_template_p.Storage.{LetterDetails}

-- The integer that a JSON value adds to a count.
abbrev pub as_integer : Json → Result ℤ
as_integer (integer n) = ok n
as_integer _ = raised Exn.type_error

-- `letter_attachment` of a template, if it is truthy.
abbrev pub attachment_of : Json → Option Json
attachment_of v = if is_truthy v then some v else none

abbrev pub members_of : Json → Option Members
members_of (object ms) = some ms
members_of _ = none

-- The values that the source reads under these names.
abbrev pub details_of :
    (template languages attachment filename values block date : Json) → LetterDetails
details_of template languages attachment filename values block date = record {
  logo_filename = as_text filename;
  template = template;
  letter_languages = as_text languages;
  letter_attachment = attachment_of attachment;
  values = members_of values;
  letter_contact_block = as_text block;
  date = as_text date;
}

-- What the endpoints read of a JSON that `preview_schema` admits. `template["service"]`, and the keys
-- of the attachment, are looked up where they are used, and raise there if they are missing.
unfoldable pub letter_details : Json → Result LetterDetails
letter_details json = do
  template ← index "template" json
  languages ← get "letter_languages" template
  attachment ← get "letter_attachment" template
  filename ← index "filename" json
  values ← index "values" json
  block ← index "letter_contact_block" json
  date ← get "date" json
  ok (details_of template languages attachment filename values block date)
