-- ===== src/Weasyprint.antt =====
-- app/weasyprint_hack.py: the logger method that turns a missing image into an exception, and
-- `HTML(string=html).write_pdf()` with it in place.
pub mod Laws
use notifications_template_p.Prelude.{String, Bool, List, [], ◌∷◌, if◌then◌else◌}
use notifications_template_p.Python.Errors.{Exn, Result, ok, raised, ◌>>=◌, ◌>>◌}
use notifications_template_p.Python.Stream.{Bytes}
use notifications_template_p.Python.Text.{codes, starts_with}
use notifications_template_p.Storage.{Services}

-- The test of `evil_error`.
unfoldable pub is_image_error : String → Bool
is_image_error msg = starts_with (codes "Failed to load image") (codes msg)

-- `evil_error`. What is logged otherwise, and the text of the exception, are left out.
unfoldable pub evil_error : String → List String → Result (Unit {0})
evil_error msg args = if is_image_error msg then raised Exn.weasyprint_error else ok tt

-- The calls that WeasyPrint makes of it, until one raises.
unfoldable pub report : List (String × List String) → Result (Unit {0})
report [] = ok tt
report ((msg, args) ∷ calls) = do evil_error msg args; report calls

-- `HTML(string=html).write_pdf()`
unfoldable pub write_pdf : (V : Services) → String → Result Bytes
write_pdf V html = do report (V.reported html); V.rendered html
