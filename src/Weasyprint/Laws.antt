-- ===== src/Weasyprint/Laws.antt =====
-- When drawing a page ends with a missing image.
use notifications_template_p.Prelude.{
  ◌≡◌, refl, inl, inr, ◌⊎◌, String, true, List, [], ◌∷◌, Bool-cases,
}
use notifications_template_p.Python.Errors.{Exn, ok, raised}
use notifications_template_p.Storage.{Services}
use notifications_template_p.Weasyprint.{is_image_error, evil_error, report, write_pdf}

-- One of the messages says that an image is missing.
abbrev pub ReportsImage : List (String × List String) → Type 0
ReportsImage [] = ⊥
ReportsImage ((msg, args) ∷ calls) = (is_image_error msg ≡ true) ⊎ ReportsImage calls

report_missing :
    (calls : List (String × List String))
    → ReportsImage calls
    → report calls ≡ raised Exn.weasyprint_error
unfolding report evil_error
report_missing ((msg, args) ∷ calls) h = elim (Bool-cases (is_image_error msg)) [
  | inl e ↦ rw e
  | inr e ↦ rw e (elim h [ inl e' ↦ cc (e, e') | inr later ↦ report_missing calls later ])
]
report_missing [] h = absurd h

report_ok : (calls : List (String × List String)) → (¬ ReportsImage calls) → report calls ≡ ok tt
unfolding report evil_error
report_ok [] h = refl
report_ok ((msg, args) ∷ calls) h = elim (Bool-cases (is_image_error msg)) [
  | inl e ↦ absurd (h (inl e))
  | inr e ↦ rw e (report_ok calls (λ later. h (inr later)))
]

-- A page is drawn with the exception for a missing image if one of the messages that WeasyPrint reports starts with "Failed to load image". If none does, drawing gives what WeasyPrint itself gives, whatever else was reported.
pub write_pdf-image :
    (V : Services) (html : String)
    → ((ReportsImage (V.reported html)) → write_pdf V html ≡ raised Exn.weasyprint_error)
      × ((¬ ReportsImage (V.reported html)) → write_pdf V html ≡ V.rendered html)
unfolding write_pdf
write_pdf-image V html =
    (λ h. rw (report_missing (V.reported html) h), λ h. rw (report_ok (V.reported html) h))
