-- ===== src/Templated/Frame.antt =====
-- Making a templated letter keeps what the function that makes its pages keeps.
use notifications_template_p.Prelude.{Bool, true, false, Option, none, some}
use notifications_template_p.Python.Errors.{ok}
use notifications_template_p.Python.Stream.{BytesIo}
use notifications_template_p.Json.{Json, index}
use notifications_template_p.External.{Libraries}
use notifications_template_p.Storage.{
  Services, World, Action, ◌>>=◌, pure, lift, LetterDetails, Language, english, welsh,
}
use notifications_template_p.Storage.Steps.{Keeps, IsPreorder, Keeps-lift, Keeps->>=, Keeps-if}
use notifications_template_p.Cache.Frame.{Frame, Frame-IsPreorder, caching_s3download-Keeps}
use notifications_template_p.Templated.{
  CreatePdf, PdfPurpose, get_attachment_pdf, add_attachment_to_letter, create_in_languages,
  convert_for, attach, generate_templated_pdf, stitch_pdfs, is_bilingual,
}

module _ (lib : Libraries) (V : Services) where
  open V use {S3, config}

  pub get_attachment_pdf-Keeps :
      (service_id attachment_id : Json)
      → Keeps (Frame V) (get_attachment_pdf lib V service_id attachment_id)
  unfolding get_attachment_pdf
  get_attachment_pdf-Keeps service_id attachment_id =
      caching_s3download-Keeps V config.letter_attachment_bucket_name _

  add_attachment_to_letter-Keeps :
      (service_id : Json) (letter : BytesIo) (a : Json)
      → Keeps (Frame V) (add_attachment_to_letter lib V service_id letter a)
  unfolding add_attachment_to_letter
  add_attachment_to_letter-Keeps service_id letter a =
      let P = Frame-IsPreorder V in
      Keeps->>= P (lift (index "id" a))
        (λ id. do pdf ← get_attachment_pdf lib V service_id id; lift (stitch_pdfs lib letter pdf))
        (Keeps-lift P (index "id" a))
        (λ id.
          Keeps->>= P (get_attachment_pdf lib V service_id id)
            (λ pdf. lift (stitch_pdfs lib letter pdf)) (get_attachment_pdf-Keeps service_id id)
            (λ pdf. Keeps-lift P (stitch_pdfs lib letter pdf)))

  attach-Keeps :
      (details : LetterDetails) (pdf : BytesIo) → Keeps (Frame V) (attach lib V details pdf)
  unfolding attach
  attach-Keeps details pdf = by_attachment details.letter_attachment
    where
      by_attachment :
          (a : Option Json)
          → Keeps (Frame V) (elim a as (λ _. Action S3 BytesIo) [
            | none ↦ pure pdf
            | some attachment ↦ do
              service_id ← lift (index "service" details.template)
              add_attachment_to_letter lib V service_id pdf attachment
          ])
      by_attachment none = Keeps-lift (Frame-IsPreorder V) (ok pdf)
      by_attachment (some a) =
          Keeps->>= (Frame-IsPreorder V) (lift (index "service" details.template))
            (λ service_id. add_attachment_to_letter lib V service_id pdf a)
            (Keeps-lift (Frame-IsPreorder V) (index "service" details.template))
            (λ service_id. add_attachment_to_letter-Keeps service_id pdf a)

-- The same for any relation that holds where only caches and previews changed.
module _ (lib : Libraries) (V : Services) {R : World V.S3 → World V.S3 → Type 0} (P : IsPreorder R)
    (included : (w w' : World V.S3) → Frame V w w' → R w w') where
  create_in_languages-Keeps :
      (details : LetterDetails) (create_pdf : CreatePdf lib V)
      → ((language : Language) (first : Bool) → Keeps R (create_pdf details language first))
      → Keeps R (create_in_languages lib V details create_pdf)
  unfolding create_in_languages
  create_in_languages-Keeps details create_pdf h =
      Keeps-if P (is_bilingual details.letter_languages) _ (create_pdf details english true)
        (Keeps->>= P (create_pdf details welsh true)
          (λ first. do
            second ← create_pdf details english false
            lift (stitch_pdfs lib first second))
          (h welsh true)
          (λ first.
            Keeps->>= P (create_pdf details english false)
              (λ second. lift (stitch_pdfs lib first second)) (h english false)
              (λ second. Keeps-lift P (stitch_pdfs lib first second))))
        (h english true)

  pub generate_templated_pdf-Keeps :
      (details : LetterDetails) (create_pdf : CreatePdf lib V) (purpose : PdfPurpose)
      → ((language : Language) (first : Bool) → Keeps R (create_pdf details language first))
      → Keeps R (generate_templated_pdf lib V details create_pdf purpose)
  unfolding generate_templated_pdf
  generate_templated_pdf-Keeps details create_pdf purpose h =
      Keeps->>= P (create_in_languages lib V details create_pdf)
        (λ pdf. do converted ← lift (convert_for lib V purpose pdf); attach lib V details converted)
        (create_in_languages-Keeps details create_pdf h)
        (λ pdf.
          Keeps->>= P (lift (convert_for lib V purpose pdf))
            (λ converted. attach lib V details converted)
            (Keeps-lift P (convert_for lib V purpose pdf))
            (λ converted w. included w _ (attach-Keeps lib V details converted w)))
