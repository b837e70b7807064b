-- ===== src/Tasks/Templated/Billing.antt =====
-- The number of pages that `create_pdf_for_templated_letter` of app/celery/tasks.py reports.
use text.Mathlib.TextPositions.{eq_refl}
use notifications_template_p.Prelude.{
  ℕ, ◌+◌, ltb, ◌≡◌, refl, ap, subst, ◌∙◌, length, length-append, length-map, String, List, [], ◌∷◌,
  ◌++◌, map, arith, if◌then◌else◌,
}
use notifications_template_p.Python.Errors.{ok}
use notifications_template_p.Python.Stream.{Bytes, BytesIo, bytes_io, rewind}
use notifications_template_p.Transformation.{convert_pdf_to_cmyk}
use notifications_template_p.External.{Libraries, IsFaithful}
use notifications_template_p.Storage.{Services, IsLawful, World, Upload, counted, QueuedLetter}
use notifications_template_p.Templated.{print, convert_for}
use notifications_template_p.Templated.Pages.{
  ConvertsPages, Written, Attached, generate_templated_pdf-pages,
}
use notifications_template_p.Tasks.{
  letters_queue, update_billable_units_for_letter, update_validation_failed_for_templated_letter,
}
use notifications_template_p.Tasks.Templated.{
  destination, prepare_pdf, create_pdf_for_templated_letter, create_pdf_for_letter, templated_task,
}
use notifications_template_p.Tasks.Templated.Routing.{routed}

module _ (lib : Libraries) (V : Services) where
  open V use {S3, letter_max_page_count}
  open lib use {Page, parse}

  -- The end of the task for a letter with so many pages.
  abbrev Billed : String → String → QueuedLetter → List Page → ℕ → World S3 → World S3 → Type 0
  Billed group encoded details pages n u w =
      let place = destination lib V details n in
      let (result, after) = create_pdf_for_templated_letter lib V group encoded u in
      (result ≡ ok tt)
      × (after.sent
          ≡ w.sent
            ++ (record {
              name =
                  if ltb letter_max_page_count n
                  then update_validation_failed_for_templated_letter
                  else update_billable_units_for_letter;
              payload = counted details.notification_id n;
              queue = letters_queue;
              message_group_id = group;
            }
                ∷ []))
      × ((bytes : Bytes) × (V.s3download after.s3 place.bucket_name place.filename ≡ ok bytes)
          × (parse bytes ≡ ok pages))

  told_name :
      (details : QueuedLetter) (n : ℕ)
      → (destination lib V details n).task_name ≡ (
          if ltb letter_max_page_count n
          then update_validation_failed_for_templated_letter
          else update_billable_units_for_letter)
  unfolding destination
  told_name details n = ground arith

  counted_pages :
      IsLawful V
      → (group encoded : String) (details : QueuedLetter) (pdf : BytesIo) (pages : List Page)
        (u w : World S3)
      → ((x : Upload) → (s : S3) × (V.s3upload w.s3 x ≡ ok s))
      → V.decode encoded ≡ ok details
      → prepare_pdf lib V (templated_task group encoded) details.letter u ≡ (ok pdf, w)
      → parse pdf.contents ≡ ok pages
      → Billed group encoded details pages (length pages) u w
  counted_pages lawful group encoded details pdf pages u w takes decoded made read =
      let place = destination lib V details (length pages) in
      let stored : Upload = record {
        bucket_name = place.bucket_name;
        file_location = place.filename;
        filedata = pdf.contents;
        metadata = place.metadata;
      } in
      let (s, took) = takes stored in
      rw
        (
          routed lib V group encoded details pdf pages u w s decoded made read took,
          told_name details (length pages),
        )
        (
          refl,
          refl,
          (
            pdf.contents,
            lawful.download-upload w.s3 s stored _ _ took
                ∙ rw (eq_refl place.bucket_name, eq_refl place.filename),
            read,
          ),
        )

  -- A templated letter whose parts can be made is stored and reported with the sum of the pages of
  -- its parts: those that were written, in one language or two, and those of its attachment. The
  -- report is a failed validation if the sum is more than the allowed number of pages, and the
  -- billable pages if not; what is stored are the written pages, converted for print, and then the
  -- attachment. Each part has at least one page, pypdf reads the pages that it wrote, Ghostscript
  -- converts the letter, page by page, and S3 keeps its promises and takes the upload.
  pub create_pdf_for_templated_letter-Billed :
      IsFaithful lib
      → (cmyk : Page → Page) → ConvertsPages lib cmyk
      → IsLawful V
      → (group encoded : String) (details : QueuedLetter) (bytes : Bytes) (out : BytesIo) (p : Page)
        (ps qs : List Page) (u v w : World S3)
      → ((x : Upload) → (s : S3) × (V.s3upload w.s3 x ≡ ok s))
      → V.decode encoded ≡ ok details
      → Written lib V details.letter
          (create_pdf_for_letter lib V (templated_task group encoded))
          u
          bytes
          (p ∷ ps)
          v
      → convert_pdf_to_cmyk lib (bytes_io bytes) ≡ ok out
      → Attached lib V details.letter v qs w
      → Billed group encoded details (map cmyk (p ∷ ps) ++ qs) (length (p ∷ ps) + length qs) u w
  unfolding prepare_pdf convert_for
  create_pdf_for_templated_letter-Billed faithful cmyk converts lawful group encoded details bytes
        out p ps qs u v w takes decoded written done attached =
      let (pdf, made, read) =
        generate_templated_pdf-pages lib V faithful cmyk converts details.letter
          (create_pdf_for_letter lib V (templated_task group encoded)) print bytes (rewind out) p ps
          qs u v w written (rw (done, convert_for)) attached in
      let sum : length (map cmyk (p ∷ ps) ++ qs) ≡ length (p ∷ ps) + length qs =
        length-append (map cmyk (p ∷ ps)) qs ∙ ap (λ n. n + length qs) (length-map cmyk (p ∷ ps)) in
      subst (λ n. Billed group encoded details (map cmyk (p ∷ ps) ++ qs) n u w) sum
        (counted_pages lawful group encoded details pdf _ u w takes decoded made read)
