-- ===== src/Tasks/Templated/Routing.antt =====
-- Where `create_pdf_for_templated_letter` of app/celery/tasks.py puts a letter, and whom it tells.
use Prim.Native.Char.{code}
use Prim.Native.String.{◌++◌ as ◌<>◌}
use Prim.Native.String.append
use text.Mathlib.Text.{◌==◌ as eq_str}
use text.Mathlib.TextPositions.{eq_refl}
use notifications_template_p.Prelude.{
  ◌<◌, ltb, ◌==◌, ◌≡◌, refl, ap, ◌∙◌, length, String, true, false, List, [], ◌∷◌, ◌++◌, Option,
  arith, ◌⊎◌, inl, inr,
}
use notifications_template_p.Python.Errors.{Exn, ok, raised}
use notifications_template_p.Python.Stream.{BytesIo}
use notifications_template_p.Python.Text.{str}
use notifications_template_p.External.{Libraries}
use notifications_template_p.Storage.{
  Services, IsLawful, World, retry_task, counted, QueuedLetter, english,
}
use notifications_template_p.Precompiled.Overlay.{pdf_reader}
use notifications_template_p.Weasyprint.{write_pdf}
use notifications_template_p.Templated.{
  is_bilingual, get_datetime_from_json, generate_templated_pdf, create_in_languages,
}
use notifications_template_p.Tasks.{
  letters_queue, sanitise_letters_queue, update_validation_failed_for_templated_letter,
}
use notifications_template_p.Tasks.Templated.{
  split_slash, remove_folder_from_filename, destination, prepare_pdf, get_page_count_for_pdf,
  upload_and_tell, create_pdf_for_templated_letter, create_pdf_for_letter, write_or_retry,
  template_arguments, templated_task,
}

-- No character of a text is a slash.
abbrev pub HasNoSlash : String → Type 0
HasNoSlash String.[] = Unit
HasNoSlash (String.◌∷◌ c s) = ((code c == b'/') ≡ false) × HasNoSlash s

split_slash-none : (name : String) → HasNoSlash name → split_slash name ≡ name ∷ []
unfolding split_slash
split_slash-none String.[] h = refl
split_slash-none (String.◌∷◌ c s) (h, k) = rw (split_slash-none s k, h)

split_slash-slash : (name : String) → HasNoSlash name → split_slash ("/" <> name) ≡ "" ∷ name ∷ []
unfolding split_slash
split_slash-slash name k =
    let cut : "/" <> name ≡ String.◌∷◌ "/" name =
      append.cons "/" "" name ∙ ap (λ t. String.◌∷◌ "/" t) (append.nil name) in
    rw cut (rw (split_slash-none name k))

split_slash-folder :
    (folder name : String)
    → HasNoSlash folder
    → HasNoSlash name
    → split_slash (folder <> ("/" <> name)) ≡ folder ∷ name ∷ []
unfolding split_slash
split_slash-folder String.[] name h k =
    let joined : "" <> ("/" <> name) ≡ "/" <> name = append.nil ("/" <> name) in
    rw joined (split_slash-slash name k)
split_slash-folder (String.◌∷◌ c s) name (h, l) k =
    rw (append.cons c s ("/" <> name)) (rw (split_slash-folder s name l k, split_slash) (rw h))

-- A name behind one folder is found again, and a name without a folder is kept.
pub remove_folder_from_filename-folder :
    (folder name : String)
    → HasNoSlash folder
    → HasNoSlash name
    → (remove_folder_from_filename (folder <> ("/" <> name)) ≡ name)
      × (remove_folder_from_filename name ≡ name)
unfolding remove_folder_from_filename
remove_folder_from_filename-folder folder name h k = (
  rw (split_slash-folder folder name h k, remove_folder_from_filename),
  rw (split_slash-none name k, remove_folder_from_filename),
)

module _ (lib : Libraries) (V : Services) where
  open V use {S3, config, letter_max_page_count}

  -- The run of the task once the PDF is made, for an upload that S3 accepts. The whole PDF is uploaded, wherever its stream stands.
  pub routed :
      (group encoded : String) (details : QueuedLetter) (pdf : BytesIo) (pages : List lib.Page)
      (w w1 : World S3) (s : S3)
      → V.decode encoded ≡ ok details
      → prepare_pdf lib V (templated_task group encoded) details.letter w ≡ (ok pdf, w1)
      → lib.parse pdf.contents ≡ ok pages
      → V.s3upload w1.s3 (record {
        bucket_name = (destination lib V details (length pages)).bucket_name;
        file_location = (destination lib V details (length pages)).filename;
        filedata = pdf.contents;
        metadata = (destination lib V details (length pages)).metadata;
      })
        ≡ ok s
      → create_pdf_for_templated_letter lib V group encoded w ≡ (
        ok tt,
        record w1 {
          s3 = s;
          sent =
              w1.sent
              ++ (record {
                name = (destination lib V details (length pages)).task_name;
                payload = counted details.notification_id (length pages);
                queue = letters_queue;
                message_group_id = group;
              }
                  ∷ []);
        },
      )
  unfolding create_pdf_for_templated_letter get_page_count_for_pdf pdf_reader upload_and_tell
  routed group encoded details pdf pages w w1 s d p e u = ground arith

  -- A templated letter with more pages than allowed, of a name with one folder or with none, whose PDF is made and can be read and whose upload S3 accepts, is put whole into the bucket of invalid PDFs, under its name without the folder and with the reason as metadata, and the failed validation is reported with the number of pages. S3 keeps its promises.
  pub create_pdf_for_templated_letter-too_long :
      IsLawful V
      → (group encoded folder name : String) (details : QueuedLetter) (pdf : BytesIo)
        (pages : List lib.Page) (w w1 : World S3) (s : S3)
      → V.decode encoded ≡ ok details
      → (details.letter_filename ≡ folder <> ("/" <> name)) ⊎ (details.letter_filename ≡ name)
      → HasNoSlash folder
      → HasNoSlash name
      → prepare_pdf lib V (templated_task group encoded) details.letter w ≡ (ok pdf, w1)
      → lib.parse pdf.contents ≡ ok pages
      → letter_max_page_count < length pages
      → V.s3upload w1.s3 (record {
        bucket_name = config.invalid_pdf_bucket_name;
        file_location = name;
        filedata = pdf.contents;
        metadata =
            ("validation_status", "failed")
            ∷ ("message", "letter-too-long")
            ∷ ("page_count", str (length pages))
            ∷ [];
      })
        ≡ ok s
      → (create_pdf_for_templated_letter lib V group encoded w ≡ (
        ok tt,
        record w1 {
          s3 = s;
          sent =
              w1.sent
              ++ (record {
                name = update_validation_failed_for_templated_letter;
                payload = counted details.notification_id (length pages);
                queue = letters_queue;
                message_group_id = group;
              }
                  ∷ []);
        },
      ))
        × (V.s3download s config.invalid_pdf_bucket_name name ≡ ok pdf.contents)
  unfolding destination
  create_pdf_for_templated_letter-too_long lawful group encoded folder name details pdf pages w w1 s
        d file no_slash no_slash' p e long u =
      let bucket : String = config.invalid_pdf_bucket_name in
      let plain : remove_folder_from_filename details.letter_filename ≡ name =
        let (behind_folder, alone) =
          remove_folder_from_filename-folder folder name no_slash no_slash' in
        elim file [ inl e ↦ rw e behind_folder | inr e ↦ rw e alone ] in
      let test : ltb letter_max_page_count (length pages) ≡ true = ground arith in
      let there : destination lib V details (length pages) ≡ record {
        bucket_name = bucket;
        filename = name;
        metadata =
            ("validation_status", "failed")
            ∷ ("message", "letter-too-long")
            ∷ ("page_count", str (length pages))
            ∷ [];
        task_name = update_validation_failed_for_templated_letter;
      } =
        rw (test, plain, destination) in
      (
        rw there at (routed group encoded details pdf pages w w1 s d p e (rw there u)),
        lawful.download-upload w1.s3 s _ bucket name u ∙ rw (eq_refl bucket, eq_refl name),
      )

  -- If WeasyPrint reports a missing image while a letter in English only is made, the task does what celery's retry with the queue for sanitising does, and nothing else.
  pub create_pdf_for_templated_letter-retries :
      (group encoded : String) (details : QueuedLetter) (w : World S3) (date : Option V.Datetime)
      → V.decode encoded ≡ ok details
      → is_bilingual details.letter.letter_languages ≡ false
      → get_datetime_from_json V details.letter ≡ ok date
      → write_pdf V (V.print_template (template_arguments lib V details.letter english true date))
        ≡ raised Exn.weasyprint_error
      → create_pdf_for_templated_letter lib V group encoded w
        ≡ retry_task V (templated_task group encoded) sanitise_letters_queue Exn.weasyprint_error w
  unfolding create_pdf_for_templated_letter prepare_pdf generate_templated_pdf create_in_languages
      create_pdf_for_letter write_or_retry
  create_pdf_for_templated_letter-retries group encoded details w date d mono t e = ground arith
