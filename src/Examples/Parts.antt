-- ===== src/Examples/Parts.antt =====
-- A letter in two languages with an attachment: one page in each language and one attached.
use notifications_template_p.Prelude.{
  ℕ, ltb, ◌≡◌, refl, ap, subst, true, false, List, [], ◌∷◌, ◌++◌, some, map, inl, inr, Bool-cases,
  if◌then◌else◌, ◌&&◌,
}
use notifications_template_p.Python.Errors.{Result, ok, raised}
use notifications_template_p.Python.Stream.{Bytes, BytesIo, bytes_io}
use notifications_template_p.Python.Text.{is_in, codes}
use notifications_template_p.Python.Base64.{b64encode, b64decode, letter}
use notifications_template_p.Json.{
  Json, string, integer, object, member, no_members, index, get_member,
}
use notifications_template_p.Storage.{
  Services, IsLawful, World, LetterDetails, QueuedLetter, counted, english, welsh,
}
use notifications_template_p.Prelude.Int.{pos}
use notifications_template_p.Transformation.{convert_pdf_to_cmyk}
use notifications_template_p.Templated.{
  get_attachment_pdf, generate_templated_pdf, get_datetime_from_json, preview, convert_for,
}
use notifications_template_p.Templated.Pages.{
  ConvertsPages, Written, Attached, in_both, with_attachment, generate_templated_pdf-pages,
}
use notifications_template_p.Cache.{
  caching_s3download, cached_s3_download, find_cached, remember, decoded_stream,
}
use notifications_template_p.Tasks.{
  letters_queue, update_validation_failed_for_templated_letter, update_billable_units_for_letter,
}
use notifications_template_p.Tasks.Templated.{
  create_pdf_for_templated_letter, create_pdf_for_letter, templated_task, write_or_retry,
  template_arguments, destination,
}
use notifications_template_p.Tasks.Templated.Billing.{create_pdf_for_templated_letter-Billed}
use notifications_template_p.Weasyprint.{write_pdf, report}
use notifications_template_p.Examples.{
  toy, services, services-IsLawful, Files, no_files, put_file, plain_letter,
}
use notifications_template_p.Examples.Store.{world}

abbrev attachment : Json
attachment = object (member "id" (string "a1") (member "page_count" (integer (pos 1)) no_members))

abbrev both : LetterDetails
both = record (plain_letter "short") {
  letter_languages = some "welsh_then_english";
  template = object (member "service" (string "s1") no_members);
  letter_attachment = some attachment;
}

abbrev queued : QueuedLetter
queued = record {
  notification_id = "n1";
  letter_filename = "2024/A.PDF";
  key_type = "normal";
  letter = both;
}

abbrev two_languages : Services
two_languages = record (services true) { decode = λ token. ok queued }

-- The attachment is page 9.
abbrev start : World Files
start = world (put_file "attachments" "service-s1/a1.pdf" (ok (9 ∷ [])) no_files)

abbrev finish : World Files
finish = (get_attachment_pdf toy two_languages (string "s1") (string "a1") start).1

map-id : (ps : List ℕ) → map (λ p. p) ps ≡ ps
map-id [] = refl
map-id (p ∷ ps) = ap (λ qs. p ∷ qs) (map-id ps)

abbrev contents_of : Result BytesIo → Bytes
contents_of (ok f) = f.contents
contents_of (raised e) = []

toy-ConvertsPages : ConvertsPages toy (λ p. p)
unfolding convert_pdf_to_cmyk
toy-ConvertsPages bytes ps out read run =
    elim (Bool-cases
      (is_in (codes "**** Error") bytes && is_in (codes "Output may be incorrect.") bytes)) [
        | inl bad ↦ let failed = rw bad at run in cc
        | inr good ↦
            let same : bytes ≡ out.contents = ap contents_of (rw good at run) in
            rw (map-id ps) (subst (λ b. toy.parse b ≡ ok ps) same read)
      ]

page_written :
    create_pdf_for_letter toy two_languages (templated_task "s1" "both") both welsh true start
    ≡ (ok (bytes_io (4 ∷ [])), start)
unfolding create_pdf_for_letter write_or_retry template_arguments get_datetime_from_json write_pdf
    report
page_written = refl

page_written_again :
    create_pdf_for_letter toy two_languages (templated_task "s1" "both") both english false start
    ≡ (ok (bytes_io (4 ∷ [])), start)
unfolding create_pdf_for_letter write_or_retry template_arguments get_datetime_from_json write_pdf
    report
page_written_again = refl

page_attached :
    get_attachment_pdf toy two_languages (string "s1") (string "a1") start
    ≡ (ok (bytes_io (9 ∷ [])), finish)
unfolding get_attachment_pdf caching_s3download cached_s3_download find_cached remember
    decoded_stream b64encode b64decode letter
page_attached = refl

letter_converted : convert_pdf_to_cmyk toy (bytes_io (4 ∷ 4 ∷ [])) ≡ ok (bytes_io (4 ∷ 4 ∷ []))
unfolding convert_pdf_to_cmyk is_in
letter_converted = refl

both-Written :
    Written toy two_languages both
      (create_pdf_for_letter toy two_languages (templated_task "s1" "both"))
      start
      (4 ∷ 4 ∷ [])
      (4 ∷ 4 ∷ [])
      start
both-Written =
    in_both (4 ∷ []) (4 ∷ []) 4 4 [] [] start start refl (page_written, refl)
      (page_written_again, refl)

both-Attached : Attached toy two_languages both start (9 ∷ []) finish
unfolding index get_member
both-Attached =
    with_attachment attachment (string "s1") (string "a1") (9 ∷ []) 9 [] finish refl refl refl
      (page_attached, refl)

kept_for_preview :
    convert_for toy two_languages preview (bytes_io (4 ∷ 4 ∷ [])) ≡ ok (bytes_io (4 ∷ 4 ∷ []))
unfolding convert_for
kept_for_preview = refl

two_languages-IsLawful : IsLawful two_languages
two_languages-IsLawful = record {
  download-upload = (services-IsLawful true).download-upload;
  download-copy = (services-IsLawful true).download-copy;
}

generate_templated_pdf-pages_example :
    (f : BytesIo) × (generate_templated_pdf toy two_languages both
        (create_pdf_for_letter toy two_languages (templated_task "s1" "both"))
        preview
        start
      ≡ (ok f, finish))
    × (toy.parse f.contents ≡ ok (4 ∷ 4 ∷ 9 ∷ []))
generate_templated_pdf-pages_example =
    generate_templated_pdf-pages toy two_languages (λ p ps. refl) (λ p. p) toy-ConvertsPages both
      (create_pdf_for_letter toy two_languages (templated_task "s1" "both")) preview (4 ∷ 4 ∷ [])
      (bytes_io (4 ∷ 4 ∷ [])) 4 (4 ∷ []) (9 ∷ []) start start finish both-Written kept_for_preview
      both-Attached

create_pdf_for_templated_letter-Billed_example :
    let place = destination toy two_languages queued 3 in
    let (result, after) = create_pdf_for_templated_letter toy two_languages "s1" "both" start in
    (result ≡ ok tt)
    × (after.sent
        ≡ finish.sent
          ++ (record {
            name =
                if ltb 3 3
                then update_validation_failed_for_templated_letter
                else update_billable_units_for_letter;
            payload = counted "n1" 3;
            queue = letters_queue;
            message_group_id = "s1";
          }
              ∷ []))
    × ((bytes : Bytes) × (after.s3 place.bucket_name place.filename ≡ ok bytes)
        × (toy.parse bytes ≡ ok (4 ∷ 4 ∷ 9 ∷ [])))
create_pdf_for_templated_letter-Billed_example =
    create_pdf_for_templated_letter-Billed toy two_languages (λ p ps. refl) (λ p. p)
      toy-ConvertsPages two_languages-IsLawful "s1" "both" queued (4 ∷ 4 ∷ [])
      (bytes_io (4 ∷ 4 ∷ [])) 4 (4 ∷ []) (9 ∷ []) start start finish
      (λ x. (put_file x.bucket_name x.file_location (ok x.filedata) finish.s3, refl)) refl
      both-Written letter_converted both-Attached
