-- ===== src/App/Serve/Counts.antt =====
-- `page_count` against the letter that `view_letter_template_pdf` sends.
use notifications_template_p.Prelude.{
  arith, ◌≡◌, ap, ◌∙◌, String, Bool, true, false, List, none, length,
}
use notifications_template_p.Prelude.Int.{pos}
use notifications_template_p.Python.Errors.{Result, ok, raised}
use notifications_template_p.Python.Stream.{BytesIo, read}
use notifications_template_p.Json.{Json}
use notifications_template_p.Schemas.{Schema}
use notifications_template_p.External.{Libraries}
use notifications_template_p.Storage.{
  Services, IsLawful, World, Action, ◌>>=◌, lift, LetterDetails, english,
}
use notifications_template_p.Cache.Coherent.{IsAvailable, IsFresh, IsCoherent}
use notifications_template_p.Precompiled.Overlay.{pdf_reader}
use notifications_template_p.Templated.{
  is_bilingual, generate_templated_pdf, create_in_languages, convert_for, attach,
}
use notifications_template_p.Tasks.Templated.{get_page_count_for_pdf}
use notifications_template_p.Preview.Letters.{
  get_html, draw_letter, get_pdf, get_pdf_from_letter_json, prepare_pdf, preview_and_get_page_count,
}
use notifications_template_p.Preview.Uncached.{letter_key, get_pdf-refines}
use notifications_template_p.App.Http.{Request, counts, pdf, success, find_arg}
use notifications_template_p.App.Previews.{
  preview_details, attachment_page_count, page_count, view_letter_template_pdf,
}

-- A step that succeeds is followed by the rest of the chain.
bind_ok :
    {S A B : Type 0} (m : Action S A) (f : A → Action S B) (w : World S) (a : A)
    → (m w).0 ≡ ok a
    → (m >>= f) w ≡ f a (m w).1
bind_ok {S} {A} {B} m f w a h =
    ap
      (λ (r : Result A). elim r as (λ _. Result B × World S) [
        | ok x ↦ f x (m w).1
        | raised e ↦ (raised e, (m w).1)
      ])
      h

module _ (validate : Schema → Json → Bool) (lib : Libraries) (V : Services)
    (generated : String → Result BytesIo) (lawful : IsLawful V) (available : IsAvailable V)
    (fresh : IsFresh generated) where
  open V use {S3}

  -- `_get_pdf_from_letter_json`, where what is cached is right.
  letter_drawn :
      (d : LetterDetails) (w : World S3) (html : String) (letter : BytesIo)
      → get_html lib V d english true ≡ ok html
      → draw_letter lib V html ≡ ok letter
      → generated (letter_key lib V html) ≡ draw_letter lib V html
      → IsCoherent V generated w
      → (get_pdf_from_letter_json lib V d english true w).0 ≡ ok letter
  unfolding get_pdf_from_letter_json
  letter_drawn d w html letter made drawn keyed h =
      ap (λ p. p.0) (bind_ok (lift (get_html lib V d english true)) (get_pdf lib V) w html made)
      ∙ (get_pdf-refines lib V generated lawful available fresh html w keyed h).0
      ∙ drawn

  pages_counted :
      (d : LetterDetails) (w : World S3) (letter f : BytesIo) (pages : List lib.Page)
      → (get_pdf_from_letter_json lib V d english true w).0 ≡ ok letter
      → pdf_reader lib letter ≡ ok (pages, f)
      → (preview_and_get_page_count lib V d english w).0 ≡ ok (length pages)
  unfolding preview_and_get_page_count get_page_count_for_pdf
  pages_counted d w letter f pages made readable = ground (arith, made, readable)

  letter_prepared :
      (d : LetterDetails) (w : World S3) (letter : BytesIo)
      → (get_pdf_from_letter_json lib V d english true w).0 ≡ ok letter
      → is_bilingual d.letter_languages ≡ false
      → d.letter_attachment ≡ none
      → (prepare_pdf lib V d w).0 ≡ ok letter
  unfolding prepare_pdf generate_templated_pdf create_in_languages convert_for attach
  letter_prepared d w letter made one alone = ground (arith, made)

  -- For a letter in one language and without an attachment, `/get-page-count` answers the number
  -- of pages of the very PDF that `/preview.pdf` sends for the same request, one without a `page`
  -- argument, under these conditions: the letter can be drawn and its PDF read, S3 keeps its
  -- promises and answers, what is cached for each key is what is generated for that key, which is
  -- bytes from their start, and for the key of the HTML that is this PDF.
  pub page_count-letter :
      (request : Request) (d : LetterDetails) (w : World S3) (html : String) (letter f : BytesIo)
      (pages : List lib.Page)
      → preview_details validate lib V request ≡ ok d
      → is_bilingual d.letter_languages ≡ false
      → d.letter_attachment ≡ none
      → find_arg "page" request.args ≡ none
      → get_html lib V d english true ≡ ok html
      → draw_letter lib V html ≡ ok letter
      → pdf_reader lib letter ≡ ok (pages, f)
      → generated (letter_key lib V html) ≡ draw_letter lib V html
      → IsCoherent V generated w
      → ((page_count validate lib V request w).0
          ≡ ok (
              success (
                counts (record {
                  count = pos (length pages);
                  welsh_page_count = pos 0;
                  attachment_page_count = pos 0;
                }))))
        × ((view_letter_template_pdf validate lib V request w).0
            ≡ ok (success (pdf (read letter).0)))
  unfolding page_count view_letter_template_pdf attachment_page_count
  page_count-letter request d w html letter f pages details one alone whole made drawn readable
        keyed h =
      let ready = letter_drawn d w html letter made drawn keyed h in
      let count = pages_counted d w letter f pages ready readable in
      let prepared = letter_prepared d w letter ready one alone in
      (ground (arith, count), ground (arith, prepared))
