-- ===== src/App/Serve/Pages.antt =====
-- `view_letter_template_png` against the pages of the letter.
use notifications_template_p.Prelude.{arith, ◌≡◌, ◌∙◌, String, Bool, true, false, none}
use notifications_template_p.Prelude.Int.{ℤ}
use notifications_template_p.Python.Errors.{Result, ok}
use notifications_template_p.Python.Stream.{BytesIo, read}
use notifications_template_p.Json.{Json}
use notifications_template_p.Schemas.{Schema}
use notifications_template_p.External.{Libraries}
use notifications_template_p.Storage.{Services, IsLawful, World, LetterDetails, english}
use notifications_template_p.Cache.Coherent.{IsAvailable, IsFresh, IsCoherent}
use notifications_template_p.Templated.{
  is_bilingual, generate_templated_pdf, create_in_languages, convert_for, attach,
}
use notifications_template_p.Preview.Pages.{requested_page, draw_page}
use notifications_template_p.Preview.Letters.{
  get_html, draw_letter, get_pdf, get_pdf_from_letter_json, prepare_pdf, png_from_pdf,
}
use notifications_template_p.Preview.Uncached.{
  letter_key, png_key, drawing, get_pdf-refines, png_from_pdf-refines,
}
use notifications_template_p.App.Http.{Request, png, success}
use notifications_template_p.App.Previews.{preview_details, page_argument, view_letter_template_png}

module _ (validate : Schema → Json → Bool) (lib : Libraries) (V : Services)
    (generated : String → Result BytesIo) (lawful : IsLawful V) (available : IsAvailable V)
    (fresh : IsFresh generated) where
  open V use {S3}

  prepared :
      (d : LetterDetails) (w : World S3) (html : String) (letter : BytesIo)
      → get_html lib V d english true ≡ ok html
      → (get_pdf lib V html w).0 ≡ ok letter
      → is_bilingual d.letter_languages ≡ false
      → d.letter_attachment ≡ none
      → prepare_pdf lib V d w ≡ (ok letter, (get_pdf lib V html w).1)
  unfolding prepare_pdf generate_templated_pdf create_in_languages convert_for attach
      get_pdf_from_letter_json
  prepared d w html letter made got one alone = ground (arith, made, got)

  -- For a letter in one language and without an attachment, `/preview.png` sends the image of the
  -- page that is asked for of the PDF that WeasyPrint draws, under these conditions: both can be
  -- drawn, S3 keeps its promises and answers, what is cached for each key is what is generated for
  -- that key, which is bytes from their start, and for the keys of the HTML and of the page these
  -- are this PDF and this image.
  pub view_letter_template_png-page :
      (request : Request) (d : LetterDetails) (w : World S3) (html : String)
      (letter image : BytesIo) (n : ℤ)
      → preview_details validate lib V request ≡ ok d
      → is_bilingual d.letter_languages ≡ false
      → d.letter_attachment ≡ none
      → page_argument validate lib V request ≡ ok n
      → get_html lib V d english true ≡ ok html
      → draw_letter lib V html ≡ ok letter
      → drawing lib V letter n false ≡ ok image
      → generated (letter_key lib V html) ≡ draw_letter lib V html
      → ((page : lib.Page)
          → requested_page lib letter n ≡ ok page
          → generated (png_key lib V page false) ≡ draw_page lib (lib.dumps page) false)
      → IsCoherent V generated w
      → (view_letter_template_png validate lib V request w).0 ≡ ok (success (png (read image).0))
  unfolding view_letter_template_png
  view_letter_template_png-page request d w html letter image n details one alone number made drawn
        shown keyed keyed_page h =
      let letter_got = get_pdf-refines lib V generated lawful available fresh html w keyed h in
      let ready = prepared d w html letter made (letter_got.0 ∙ drawn) one alone in
      let page =
        png_from_pdf-refines lib V generated lawful available fresh letter n false
          (get_pdf lib V html w).1 keyed_page letter_got.1 in
      let got : (png_from_pdf lib V letter n false (get_pdf lib V html w).1).0 ≡ ok image =
        page.0 ∙ shown in
      ground (arith, ready, got)
