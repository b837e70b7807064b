-- ===== src/Preview/Frame.antt =====
-- What previews leave alone.
use Prim.Native.String.{◌++◌ as ◌<>◌}
use notifications_template_p.Prelude.{Bool, true}
use notifications_template_p.Prelude.Int.{ℤ}
use notifications_template_p.Python.Errors.{ok}
use notifications_template_p.Python.Stream.{BytesIo}
use notifications_template_p.External.{Libraries}
use notifications_template_p.Storage.{
  Services, IsLawful, ◌>>=◌, pure, lift, LetterDetails, Language,
}
use notifications_template_p.Storage.Steps.{Keeps, Keeps-lift, Keeps->>=}
use notifications_template_p.Cache.{cache_key, cached_call}
use notifications_template_p.Cache.Frame.{Frame, Frame-IsPreorder, cached_call-Keeps}
use notifications_template_p.Templated.{preview}
use notifications_template_p.Templated.Frame.{generate_templated_pdf-Keeps}
use notifications_template_p.Tasks.Templated.{get_page_count_for_pdf}
use notifications_template_p.Preview.Pages.{requested_page, draw_page}
use notifications_template_p.Preview.Letters.{
  str_bool, png_from_pdf, get_html, draw_letter, get_pdf, get_pdf_from_letter_json, prepare_pdf,
  preview_and_get_page_count,
}

module _ (lib : Libraries) (V : Services) (lawful : IsLawful V) where
  pub png_from_pdf-Keeps :
      (file : BytesIo) (page_number : ℤ) (hide : Bool)
      → Keeps (Frame V) (png_from_pdf lib V file page_number hide)
  unfolding png_from_pdf
  png_from_pdf-Keeps file page_number hide =
      let P = Frame-IsPreorder V in
      let key = λ (page : lib.Page).
        cache_key V "pngs" "png" (lib.bytes_text (lib.dumps page) <> str_bool hide) in
      Keeps->>= P (lift (requested_page lib file page_number))
        (λ page. cached_call V (key page) (lift (draw_page lib (lib.dumps page) hide)))
        (Keeps-lift P (requested_page lib file page_number))
        (λ page.
          cached_call-Keeps V lawful (key page) (lift (draw_page lib (lib.dumps page) hide))
            (Keeps-lift P (draw_page lib (lib.dumps page) hide)))

  get_pdf_from_letter_json-Keeps :
      (details : LetterDetails) (language : Language) (first : Bool)
      → Keeps (Frame V) (get_pdf_from_letter_json lib V details language first)
  unfolding get_pdf_from_letter_json get_pdf
  get_pdf_from_letter_json-Keeps details language first =
      let P = Frame-IsPreorder V in
      Keeps->>= P (lift (get_html lib V details language first)) (λ html. get_pdf lib V html)
        (Keeps-lift P (get_html lib V details language first))
        (λ html.
          cached_call-Keeps V lawful (cache_key V "templated" "pdf" html)
            (lift (draw_letter lib V html)) (Keeps-lift P (draw_letter lib V html)))

  pub prepare_pdf-Keeps : (details : LetterDetails) → Keeps (Frame V) (prepare_pdf lib V details)
  unfolding prepare_pdf
  prepare_pdf-Keeps details =
      generate_templated_pdf-Keeps lib V (Frame-IsPreorder V) (λ w w' h. h) details
        (get_pdf_from_letter_json lib V) preview (get_pdf_from_letter_json-Keeps details)

  pub preview_and_get_page_count-Keeps :
      (details : LetterDetails) (language : Language)
      → Keeps (Frame V) (preview_and_get_page_count lib V details language)
  unfolding preview_and_get_page_count
  preview_and_get_page_count-Keeps details language =
      let P = Frame-IsPreorder V in
      Keeps->>= P (get_pdf_from_letter_json lib V details language true)
        (λ pdf. do (count, _) ← lift (get_page_count_for_pdf lib V pdf); pure count)
        (get_pdf_from_letter_json-Keeps details language true)
        (λ pdf.
          Keeps->>= P (lift (get_page_count_for_pdf lib V pdf)) (λ (count, _). pure count)
            (Keeps-lift P (get_page_count_for_pdf lib V pdf))
            (λ (count, _). Keeps-lift P (ok count)))
