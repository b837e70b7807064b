-- ===== src/App/Frame.antt =====
-- What the endpoints leave alone.
use text.Mathlib.Text.{◌==◌ as eq_str}
use Prim.Native.String.{◌++◌ as ◌<>◌}
use notifications_template_p.Prelude.{
  ℕ, ◌==◌, Bool, false, Option, none, some, length, Option-cases, inl, inr, if◌then◌else◌,
}
use notifications_template_p.Prelude.Int.{ℤ, pos, ◌+ℤ◌, leb_ℤ}
use notifications_template_p.Python.Errors.{Exn, Result, ok, raised}
use notifications_template_p.Python.Stream.{Bytes, BytesIo, bytes_io}
use notifications_template_p.Python.Base64.{b64decode}
use notifications_template_p.Json.{Json, index}
use notifications_template_p.Schemas.{
  Schema, letter_attachment_preview_schema, get_and_validate_json_from_request,
}
use notifications_template_p.External.{Libraries}
use notifications_template_p.Storage.{
  Services, IsLawful, World, Action, ◌>>=◌, pure, lift, english, welsh,
}
use notifications_template_p.Storage.Steps.{Keeps, Keeps-lift->>=, Keeps->>=, Keeps-if}
use notifications_template_p.Cache.Frame.{Frame, Frame-IsPreorder}
use notifications_template_p.Templated.{is_bilingual, get_attachment_pdf}
use notifications_template_p.Templated.Frame.{get_attachment_pdf-Keeps}
use notifications_template_p.Tasks.Templated.{get_page_count_for_pdf}
use notifications_template_p.Precompiled.Overlay.{colour_no_print_areas_of_single_page_pdf_in_red}
use notifications_template_p.Preview.Pages.{str_ℤ}
use notifications_template_p.Preview.Letters.{png_from_pdf, prepare_pdf, preview_and_get_page_count}
use notifications_template_p.Preview.Frame.{
  png_from_pdf-Keeps, prepare_pdf-Keeps, preview_and_get_page_count-Keeps,
}
use notifications_template_p.App.Http.{Request, Response, counts, success, find_arg, arg_or}
use notifications_template_p.App.Previews.{
  abort_400, send_png, send_pdf, preview_details, page_argument, attachment_page_count, page_count,
  view_letter_template_png, view_letter_template_pdf, attachment_page,
  view_letter_attachment_preview, preview_precompiled, view_precompiled_letter,
}
use notifications_template_p.App.Precompiled.{first_page_argument, overlay_template_png_for_page}

module _ (validate : Schema → Json → Bool) (lib : Libraries) (V : Services)
    (lawful : IsLawful V) where
  open V use {S3}

  -- An image of a page, sent.
  sent_png-Keeps :
      (file : BytesIo) (n : ℤ) (hide : Bool)
      → Keeps (Frame V) (png_from_pdf lib V file n hide >>= λ image. send_png image)
  sent_png-Keeps file n hide =
      Keeps->>= (Frame-IsPreorder V) (png_from_pdf lib V file n hide) (λ image. send_png image)
        (png_from_pdf-Keeps lib V lawful file n hide) (λ image w. (Frame-IsPreorder V).same w)

  -- The end of `page_count`.
  abbrev counted : ℤ → ℕ → ℕ → Action S3 Response
  counted attached welsh_pages english_pages = pure (
      success (
        counts (record {
          count = (pos english_pages +ℤ pos welsh_pages) +ℤ attached;
          welsh_page_count = pos welsh_pages;
          attachment_page_count = attached;
        })))

  pub page_count-Keeps : (request : Request) → Keeps (Frame V) (page_count validate lib V request)
  unfolding page_count
  page_count-Keeps request =
      let P = Frame-IsPreorder V in
      Keeps-lift->>= P (preview_details validate lib V request) _ (λ details.
        Keeps-lift->>= P (attachment_page_count validate lib V details) _ (λ attached.
          Keeps->>= P
            (if is_bilingual details.letter_languages
              then preview_and_get_page_count lib V details welsh
              else pure 0)
            (λ m. preview_and_get_page_count lib V details english >>= counted attached m)
            (Keeps-if P (is_bilingual details.letter_languages)
              (preview_and_get_page_count lib V details welsh) (pure 0)
              (preview_and_get_page_count-Keeps lib V lawful details welsh) (λ w. P.same w))
            (λ m.
              Keeps->>= P (preview_and_get_page_count lib V details english) (counted attached m)
                (preview_and_get_page_count-Keeps lib V lawful details english) (λ n w. P.same w))))

  pub view_letter_template_png-Keeps :
      (request : Request) → Keeps (Frame V) (view_letter_template_png validate lib V request)
  unfolding view_letter_template_png
  view_letter_template_png-Keeps request =
      let P = Frame-IsPreorder V in
      Keeps-lift->>= P (preview_details validate lib V request) _ (λ details.
        Keeps->>= P (prepare_pdf lib V details)
          (λ letter. do
            n ← lift (page_argument validate lib V request)
            image ← png_from_pdf lib V letter n false
            send_png image)
          (prepare_pdf-Keeps lib V lawful details)
          (λ letter.
            Keeps-lift->>= P (page_argument validate lib V request) _
              (λ n. sent_png-Keeps letter n false)))

  pub view_letter_template_pdf-Keeps :
      (request : Request) → Keeps (Frame V) (view_letter_template_pdf validate lib V request)
  unfolding view_letter_template_pdf
  view_letter_template_pdf-Keeps request w = elim (Option-cases (find_arg "page" request.args)) [
    | inr (page, given) ↦ rw (given, view_letter_template_pdf) ((Frame-IsPreorder V).same w)
    | inl absent ↦ rw (absent, view_letter_template_pdf) (drawn w)
  ]
    where
      drawn : Keeps (Frame V) (do
        details ← lift (preview_details validate lib V request)
        letter ← prepare_pdf lib V details
        send_pdf letter)
      drawn =
          Keeps-lift->>= (Frame-IsPreorder V) (preview_details validate lib V request) _ (λ details.
            Keeps->>= (Frame-IsPreorder V) (prepare_pdf lib V details) (λ letter. send_pdf letter)
              (prepare_pdf-Keeps lib V lawful details) (λ letter u. (Frame-IsPreorder V).same u))

  attachment_page-Keeps :
      (request : Request) (json : Json)
      → Keeps (Frame V) (attachment_page validate lib V request json)
  unfolding attachment_page
  attachment_page-Keeps request json =
      let P = Frame-IsPreorder V in
      Keeps-lift->>= P (page_argument validate lib V request) _ (λ n.
        Keeps-lift->>= P (index "service_id" json) _ (λ s.
          Keeps-lift->>= P (index "letter_attachment_id" json) _ (λ i.
            Keeps->>= P (get_attachment_pdf lib V s i)
              (λ attachment. do
                (count, f) ← lift (get_page_count_for_pdf lib V attachment)
                if leb_ℤ n (pos count)
                    then (do image ← png_from_pdf lib V f n false; send_png image)
                    else abort_400 ("Letter attachment does not have a page " <> str_ℤ n))
              (get_attachment_pdf-Keeps lib V s i)
              (λ attachment.
                Keeps-lift->>= P (get_page_count_for_pdf lib V attachment) _ (λ (count, f).
                  Keeps-if P (leb_ℤ n (pos count))
                    (png_from_pdf lib V f n false >>= λ image. send_png image)
                    (abort_400 ("Letter attachment does not have a page " <> str_ℤ n))
                    (sent_png-Keeps f n false) (λ u. P.same u))))))

  pub view_letter_attachment_preview-Keeps :
      (request : Request) → Keeps (Frame V) (view_letter_attachment_preview validate lib V request)
  unfolding view_letter_attachment_preview
  view_letter_attachment_preview-Keeps request w =
      elim (Option-cases (find_arg "page" request.args)) [
        | inl absent ↦ rw (absent, view_letter_attachment_preview) ((Frame-IsPreorder V).same w)
        | inr (page, given) ↦
            rw (given, view_letter_attachment_preview)
              (Keeps-lift->>= (Frame-IsPreorder V)
                (get_and_validate_json_from_request validate request.json
                  letter_attachment_preview_schema)
                (attachment_page validate lib V request)
                (λ json. attachment_page-Keeps request json) w)
      ]

  preview_precompiled-Keeps :
      (request : Request) → Keeps (Frame V) (preview_precompiled validate lib V request)
  unfolding preview_precompiled
  preview_precompiled-Keeps request =
      Keeps-if (Frame-IsPreorder V) (length request.body == 0) (abort_400 "") _
        (λ w. (Frame-IsPreorder V).same w) (decoded (b64decode request.body))
    where
      decoded :
          (o : Option Bytes)
          → Keeps (Frame V) (elim o as (λ _. Action S3 Response) [
            | none ↦ lift (raised Exn.value_error)
            | some bytes ↦ do
              n ← lift (page_argument validate lib V request)
              image ←
                  png_from_pdf lib V
                    (bytes_io bytes)
                    n
                    (eq_str (arg_or "hide_notify" "" request) "true")
              send_png image
          ])
      decoded none w = (Frame-IsPreorder V).same w
      decoded (some bytes) w =
          Keeps-lift->>= (Frame-IsPreorder V) (page_argument validate lib V request)
            (λ n. do
              image ←
                  png_from_pdf lib V (bytes_io bytes) n
                    (eq_str (arg_or "hide_notify" "" request) "true")
              send_png image)
            (λ n. sent_png-Keeps (bytes_io bytes) n _) w

  pub view_precompiled_letter-Keeps :
      (request : Request) → Keeps (Frame V) (view_precompiled_letter validate lib V request)
  unfolding view_precompiled_letter
  view_precompiled_letter-Keeps request w =
      after (preview_precompiled validate lib V request w).0 (preview_precompiled-Keeps request w)
    where
      later : World S3
      later = (preview_precompiled validate lib V request w).1

      after :
          (r : Result Response)
          → Frame V w later
          → Frame V w
              (elim r as (λ _. Result Response × World S3) [
                | ok response ↦ (ok response, later)
                | raised Exn.missing_delegate_error ↦ (raised (Exn.http_exception 400 ""), later)
                | raised e ↦ (raised e, later)
              ]).1
      after (ok response) h = h
      after (raised Exn.missing_delegate_error) h = h
      after (raised e) h = h

  pub overlay_template_png_for_page-Keeps :
      (request : Request) → Keeps (Frame V) (overlay_template_png_for_page lib V request)
  unfolding overlay_template_png_for_page
  overlay_template_png_for_page-Keeps request =
      let P = Frame-IsPreorder V in
      Keeps-if P (length request.body == 0)
        (lift (raised (Exn.invalid_request "no data received in POST"))) _ (λ w. P.same w)
        (Keeps-lift->>= P (first_page_argument lib V request) _ (λ first.
          Keeps-lift->>= P
            (colour_no_print_areas_of_single_page_pdf_in_red lib (bytes_io request.body) first) _
            (λ coloured. sent_png-Keeps coloured (pos 1) false)))
