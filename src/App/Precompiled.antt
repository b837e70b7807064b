-- ===== src/App/Precompiled.antt =====
-- The endpoints of app/precompiled.py.
use text.Mathlib.Text.{◌==◌ as eq_str}
use notifications_template_p.Prelude.{
  ◌==◌, Bool, true, false, not, ◌&&◌, [], none, some, length, if◌then◌else◌,
}
use notifications_template_p.Prelude.Int.{pos, eq_ℤ}
use notifications_template_p.Python.Errors.{Exn, Result, ok, raised}
use notifications_template_p.Python.Stream.{bytes_io}
use notifications_template_p.External.{Libraries}
use notifications_template_p.Storage.{Services, Action, ◌>>=◌, pure, lift}
use notifications_template_p.Precompiled.Overlay.{
  colour_no_print_areas_of_single_page_pdf_in_red, overlay_template_pdf,
}
use notifications_template_p.Precompiled.Sanitise.{sanitise_precompiled_letter}
use notifications_template_p.Preview.Letters.{png_from_pdf}
use notifications_template_p.App.Http.{Request, Response, sanitised, find_arg, arg_or}
use notifications_template_p.App.Previews.{send_png, send_pdf}

abbrev has_args : Request → Bool
has_args request = elim request.args [ [] ↦ false | _ ↦ true ]

module _ (lib : Libraries) (V : Services) where
  open V use {S3, lower, int}

  -- The `is_first_page` of `overlay_template_png_for_page`, from its arguments.
  unfoldable pub first_page_argument : Request → Result Bool
  first_page_argument request =
      let is_an_attachment = eq_str (lower (arg_or "is_an_attachment" "" request)) "true" in
      let by_number : Result Bool = elim (find_arg "page_number" request.args) [
        | none ↦
            raised (
              Exn.invalid_request
                "page_number or is_first_page must be specified in request params")
        | some number ↦ elim (int number) [
          | ok page ↦ ok (eq_ℤ page (pos 1) && not is_an_attachment)
          | raised e ↦ raised e
        ]
      ] in
      elim (find_arg "is_first_page" request.args) [
        | none ↦ by_number
        | some flag ↦ if is_an_attachment then by_number else ok (eq_str (lower flag) "true")
      ]

  -- `overlay_template_png_for_page`
  unfoldable pub overlay_template_png_for_page : Request → Action S3 Response
  overlay_template_png_for_page request =
      if length request.body == 0
      then lift (raised (Exn.invalid_request "no data received in POST"))
      else (do
        is_first_page ← lift (first_page_argument request)
        coloured ← lift (
            colour_no_print_areas_of_single_page_pdf_in_red lib (bytes_io request.body)
              is_first_page)
        image ← png_from_pdf lib V coloured (pos 1) false
        send_png image)

  -- `overlay_template_pdf`, as an endpoint
  unfoldable pub view_overlay_pdf : Request → Action S3 Response
  view_overlay_pdf request = do
    coloured ← lift (overlay_template_pdf lib request.body (has_args request))
    send_pdf coloured

  -- `sanitise_precompiled_letter`, as an endpoint
  unfoldable pub view_sanitise : Request → Action S3 Response
  view_sanitise request = do
    (details, status_code) ← lift (
        sanitise_precompiled_letter lib request.body
          (eq_str (arg_or "allow_international_letters" "" request) "true")
          (eq_str (arg_or "is_an_attachment" "" request) "true"))
    pure (record { status = status_code; content = sanitised details })
