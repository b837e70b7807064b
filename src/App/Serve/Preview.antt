-- ===== src/App/Serve/Preview.antt =====
-- The preview endpoints and the schema of their JSON.
use notifications_template_p.Prelude.{Bool, true, false, ◌≡◌, inl, inr, arith, Option-cases, ap}
use notifications_template_p.Prelude.Int.{ℤ, pos}
use notifications_template_p.Python.Errors.{Exn, Result, ok, raised}
use notifications_template_p.Json.{Json}
use notifications_template_p.Schemas.{Schema, preview_schema, get_and_validate_json_from_request}
use notifications_template_p.Schemas.Laws.{IsDraft7, Counted, letter_details-total}
use notifications_template_p.External.{Libraries}
use notifications_template_p.Storage.{Services, World, LetterDetails}
use notifications_template_p.App.Http.{Request, Response, find_arg}
use notifications_template_p.App.Handlers.{bad_request, handle}
use notifications_template_p.App.Previews.{
  preview_details, attachment_page_count, page_count, view_letter_template_png,
  view_letter_template_pdf,
}
use notifications_template_p.App.Serve.{
  Web, Endpoint, get_page_count, preview_png, preview_pdf, view, answered,
}

module _ (validate : Schema → Json → Bool) (lib : Libraries) (V : Services) where
  attachment_page_count-Counted :
      (d : LetterDetails) → Counted d → (n : ℤ) × (attachment_page_count validate lib V d ≡ ok n)
  unfolding attachment_page_count
  attachment_page_count-Counted d (inl absent) = (pos 0, ground arith)
  attachment_page_count-Counted d (inr (a, n, there, counted)) =
      (n, rw (there, counted, attachment_page_count))

  -- If the validator follows draft 7, then of every JSON that it admits by `preview_schema` the
  -- template, its languages and its attachment, the filename, the values, the contact block and the
  -- date are found without an exception, and so is the number of pages of the attachment. The
  -- template's service and the attachment's id are looked up, and the date is parsed, only later,
  -- which may still raise.
  pub preview_details-total :
      (request : Request) (json : Json)
      → IsDraft7 validate
      → request.json ≡ ok json
      → validate preview_schema json ≡ true
      → (d : LetterDetails) × (n : ℤ) × (preview_details validate lib V request ≡ ok d)
        × (attachment_page_count validate lib V d ≡ ok n)
  unfolding preview_details get_and_validate_json_from_request
  preview_details-total request json draft7 sent admitted =
      let (d, read, counted) = letter_details-total validate draft7 json admitted in
      let (n, count) = attachment_page_count-Counted d counted in
      (d, n, rw (sent, admitted, preview_details, get_and_validate_json_from_request) read, count)

module _ (web : Web) (lib : Libraries) (V : Services) where
  open V use {S3}
  open web use {validate, text_of}

  answered-raised :
      (e : Endpoint) (request : Request) (w w' : World S3) (x : Exn)
      → view web lib V e request w ≡ (raised x, w')
      → answered web lib V e request w ≡ (handle text_of x, w')
  unfolding answered
  answered-raised e request w w' x h =
      ap
        (λ (p : Result Response × World S3). elim p.0 as (λ _. Response × World S3) [
          | ok response ↦ (response, p.1)
          | raised y ↦ (handle text_of y, p.1)
        ])
        h

  preview_details-refused :
      (request : Request) (json : Json)
      → request.json ≡ ok json
      → validate preview_schema json ≡ false
      → preview_details validate lib V request ≡ raised (Exn.http_exception 400 "")
  unfolding preview_details get_and_validate_json_from_request
  preview_details-refused request json sent refused =
      rw (sent, refused, preview_details, get_and_validate_json_from_request)

  -- A JSON that the schema does not admit is answered with status 400 by each of the three
  -- endpoints that preview a template, and nothing changes.
  pub previews-refused :
      (request : Request) (json : Json) (w : World S3)
      → request.json ≡ ok json
      → validate preview_schema json ≡ false
      → let refusal : Response × World S3 =
          (bad_request (text_of (Exn.http_exception 400 "")), w) in
        (answered web lib V get_page_count request w ≡ refusal)
        × (answered web lib V preview_png request w ≡ refusal)
        × (answered web lib V preview_pdf request w ≡ refusal)
  unfolding view page_count view_letter_template_png view_letter_template_pdf handle
  previews-refused request json w sent refused =
      let r = preview_details-refused request json sent refused in
      (
        answered-raised get_page_count request w w (Exn.http_exception 400 "")
            (rw (r, view, page_count)),
        answered-raised preview_png request w w (Exn.http_exception 400 "")
            (rw (r, view, view_letter_template_png)),
        answered-raised preview_pdf request w w (Exn.http_exception 400 "")
            (elim (Option-cases (find_arg "page" request.args)) [
              | inl absent ↦ rw (absent, r, view, view_letter_template_pdf)
              | inr (page, given) ↦ rw (given, view, view_letter_template_pdf)
            ]),
      )
