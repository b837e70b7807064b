-- ===== src/App/Serve.antt =====
-- A request to the application: the token, the endpoint, and the error handlers.
pub mod Laws
pub mod Counts
pub mod Pages
pub mod Preview
use text.Mathlib.Text.{◌==◌ as eq_str}
use notifications_template_p.Prelude.{
  String, Bool, true, false, not, ◌&&◌, ◌||◌, List, [], ◌∷◌, if◌then◌else◌,
}
use notifications_template_p.Python.Errors.{Exn, ok, raised}
use notifications_template_p.Json.{Json}
use notifications_template_p.Schemas.{Schema}
use notifications_template_p.External.{Libraries}
use notifications_template_p.Storage.{Services, World, Action, lift}
use notifications_template_p.App.Http.{Request, Response}
use notifications_template_p.App.Handlers.{handle}
use notifications_template_p.App.Status.{Machine, status}
use notifications_template_p.App.Previews.{
  page_count, view_letter_template_png, view_letter_template_pdf, view_letter_attachment_preview,
  view_precompiled_letter,
}
use notifications_template_p.App.Precompiled.{
  overlay_template_png_for_page, view_overlay_pdf, view_sanitise,
}

-- The endpoints, by their URLs.
pub data Endpoint : Type 0 where
  status_page get_page_count preview_png preview_pdf letter_attachment_preview_png : Endpoint
  precompiled_preview_png precompiled_sanitise precompiled_overlay_png precompiled_overlay_pdf :
      Endpoint

-- What the application is handed beside the libraries and services: the validator of JSON schemas,
-- the machine, `TEMPLATE_PREVIEW_INTERNAL_SECRETS`, `str` of an exception, and the answer of
-- flask_httpauth to a request that is not let in.
pub record Web : Type 0 where
  pub validate : Schema → Json → Bool
  pub machine : Machine
  pub secrets : List String
  pub text_of : Exn → String
  pub unauthorized : Response

-- `verify_token`
unfoldable pub verify_token : List String → String → Bool
verify_token [] token = false
verify_token (s ∷ secrets) token = eq_str token s || verify_token secrets token

-- Which view functions are under `@auth.login_required`.
abbrev pub is_login_required : Endpoint → Bool
is_login_required status_page = false
is_login_required _ = true

module _ (web : Web) (lib : Libraries) (V : Services) where
  open V use {S3}
  open web use {validate, machine, secrets, text_of, unauthorized}

  -- The view functions.
  unfoldable pub view : Endpoint → Request → Action S3 Response
  view status_page request = lift (status machine request)
  view get_page_count request = page_count validate lib V request
  view preview_png request = view_letter_template_png validate lib V request
  view preview_pdf request = view_letter_template_pdf validate lib V request
  view letter_attachment_preview_png request = view_letter_attachment_preview validate lib V request
  view precompiled_preview_png request = view_precompiled_letter validate lib V request
  view precompiled_sanitise request = view_sanitise lib V request
  view precompiled_overlay_png request = overlay_template_png_for_page lib V request
  view precompiled_overlay_pdf request = view_overlay_pdf lib V request

  -- A view function under the error handlers.
  unfoldable pub answered : Endpoint → Request → World S3 → Response × World S3
  answered endpoint request w =
      let (r, w') = view endpoint request w in
      elim r [ ok response ↦ (response, w') | raised e ↦ (handle text_of e, w') ]

  unfoldable pub serve : Endpoint → Request → World S3 → Response × World S3
  serve endpoint request w =
      if is_login_required endpoint && not (verify_token secrets request.token)
      then (unauthorized, w)
      else answered endpoint request w
