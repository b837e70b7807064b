-- ===== src/App/Serve/Laws.antt =====
-- What an answered request leaves alone, and who is answered.
use text.Mathlib.TextEquality.{eq_iff}
use notifications_template_p.Prelude.{
  String, Bool, true, false, not, ◌&&◌, List, [], ◌∷◌, if◌then◌else◌, ◌≡◌, ◌⊎◌, inl, inr,
  Bool-cases, arith,
}
use notifications_template_p.Python.Errors.{Result, ok, raised}
use notifications_template_p.External.{Libraries}
use notifications_template_p.Storage.{Services, IsLawful, World}
use notifications_template_p.Storage.Steps.{Keeps, Keeps-lift, Keeps-lift->>=}
use notifications_template_p.Cache.Frame.{Frame, Frame-IsPreorder}
use notifications_template_p.App.Http.{Request, Response}
use notifications_template_p.App.Handlers.{handle}
use notifications_template_p.App.Status.{status}
use notifications_template_p.App.Precompiled.{view_overlay_pdf, view_sanitise}
use notifications_template_p.App.Serve.{
  Web, Endpoint, status_page, get_page_count, preview_png, preview_pdf,
  letter_attachment_preview_png, precompiled_preview_png, precompiled_sanitise,
  precompiled_overlay_png, precompiled_overlay_pdf, verify_token, is_login_required, view, answered,
  serve,
}
use notifications_template_p.App.Frame.{
  page_count-Keeps, view_letter_template_png-Keeps, view_letter_template_pdf-Keeps,
  view_letter_attachment_preview-Keeps, view_precompiled_letter-Keeps,
  overlay_template_png_for_page-Keeps,
}

-- The token is one of the secrets.
abbrev Among : String → List String → Type 0
Among token [] = ⊥
Among token (s ∷ secrets) = (token ≡ s) ⊎ Among token secrets

verify_token-true :
    (secrets : List String) (token : String)
    → Among token secrets
    → verify_token secrets token ≡ true
unfolding verify_token
verify_token-true [] token h = elim h [ ]
verify_token-true (s ∷ secrets) token (inl h) = ground (arith, (eq_iff token s).1 h)
verify_token-true (s ∷ secrets) token (inr h) = ground (arith, verify_token-true secrets token h)

module _ (web : Web) (lib : Libraries) (V : Services) (lawful : IsLawful V) where
  open V use {S3}
  open web use {validate, machine, secrets, text_of, unauthorized}

  view_overlay_pdf-Keeps : (request : Request) → Keeps (Frame V) (view_overlay_pdf lib V request)
  unfolding view_overlay_pdf
  view_overlay_pdf-Keeps request =
      Keeps-lift->>= (Frame-IsPreorder V) _ _ (λ f w. (Frame-IsPreorder V).same w)

  view_sanitise-Keeps : (request : Request) → Keeps (Frame V) (view_sanitise lib V request)
  unfolding view_sanitise
  view_sanitise-Keeps request =
      Keeps-lift->>= (Frame-IsPreorder V) _ _ (λ f w. (Frame-IsPreorder V).same w)

  view-Keeps : (e : Endpoint) (request : Request) → Keeps (Frame V) (view web lib V e request)
  unfolding view
  view-Keeps status_page request = Keeps-lift (Frame-IsPreorder V) (status machine request)
  view-Keeps get_page_count request = page_count-Keeps validate lib V lawful request
  view-Keeps preview_png request = view_letter_template_png-Keeps validate lib V lawful request
  view-Keeps preview_pdf request = view_letter_template_pdf-Keeps validate lib V lawful request
  view-Keeps letter_attachment_preview_png request =
      view_letter_attachment_preview-Keeps validate lib V lawful request
  view-Keeps precompiled_preview_png request =
      view_precompiled_letter-Keeps validate lib V lawful request
  view-Keeps precompiled_sanitise request = view_sanitise-Keeps request
  view-Keeps precompiled_overlay_png request =
      overlay_template_png_for_page-Keeps validate lib V lawful request
  view-Keeps precompiled_overlay_pdf request = view_overlay_pdf-Keeps request

  answered-Keeps :
      (e : Endpoint) (request : Request) (w : World S3)
      → Frame V w (answered web lib V e request w).1
  unfolding answered
  answered-Keeps e request w = after (view web lib V e request w).0 (view-Keeps e request w)
    where
      after :
          (r : Result Response)
          → Frame V w (view web lib V e request w).1
          → Frame V w
              (elim r as (λ _. Response × World S3) [
                | ok response ↦ (response, (view web lib V e request w).1)
                | raised x ↦ (handle text_of x, (view web lib V e request w).1)
              ]).1
      after (ok _) h = h
      after (raised _) h = h

  -- With an S3 that keeps its promises, whatever the request, the endpoint and the answer, errors
  -- included: no task is sent, no file of a bucket other than the cache's changes, and if the
  -- process's cache was valid (at most 2000 entries, no name twice), then it still is.
  pub serve-Frame :
      (endpoint : Endpoint) (request : Request) (w : World S3)
      → Frame V w (serve web lib V endpoint request w).1
  unfolding serve
  serve-Frame endpoint request w =
      guarded (is_login_required endpoint && not (verify_token secrets request.token))
    where
      guarded :
          (b : Bool)
          → Frame V w (if b then (unauthorized, w) else answered web lib V endpoint request w).1
      guarded true = (Frame-IsPreorder V).same w
      guarded false = answered-Keeps endpoint request w

module _ (web : Web) (lib : Libraries) (V : Services) where
  open V use {S3}
  open web use {secrets, unauthorized}

  -- With one of the secrets as its token, a request is answered by its endpoint.
  pub serve-open :
      (endpoint : Endpoint) (request : Request) (w : World S3)
      → Among request.token secrets
      → serve web lib V endpoint request w ≡ answered web lib V endpoint request w
  unfolding serve
  serve-open endpoint request w h = elim (Bool-cases (is_login_required endpoint)) [
    | inl e ↦ rw (e, verify_token-true secrets request.token h, serve)
    | inr e ↦ rw (e, serve)
  ]
