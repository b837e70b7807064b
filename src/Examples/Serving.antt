-- ===== src/Examples/Serving.antt =====
-- Requests to the endpoints.
use notifications_template_p.Prelude.{◌≡◌, refl, false, ℕ, List, [], ◌∷◌, none, some}
use notifications_template_p.Prelude.Int.{ℤ, pos}
use notifications_template_p.Python.Errors.{ok}
use notifications_template_p.Python.Stream.{bytes_io}
use notifications_template_p.Json.{index, get, get_member, null, string, object, member, no_members}
use notifications_template_p.Storage.{World, LetterDetails}
use notifications_template_p.Cache.Frame.{Frame}
use notifications_template_p.Weasyprint.{write_pdf, report}
use notifications_template_p.Precompiled.Overlay.{pdf_reader}
use notifications_template_p.Preview.Letters.{get_html, draw_letter}
use notifications_template_p.Schemas.{get_and_validate_json_from_request}
use notifications_template_p.Preview.Details.{letter_details, details_of}
use notifications_template_p.Templated.{get_datetime_from_json}
use notifications_template_p.App.Previews.{
  preview_details, attachment_page_count, page_count, view_letter_template_pdf,
  view_letter_template_png, page_argument,
}
use notifications_template_p.App.Serve.Preview.{preview_details-total, previews-refused}
use notifications_template_p.App.Serve.Pages.{view_letter_template_png-page}
use notifications_template_p.Preview.Pages.{requested_page, read_page, get_page, draw_page}
use notifications_template_p.Examples.Previews.{drawn_four}
use notifications_template_p.App.Serve.Counts.{page_count-letter}
use notifications_template_p.App.Http.{
  png, Request, Response, error, pdf, counts, success, find_arg,
}
use notifications_template_p.App.Serve.{preview_pdf, get_page_count, preview_png, serve, answered}
use notifications_template_p.App.Serve.Laws.{serve-Frame}
use notifications_template_p.Tasks.Ahead.{Ahead}
use notifications_template_p.System.{Event, requested, sanitise}
use notifications_template_p.System.Workers.{Service, seen_by, run}
use notifications_template_p.System.Messages.{run-Ahead}
use notifications_template_p.Examples.{toy}
use notifications_template_p.Examples.Validator.{accepts, accepts-IsDraft7}
use notifications_template_p.Examples.Steady.{
  Shelf, steady, empty, web, preview_json, request, page_four, steady-IsLawful, steady-IsAvailable,
  page_four-IsFresh, empty-IsCoherent,
}

serve-Frame_example : Frame steady empty (serve web toy steady preview_pdf request empty).1
serve-Frame_example = serve-Frame web toy steady steady-IsLawful preview_pdf request empty

abbrev previewed : LetterDetails
previewed =
    details_of (object (member "subject" (string "s") (member "content" (string "c") no_members)))
      null null null null null null

preview_details-total_example :
    (d : LetterDetails) × (n : ℤ) × (preview_details accepts toy steady request ≡ ok d)
    × (attachment_page_count accepts toy steady d ≡ ok n)
unfolding accepts get_member
preview_details-total_example =
    preview_details-total accepts toy steady request preview_json accepts-IsDraft7 refl refl

-- A JSON without anything.
abbrev bare : Request
bare = record request { json = ok (object no_members) }

abbrev refusal : Response × World Shelf
refusal = (record { status = 400; content = error (some "error") }, empty)

previews-refused_example :
    (answered web toy steady get_page_count bare empty ≡ refusal)
    × (answered web toy steady preview_png bare empty ≡ refusal)
    × (answered web toy steady preview_pdf bare empty ≡ refusal)
unfolding accepts get_member
previews-refused_example = previews-refused web toy steady bare (object no_members) empty refl refl

page_count-letter_example :
    ((page_count accepts toy steady request empty).0
      ≡ ok (
          success (
            counts
              (record { count = pos 1; welsh_page_count = pos 0; attachment_page_count = pos 0 }))))
    × ((view_letter_template_pdf accepts toy steady request empty).0 ≡ ok (success (pdf (4 ∷ []))))
unfolding accepts get_member preview_details get_and_validate_json_from_request letter_details index
    get find_arg get_html get_datetime_from_json draw_letter write_pdf report pdf_reader
page_count-letter_example =
    page_count-letter accepts toy steady page_four steady-IsLawful steady-IsAvailable
      page_four-IsFresh request previewed empty "" (bytes_io (4 ∷ []))
      (record { contents = 4 ∷ []; position = 1 }) (4 ∷ []) refl refl refl refl refl refl refl refl
      empty-IsCoherent

view_letter_template_png-page_example :
    (view_letter_template_png accepts toy steady request empty).0 ≡ ok (success (png (4 ∷ [])))
unfolding accepts get_member preview_details get_and_validate_json_from_request letter_details index
    get find_arg get_html get_datetime_from_json draw_letter write_pdf report pdf_reader
    page_argument requested_page read_page get_page draw_page
view_letter_template_png-page_example =
    view_letter_template_png-page accepts toy steady page_four steady-IsLawful steady-IsAvailable
      page_four-IsFresh request previewed empty "" (bytes_io (4 ∷ [])) (bytes_io (4 ∷ [])) (pos 1)
      refl refl refl refl refl refl refl refl drawn_four empty-IsCoherent

-- A page count by one process, and then a task for a letter that is not there by another one.
abbrev events : List (ℕ × Event)
events = (0, requested get_page_count request) ∷ (1, sanitise "s1" "n1" "A.PDF" false) ∷ []

abbrev service : Service Shelf
service = record { s3 = λ b k. none; sent = []; caches = λ worker. [] }

run-Ahead_example : Ahead (seen_by 0 service) (seen_by 0 (run web toy steady events service))
run-Ahead_example = run-Ahead web toy steady steady-IsLawful events service 0
