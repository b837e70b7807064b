-- ===== src/Examples/Previews.antt =====
-- Pages that are asked for, and files that are cached.
use notifications_template_p.Prelude.{ℕ, ◌≡◌, refl, ap, false, String, List, map, none, [], ◌∷◌}
use notifications_template_p.Prelude.Int.{pos, negsuc}
use notifications_template_p.Python.Errors.{Exn, Result, ok, raised}
use notifications_template_p.Python.Stream.{BytesIo, bytes_io}
use notifications_template_p.Cache.Coherent.{IsCoherent}
use notifications_template_p.Python.Text.{str}
use notifications_template_p.Precompiled.Overlay.{pdf_reader}
use notifications_template_p.Preview.Pages.{get_page, read_page, requested_page, draw_page}
use notifications_template_p.Preview.Laws.{requested_page-inside, requested_page-outside}
use notifications_template_p.Preview.Letters.{png_from_pdf}
use notifications_template_p.Preview.Uncached.{png_key, png_from_pdf-refines}
use notifications_template_p.System.Workers.{Service}
use notifications_template_p.System.Caches.{calls, AreCoherent, calls-refine}
use notifications_template_p.Examples.{toy}
use notifications_template_p.Examples.Steady.{
  Shelf, steady, empty, page_four, steady-IsLawful, steady-IsAvailable, page_four-IsFresh,
  empty-IsCoherent,
}

-- A PDF of the pages 4 and 6.
abbrev two_pages : BytesIo
two_pages = bytes_io (4 ∷ 6 ∷ [])

-- The second page, by its number and by 0.
requested_page-inside_example :
    (requested_page toy two_pages (pos 2) ≡ ok 6) × (requested_page toy two_pages (pos 0) ≡ ok 6)
unfolding pdf_reader
requested_page-inside_example =
    requested_page-inside toy two_pages (record { contents = 4 ∷ 6 ∷ []; position = 2 })
      (4 ∷ 6 ∷ []) refl 1 6 refl

requested_page-outside_example :
    (requested_page toy two_pages (pos 3)
      ≡ raised (Exn.http_exception 400 "Letter does not have a page 3"))
    × (requested_page toy two_pages (negsuc 1)
        ≡ raised (Exn.http_exception 400 "Letter does not have a page -2"))
unfolding pdf_reader str
requested_page-outside_example =
    requested_page-outside toy two_pages (record { contents = 4 ∷ 6 ∷ []; position = 2 })
      (4 ∷ 6 ∷ []) refl 0

-- Two processes with nothing cached.
abbrev service : Service Shelf
service = record { s3 = λ b k. none; sent = []; caches = λ worker. [] }

abbrev keys : List (ℕ × String)
keys = (0, "k") ∷ (1, "k") ∷ (0, "l") ∷ (1, "k") ∷ []

calls-refine_example :
    ((calls steady page_four keys service).0 ≡ map (λ (worker, key). page_four key) keys)
    × AreCoherent steady page_four (calls steady page_four keys service).1
calls-refine_example =
    calls-refine steady page_four steady-IsLawful steady-IsAvailable page_four-IsFresh keys service
      (λ worker. empty-IsCoherent)

abbrev image_of : Result ℕ → Result BytesIo
image_of (ok p) = ok (bytes_io (p ∷ []))
image_of (raised e) = raised e

pub drawn_four :
    (page : ℕ)
    → requested_page toy (bytes_io (4 ∷ [])) (pos 1) ≡ ok page
    → page_four (png_key toy steady page false) ≡ draw_page toy (toy.dumps page) false
unfolding requested_page read_page get_page pdf_reader draw_page
drawn_four page e = ap image_of e

png_from_pdf-refines_example :
    ((png_from_pdf toy steady (bytes_io (4 ∷ [])) (pos 1) false empty).0 ≡ ok (bytes_io (4 ∷ [])))
    × IsCoherent steady page_four
        (png_from_pdf toy steady (bytes_io (4 ∷ [])) (pos 1) false empty).1
unfolding requested_page read_page get_page pdf_reader draw_page
png_from_pdf-refines_example =
    png_from_pdf-refines toy steady page_four steady-IsLawful steady-IsAvailable page_four-IsFresh
      (bytes_io (4 ∷ [])) (pos 1) false empty drawn_four empty-IsCoherent
