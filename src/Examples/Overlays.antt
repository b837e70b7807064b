-- ===== src/Examples/Overlays.antt =====
-- A letter of two pages under its overlays. What a canvas draws is page 1 of a document.
use notifications_template_p.Prelude.{◌≡◌, refl, true, false, [], ◌∷◌, arith}
use notifications_template_p.Python.Errors.{ok}
use notifications_template_p.Python.Stream.{BytesIo, bytes_io}
use notifications_template_p.Geometry.Canvas.{
  Canvas, content_page_overlay, address_page_overlay, no_print_overlay,
}
use notifications_template_p.Precompiled.Overlay.{
  drawn_page, overlay_printable_areas_with_white, overlay_template_pdf,
}
use notifications_template_p.Precompiled.Overlay.Pages.{
  overlay_printable_areas_with_white-pages, overlay_template_pdf-pages,
}
use notifications_template_p.Examples.{toy}

drawn : (can : Canvas) → drawn_page toy can ≡ ok 1
unfolding drawn_page
drawn can = refl

overlay_printable_areas_with_white-pages_example :
    (copy : BytesIo) × (overlay_printable_areas_with_white toy (bytes_io (2 ∷ 4 ∷ [])) false
      ≡ ok (copy, bytes_io (2 ∷ 4 ∷ [])))
    × (toy.parse copy.contents ≡ ok (12 ∷ 14 ∷ []))
overlay_printable_areas_with_white-pages_example =
    overlay_printable_areas_with_white-pages toy (λ p ps. refl) (bytes_io (2 ∷ 4 ∷ [])) false 2
      (4 ∷ []) 1 1 refl (drawn address_page_overlay) (drawn content_page_overlay)

overlay_template_pdf-pages_example :
    (coloured : BytesIo) × (overlay_template_pdf toy (2 ∷ 4 ∷ []) false ≡ ok coloured)
    × (toy.parse coloured.contents ≡ ok (12 ∷ 14 ∷ []))
overlay_template_pdf-pages_example =
    overlay_template_pdf-pages toy (λ p ps. refl) (2 ∷ 4 ∷ []) 2 (4 ∷ []) 1 1 (omega arith) refl
      (drawn (no_print_overlay true)) (drawn (no_print_overlay false))
