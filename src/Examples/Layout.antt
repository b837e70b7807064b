-- ===== src/Examples/Layout.antt =====
-- The overlays and the printed address at points and texts of a page.
use notifications_template_p.Prelude.{◌*◌, ◌-◌, ◌≡◌, ◌↔◌, true, false, [], ◌∷◌, some, arith, refl}
use notifications_template_p.Prelude.Int.{pos, ◌+ℤ◌, ◌≤ℤ◌}
use notifications_template_p.Python.Text.{Text, count}
use notifications_template_p.Geometry.Layout.{
  mm, a4_height, address_top_from_top_of_page, address_bottom_from_top_of_page,
}
use notifications_template_p.Geometry.Canvas.{
  box, covers, no_print_overlay, content_page_overlay, address_page_overlay,
}
use notifications_template_p.Geometry.Coverage.{
  no_print_overlay_first_clear, no_print_overlay_first_inside, overlays_meet_first,
  address_page_overlay-Near, printable, NearPrintable,
}
use notifications_template_p.Precompiled.Address.{address_text}
use notifications_template_p.Precompiled.Address.Laws.{address_text-in_window, baseline}
use notifications_template_p.Precompiled.Validation.{is_page_a4_portrait}
use notifications_template_p.Precompiled.Validation.Pages.{
  is_page_a4_portrait-displayed, IsA4Portrait, displayed,
}

clear_in_window : covers (no_print_overlay true) (30 * mm) (50 * mm) ≡ false
unfolding no_print_overlay box
clear_in_window = ground arith

no_print_overlay_first_clear_example : printable (30 * mm) (50 * mm) ≡ true
no_print_overlay_first_clear_example =
    no_print_overlay_first_clear (30 * mm) (50 * mm) (omega arith) (omega arith) clear_in_window

no_print_overlay_first_inside_example : covers (no_print_overlay true) (30 * mm) (150 * mm) ≡ false
no_print_overlay_first_inside_example =
    no_print_overlay_first_inside (30 * mm) (150 * mm) (omega arith) (omega arith) (ground arith)

visible_above_window : covers address_page_overlay (40 * mm) (36 * mm) ≡ false
unfolding address_page_overlay box
visible_above_window = ground arith

overlays_meet_first_example : covers (no_print_overlay true) (40 * mm) (36 * mm) ≡ true
overlays_meet_first_example =
    overlays_meet_first (40 * mm) (36 * mm) (omega arith) (omega arith) visible_above_window

visible_in_margin : covers content_page_overlay (2 * mm) (100 * mm) ≡ false
unfolding content_page_overlay box
visible_in_margin = ground arith

address_page_overlay-Near_example :
    (covers address_page_overlay (14 * mm) (100 * mm) ≡ true) ↔ NearPrintable (14 * mm) (100 * mm)
address_page_overlay-Near_example = address_page_overlay-Near (14 * mm) (100 * mm)

-- "A", "B" and "C" on a line each.
abbrev three_lines : Text
three_lines = b'A' ∷ 10 ∷ b'B' ∷ 10 ∷ b'C' ∷ []

newlines : count 10 three_lines ≡ 2
unfolding count
newlines = refl

address_text-in_window_example :
    (pos (a4_height - address_bottom_from_top_of_page) ≤ℤ baseline (address_text three_lines) 1)
    × (baseline (address_text three_lines) 1 +ℤ pos (address_text three_lines).size
        ≤ℤ pos (a4_height - address_top_from_top_of_page))
address_text-in_window_example =
    address_text-in_window three_lines 1 (omega (arith, newlines)) (omega (arith, newlines))

is_page_a4_portrait-displayed_example :
    (is_page_a4_portrait (pos (210 * mm)) (pos (298 * mm)) (some (pos 270)) ≡ true)
    ↔ IsA4Portrait (displayed (some (pos 270)) (pos (210 * mm)) (pos (298 * mm)))
is_page_a4_portrait-displayed_example =
    is_page_a4_portrait-displayed (pos (210 * mm)) (pos (298 * mm)) (some (pos 270))
