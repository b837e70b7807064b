-- ===== src/Geometry/Canvas.antt =====
-- `NotifyCanvas` of app/precompiled.py, and the two kinds of overlay that are drawn on it.
use notifications_template_p.Prelude.{
  ℕ, ◌+◌, ◌-◌, ◌*◌, min, max, Bool, false, ◌&&◌, ◌||◌, List, [], ◌∷◌, ◌++◌, leb, if◌then◌else◌,
}
use notifications_template_p.Prelude.Int.{ℤ, pos, sub_ℕ, leb_ℤ, ◌+ℤ◌}
use notifications_template_p.Python.Text.{Text}
use notifications_template_p.Geometry.Layout.{
  mm, a4_width, a4_height, border_left_from_left_of_page, border_right_from_left_of_page,
  border_top_from_top_of_page, border_bottom_from_top_of_page, body_top_from_top_of_page,
  service_address_left_from_left_of_page, service_address_right_from_left_of_page,
  service_address_top_from_top_of_page, service_address_bottom_from_top_of_page,
  address_left_from_left_of_page, address_right_from_left_of_page, address_top_from_top_of_page,
  address_bottom_from_top_of_page, logo_right_from_left_of_page, logo_bottom_from_top_of_page,
}

pub data Colour : Type 0 where
  white black red_transparent : Colour

-- What `canvas.Canvas.rect` is called with: the left lower corner, from the bottom left of the
-- page, and the size.
pub record Box : Type 0 where
  pub left : ℕ
  pub bottom : ℤ
  pub width : ℕ
  pub height : ℕ

-- Lines of text: font size, distance and rise of the lines, and the origin of the first one from
-- the bottom left of the page.
pub record Lettering : Type 0 where
  pub ink : Colour
  pub size : ℕ
  pub leading : ℕ
  pub rise : ℕ
  pub x : ℕ
  pub y : ℤ
  pub text : Text

-- The drawing calls in order.
pub data Shape : Type 0 where
  filled : Colour → Box → Shape
  lettering : Lettering → Shape

pub record Canvas : Type 0 where
  pub colour : Colour
  pub shapes : List Shape

-- `NotifyCanvas.__init__`
abbrev pub notify_canvas : Colour → Canvas
notify_canvas c = record { colour = c; shapes = [] }

-- The arithmetic of `NotifyCanvas.rect`: any two opposite corners, from the top left.
unfoldable pub box : ℕ × ℕ → ℕ × ℕ → Box
box (x, y) (x', y') =
    let left_x = min x x' in
    let right_x = max x x' in
    let top_y = min y y' in
    let bottom_y = max y y' in
    record {
      left = left_x;
      bottom = sub_ℕ a4_height bottom_y;
      width = right_x - left_x;
      height = bottom_y - top_y;
    }

-- `NotifyCanvas.rect`
unfoldable pub rect : ℕ × ℕ → ℕ × ℕ → Canvas → Canvas
rect p q can = record can { shapes = can.shapes ++ (filled can.colour (box p q) ∷ []) }

-- The body of each page in `_overlay_printable_areas_with_white`.
unfoldable pub content_page_overlay : Canvas
unfolding rect
content_page_overlay =
    rect (border_left_from_left_of_page - 1 * mm, border_top_from_top_of_page - 1 * mm)
      (border_right_from_left_of_page + 1 * mm, border_bottom_from_top_of_page + 1 * mm)
      (notify_canvas white)

-- The canvas of `_overlay_printable_areas_of_address_block_page_with_white`: body, service
-- address, logo and address window, in this order.
unfoldable pub address_page_overlay : Canvas
unfolding rect
address_page_overlay =
    let body =
      rect (border_left_from_left_of_page - 1 * mm, body_top_from_top_of_page - 1 * mm)
        (border_right_from_left_of_page + 1 * mm, border_bottom_from_top_of_page + 1 * mm)
        (notify_canvas white) in
    let service =
      rect
        (
          service_address_left_from_left_of_page - 1 * mm,
          service_address_top_from_top_of_page - 1 * mm,
        )
        (
          service_address_right_from_left_of_page + 1 * mm,
          service_address_bottom_from_top_of_page + 1 * mm,
        )
        body in
    let logo =
      rect (border_left_from_left_of_page - 1 * mm, border_top_from_top_of_page - 1 * mm)
        (logo_right_from_left_of_page + 1 * mm, logo_bottom_from_top_of_page + 1 * mm) service in
    rect (address_left_from_left_of_page - 1 * mm, address_top_from_top_of_page - 1 * mm)
      (address_right_from_left_of_page + 1 * mm, address_bottom_from_top_of_page + 1 * mm) logo

-- The four margins of `_colour_no_print_areas_of_page_in_red`: left, top, right, bottom.
unfoldable pub red_margins : Canvas → Canvas
unfolding rect
red_margins can =
    let l = rect (0, 0) (border_left_from_left_of_page, a4_height) can in
    let t =
      rect (border_left_from_left_of_page, 0)
        (border_right_from_left_of_page, border_top_from_top_of_page) l in
    let r = rect (border_right_from_left_of_page, 0) (a4_width, a4_height) t in
    rect (border_left_from_left_of_page, border_bottom_from_top_of_page)
      (border_right_from_left_of_page, a4_height) r

-- The red areas around the address window: left of it, above, right, below.
unfoldable pub red_address_surround : Canvas → Canvas
unfolding rect
red_address_surround can =
    let l =
      rect (border_left_from_left_of_page, logo_bottom_from_top_of_page)
        (address_left_from_left_of_page, body_top_from_top_of_page) can in
    let above =
      rect (address_left_from_left_of_page, logo_bottom_from_top_of_page)
        (address_right_from_left_of_page, address_top_from_top_of_page) l in
    let r =
      rect (address_right_from_left_of_page, logo_bottom_from_top_of_page)
        (service_address_left_from_left_of_page, body_top_from_top_of_page) above in
    rect (address_left_from_left_of_page, address_bottom_from_top_of_page)
      (address_right_from_left_of_page, body_top_from_top_of_page) r

-- The canvas of `_colour_no_print_areas_of_page_in_red`.
unfoldable pub no_print_overlay : Bool → Canvas
unfolding red_margins red_address_surround
no_print_overlay is_first_page =
    let can = red_margins (notify_canvas red_transparent) in
    if is_first_page then red_address_surround can else can

-- Whether the drawn box, read back from the top left, takes in a point of the page, its edges
-- included.
abbrev pub in_box : Box → ℕ → ℕ → Bool
in_box b x y =
    let up = sub_ℕ a4_height y in
    leb b.left x
    && leb x (b.left + b.width)
    && leb_ℤ b.bottom up
    && leb_ℤ up (b.bottom +ℤ pos b.height)

abbrev pub shape_covers : Shape → ℕ → ℕ → Bool
shape_covers (filled _ b) x y = in_box b x y
shape_covers (lettering _) x y = false

abbrev any_covers : List Shape → ℕ → ℕ → Bool
any_covers [] x y = false
any_covers (s ∷ ss) x y = shape_covers s x y || any_covers ss x y

-- Whether some filled rectangle of a canvas takes in a point.
abbrev pub covers : Canvas → ℕ → ℕ → Bool
covers can = any_covers can.shapes
