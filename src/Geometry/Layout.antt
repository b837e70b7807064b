-- ===== src/Geometry/Layout.antt =====
-- The measurements at the head of app/precompiled.py. A length is a whole number of 1/360 µm,
-- which is 1/127000 pt, so that a millimetre, a point and every decimal below are exact; the
-- source's `* mm` and `PT_TO_MM` change the unit of a number and not the length.
use notifications_template_p.Prelude.{ℕ, ◌+◌, ◌-◌, ◌*◌}
use notifications_template_p.Prelude.Int.{ℤ, pos}

-- A thousandth of a millimetre, a millimetre, and a point (25.4 / 72 mm).
abbrev pub um : ℕ
um = 360

abbrev pub mm : ℕ
mm = 360000

abbrev pub pt : ℕ
pt = 127000

abbrev pub a4_width : ℕ
a4_width = 210 * mm

abbrev pub a4_height : ℕ
a4_height = 297 * mm

abbrev pub notify_tag_from_top_of_page : ℕ
notify_tag_from_top_of_page = 1800 * um

abbrev pub notify_tag_from_left_of_page : ℕ
notify_tag_from_left_of_page = 1800 * um

abbrev pub notify_tag_bounding_box_width : ℕ
notify_tag_bounding_box_width = 15191 * um

abbrev pub notify_tag_bounding_box_height : ℕ
notify_tag_bounding_box_height = 6149 * um

abbrev pub notify_tag_font_size : ℕ
notify_tag_font_size = 6 * pt

abbrev pub notify_tag_line_height : ℕ
notify_tag_line_height = notify_tag_font_size

abbrev pub address_font_size : ℕ
address_font_size = 8 * pt

-- 8 + 0.5 points.
abbrev pub address_line_height : ℕ
address_line_height = address_font_size + 63500

abbrev pub border_left_from_left_of_page : ℕ
border_left_from_left_of_page = 15 * mm

abbrev pub border_right_from_left_of_page : ℕ
border_right_from_left_of_page = a4_width - 15 * mm

abbrev pub border_top_from_top_of_page : ℕ
border_top_from_top_of_page = 5 * mm

abbrev pub border_bottom_from_top_of_page : ℕ
border_bottom_from_top_of_page = a4_height - 5 * mm

abbrev pub body_top_from_top_of_page : ℕ
body_top_from_top_of_page = 95 * mm

abbrev pub service_address_left_from_left_of_page : ℕ
service_address_left_from_left_of_page = 125 * mm

abbrev pub service_address_right_from_left_of_page : ℕ
service_address_right_from_left_of_page = border_right_from_left_of_page

abbrev pub service_address_top_from_top_of_page : ℕ
service_address_top_from_top_of_page = border_top_from_top_of_page

abbrev pub service_address_bottom_from_top_of_page : ℕ
service_address_bottom_from_top_of_page = body_top_from_top_of_page

abbrev pub address_left_from_left_of_page : ℕ
address_left_from_left_of_page = 24600 * um

abbrev pub address_right_from_left_of_page : ℕ
address_right_from_left_of_page = 120 * mm

abbrev pub address_top_from_top_of_page : ℕ
address_top_from_top_of_page = 39500 * um

abbrev pub address_bottom_from_top_of_page : ℕ
address_bottom_from_top_of_page = 66300 * um

abbrev pub logo_right_from_left_of_page : ℕ
logo_right_from_left_of_page = service_address_left_from_left_of_page

abbrev pub logo_bottom_from_top_of_page : ℕ
logo_bottom_from_top_of_page = 30 * mm

-- 2 points, for `setRise(2)`.
abbrev pub address_rise : ℕ
address_rise = 2 * pt

-- A `pymupdf.Rect`: its corners, from the top left of the page.
pub record Rect : Type 0 where
  pub x1 : ℤ
  pub y1 : ℤ
  pub x2 : ℤ
  pub y2 : ℤ

abbrev pub notify_tag_bounding_box : Rect
notify_tag_bounding_box = record {
  x1 = pos 0;
  y1 = pos 0;
  x2 = pos notify_tag_bounding_box_width;
  y2 = pos notify_tag_bounding_box_height;
}

-- The address window with a margin of 3mm on each side.
abbrev pub address_bounding_box : Rect
address_bounding_box = record {
  x1 = pos (address_left_from_left_of_page - 3 * mm);
  y1 = pos (address_top_from_top_of_page - 3 * mm);
  x2 = pos (address_right_from_left_of_page + 3 * mm);
  y2 = pos (address_bottom_from_top_of_page + 3 * mm);
}
