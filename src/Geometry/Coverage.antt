-- ===== src/Geometry/Coverage.antt =====
-- What the overlays of app/precompiled.py cover.
use notifications_template_p.Prelude.{
  ||-cases, sym, ◌∙◌, not, ℕ, ◌+◌, ◌-◌, ◌≤◌, min, max, ◌≡◌, ◌↔◌, inl, inr, Bool, true, false, ◌&&◌,
  ◌||◌, arith, ltb, leb,
}
use notifications_template_p.Geometry.Layout.{
  mm, a4_width, a4_height, border_left_from_left_of_page, border_right_from_left_of_page,
  border_top_from_top_of_page, border_bottom_from_top_of_page, body_top_from_top_of_page,
  service_address_left_from_left_of_page, service_address_right_from_left_of_page,
  service_address_top_from_top_of_page, service_address_bottom_from_top_of_page,
  address_left_from_left_of_page, address_right_from_left_of_page, address_top_from_top_of_page,
  address_bottom_from_top_of_page, logo_right_from_left_of_page, logo_bottom_from_top_of_page,
}
use notifications_template_p.Geometry.Canvas.{
  box, in_box, covers, no_print_overlay, content_page_overlay, address_page_overlay,
}

-- The box that `rect` draws for two corners takes in a point exactly if the point lies between them in both directions, whichever corner is given first.
pub in_box-box :
    (a b c d x y : ℕ)
    → (in_box (box (a, b) (c, d)) x y ≡ true)
      ↔ ((min a c ≤ x) × (x ≤ max a c) × (min b d ≤ y) × (y ≤ max b d))
unfolding box
in_box-box a b c d x y = ground arith

-- An area of a page, from its top left.
pub record Area : Type 0 where
  pub left : ℕ
  pub top : ℕ
  pub right : ℕ
  pub bottom : ℕ

abbrev pub holds : Area → ℕ → ℕ → Bool
holds a x y = leb a.left x && leb x a.right && leb a.top y && leb y a.bottom

in_box-holds :
    (l t r b x y : ℕ)
    → l ≤ r
    → t ≤ b
    → in_box (box (l, t) (r, b)) x y
      ≡ holds (record { left = l; top = t; right = r; bottom = b }) x y
unfolding box
in_box-holds l t r b x y h k = ground arith

abbrev pub inside : Area → ℕ → ℕ → Bool
inside a x y = ltb a.left x && ltb x a.right && ltb a.top y && ltb y a.bottom

abbrev pub border_area : Area
border_area = record {
  left = border_left_from_left_of_page;
  top = border_top_from_top_of_page;
  right = border_right_from_left_of_page;
  bottom = border_bottom_from_top_of_page;
}

abbrev pub body_area : Area
body_area = record {
  left = border_left_from_left_of_page;
  top = body_top_from_top_of_page;
  right = border_right_from_left_of_page;
  bottom = border_bottom_from_top_of_page;
}

abbrev pub service_address_area : Area
service_address_area = record {
  left = service_address_left_from_left_of_page;
  top = service_address_top_from_top_of_page;
  right = service_address_right_from_left_of_page;
  bottom = service_address_bottom_from_top_of_page;
}

abbrev pub logo_area : Area
logo_area = record {
  left = border_left_from_left_of_page;
  top = border_top_from_top_of_page;
  right = logo_right_from_left_of_page;
  bottom = logo_bottom_from_top_of_page;
}

abbrev pub address_area : Area
address_area = record {
  left = address_left_from_left_of_page;
  top = address_top_from_top_of_page;
  right = address_right_from_left_of_page;
  bottom = address_bottom_from_top_of_page;
}

-- On every point of the page, the red overlay of a page that is not the first covers exactly what is not strictly inside the borders.
pub no_print_overlay_content :
    (x y : ℕ)
    → x ≤ a4_width
    → y ≤ a4_height
    → covers (no_print_overlay false) x y ≡ not (inside border_area x y)
unfolding no_print_overlay box
no_print_overlay_content x y h k = ground arith

-- The areas in which the first page of a letter may carry content, their edges included.
abbrev pub printable : ℕ → ℕ → Bool
printable x y =
    holds body_area x y
    || holds service_address_area x y
    || holds logo_area x y
    || holds address_area x y

-- The same areas without their edges.
abbrev pub printable_inside : ℕ → ℕ → Bool
printable_inside x y =
    inside body_area x y
    || inside service_address_area x y
    || inside logo_area x y
    || inside address_area x y

-- A point of the first page that the red overlay leaves clear lies in one of the areas that may carry content: body, service address, logo, address window.
pub no_print_overlay_first_clear :
    (x y : ℕ)
    → x ≤ a4_width
    → y ≤ a4_height
    → covers (no_print_overlay true) x y ≡ false
    → printable x y ≡ true
unfolding no_print_overlay box
no_print_overlay_first_clear x y h k c = ground arith

-- The red overlay of the first page leaves clear every point that is strictly inside one of the areas that may carry content.
pub no_print_overlay_first_inside :
    (x y : ℕ)
    → x ≤ a4_width
    → y ≤ a4_height
    → printable_inside x y ≡ true
    → covers (no_print_overlay true) x y ≡ false
unfolding no_print_overlay box
no_print_overlay_first_inside x y h k c = ground arith

abbrev pub grow : ℕ → Area → Area
grow d a = record { left = a.left - d; top = a.top - d; right = a.right + d; bottom = a.bottom + d }

pub address_page_overlay_lem :
    (x y : ℕ)
    → covers address_page_overlay x y ≡ (
        holds (grow mm body_area) x y
        || holds (grow mm service_address_area) x y
        || holds (grow mm logo_area) x y
        || holds (grow mm address_area) x y)
unfolding address_page_overlay box
address_page_overlay_lem x y = ground arith

-- On the first page, no point is left visible by both overlays: what the white overlay does not hide before the check for stray content, the red overlay marks.
pub overlays_meet_first :
    (x y : ℕ)
    → x ≤ a4_width
    → y ≤ a4_height
    → covers address_page_overlay x y ≡ false
    → covers (no_print_overlay true) x y ≡ true
unfolding address_page_overlay no_print_overlay box
overlays_meet_first x y h k e = ground arith

-- Two points at most a millimetre apart in each direction.
abbrev pub Near : ℕ → ℕ → ℕ → ℕ → Type 0
Near x y x' y' = (x ≤ x' + mm) × (x' ≤ x + mm) × (y ≤ y' + mm) × (y' ≤ y + mm)

holds-grow-of_Near :
    (a : Area) (x y x' y' : ℕ)
    → holds a x' y' ≡ true
    → Near x y x' y'
    → holds (grow mm a) x y ≡ true
holds-grow-of_Near a x y x' y' h k = ground arith

-- The coordinate of a range that is nearest to a given one.
abbrev clamp : ℕ → ℕ → ℕ → ℕ
clamp lo hi x = max lo (min hi x)

holds-grow-Near :
    (a : Area) (x y : ℕ)
    → a.left ≤ a.right
    → a.top ≤ a.bottom
    → holds (grow mm a) x y ≡ true
    → (holds a (clamp a.left a.right x) (clamp a.top a.bottom y) ≡ true)
      × Near x y (clamp a.left a.right x) (clamp a.top a.bottom y)
holds-grow-Near a x y h k e = ground arith

-- A printable point at most a millimetre away.
abbrev pub NearPrintable : ℕ → ℕ → Type 0
NearPrintable x y = (x' : ℕ) × (y' : ℕ) × (printable x' y' ≡ true) × Near x y x' y'

near_of_area :
    (a : Area) (x y : ℕ)
    → ((u v : ℕ) → holds a u v ≡ true → printable u v ≡ true)
    → a.left ≤ a.right
    → a.top ≤ a.bottom
    → holds (grow mm a) x y ≡ true
    → NearPrintable x y
near_of_area a x y sub h k e =
    let (held, near) = holds-grow-Near a x y h k e in
    (clamp a.left a.right x, clamp a.top a.bottom y, sub _ _ held, near)

grown : ℕ → ℕ → Bool
grown x y =
    holds (grow mm body_area) x y
    || holds (grow mm service_address_area) x y
    || holds (grow mm logo_area) x y
    || holds (grow mm address_area) x y

near_of_grown : (x y : ℕ) → grown x y ≡ true → NearPrintable x y
unfolding grown
near_of_grown x y h = elim (||-cases _ (holds (grow mm address_area) x y) h) [
  | inr e ↦ near_of_area address_area x y (λ u v m. ground arith) (omega arith) (omega arith) e
  | inl r ↦ elim (||-cases _ (holds (grow mm logo_area) x y) r) [
    | inr e ↦ near_of_area logo_area x y (λ u v m. ground arith) (omega arith) (omega arith) e
    | inl q ↦ elim (||-cases _ (holds (grow mm service_address_area) x y) q) [
      | inr e ↦
          near_of_area service_address_area x y (λ u v m. ground arith) (omega arith) (omega arith)
            e
      | inl e ↦ near_of_area body_area x y (λ u v m. ground arith) (omega arith) (omega arith) e
    ]
  ]
]

grown_of_near : (x y : ℕ) → NearPrintable x y → grown x y ≡ true
unfolding grown
grown_of_near x y (x', y', p, n) = ground arith

-- The white overlay of the first page covers exactly the points that have a point of the printable areas at most a millimetre away in each direction.
pub address_page_overlay-Near :
    (x y : ℕ) → (covers address_page_overlay x y ≡ true) ↔ NearPrintable x y
unfolding grown
address_page_overlay-Near x y = (
  λ h. near_of_grown x y (sym (address_page_overlay_lem x y) ∙ h),
  λ n. address_page_overlay_lem x y ∙ grown_of_near x y n,
)

-- The white overlay of a later page covers exactly the points that have a point within the borders at most a millimetre away in each direction.
pub content_page_overlay-Near :
    (x y : ℕ)
    → (covers content_page_overlay x y ≡ true)
      ↔ ((x' : ℕ) × (y' : ℕ) × (holds border_area x' y' ≡ true) × Near x y x' y')
unfolding content_page_overlay box
content_page_overlay-Near x y = (
  λ h. (
    clamp border_area.left border_area.right x,
    clamp border_area.top border_area.bottom y,
    ground arith,
    ground arith,
  ),
  λ (x', y', p, n). ground arith,
)

-- On a later page, what the white overlay does not hide the red overlay marks.
pub overlays_meet_content :
    (x y : ℕ)
    → x ≤ a4_width
    → y ≤ a4_height
    → covers content_page_overlay x y ≡ false
    → covers (no_print_overlay false) x y ≡ true
unfolding content_page_overlay no_print_overlay box
overlays_meet_content x y h k e = ground arith
