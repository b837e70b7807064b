-- ===== src/Precompiled/Validation/Pages.antt =====
-- Which page numbers the checks of app/precompiled.py report.
use notifications_template_p.Prelude.{
  ℕ, zero, suc, ◌+◌, ◌*◌, ◌≤◌, ◌<◌, ◌≡◌, refl, ◌↔◌, ◌⊎◌, inl, inr, Bool, true, false, List, [], ◌∷◌,
  Option, none, some, get_elem?, Elem, IsAscending, arith, Bool-cases, if◌then◌else◌, leb, ◌||◌,
  ◌&&◌,
}
use notifications_template_p.Prelude.Int.{ℤ, pos, eq_ℤ, dist}
use mathlib.Core.Option.{some-injective}
use notifications_template_p.Geometry.Layout.{mm, a4_width, a4_height}
use notifications_template_p.Precompiled.Validation.{isclose, is_page_a4_portrait, failing_from}

abbrev pub turn : Bool → Bool → ℤ → ℤ → Option (ℤ × ℤ)
turn true side h w = some (h, w)
turn false true h w = some (w, h)
turn false false h w = none

-- Height and width as they are seen on the page that is turned by a number of degrees.
abbrev pub displayed : Option ℤ → ℤ → ℤ → Option (ℤ × ℤ)
displayed none h w = turn true false h w
displayed (some r) h w =
    turn (eq_ℤ r (pos 0) || eq_ℤ r (pos 180)) (eq_ℤ r (pos 90) || eq_ℤ r (pos 270)) h w

-- At most 2mm off the size of an upright A4 page.
abbrev pub IsA4Portrait : Option (ℤ × ℤ) → Type 0
IsA4Portrait none = ⊥
IsA4Portrait (some (h, w)) = (dist h (pos a4_height) ≤ 2 * mm) × (dist w (pos a4_width) ≤ 2 * mm)

-- At these sizes the relative tolerance of `isclose` allows nothing more.
isclose-within :
    (a : ℤ) (b : ℕ) → b ≤ 400 * mm → isclose a (pos b) (2 * mm) ≡ leb (dist a (pos b)) (2 * mm)
unfolding isclose
isclose-within a b h = ground arith

-- No length is within 2mm of both sides of the page.
one_side : (a : ℤ) → dist a (pos a4_height) ≤ 2 * mm → dist a (pos a4_width) ≤ 2 * mm → ⊥
one_side a h k = ground arith

-- The test and what it says of the displayed page, with the distances as plain numbers.
by_distances :
    (hh hw wh ww t : ℕ) (up side : Bool)
    → ((hh ≤ t) → (hw ≤ t) → ⊥)
    → (up ≡ true → side ≡ true → ⊥)
    → ((if leb hh t && leb ww t then up else if leb wh t && leb hw t then side else false) ≡ true)
      ↔ (((up ≡ true) × (hh ≤ t) × (ww ≤ t)) ⊎ ((side ≡ true) × (wh ≤ t) × (hw ≤ t)))
by_distances hh hw wh ww t up side sides turns = ground arith

turn-IsA4Portrait :
    (up side : Bool) (h w : ℤ)
    → (up ≡ true → side ≡ true → ⊥)
    → IsA4Portrait (turn up side h w) ↔ (
        ((up ≡ true) × (dist h (pos a4_height) ≤ 2 * mm) × (dist w (pos a4_width) ≤ 2 * mm))
        ⊎ ((side ≡ true) × (dist w (pos a4_height) ≤ 2 * mm) × (dist h (pos a4_width) ≤ 2 * mm)))
turn-IsA4Portrait true side h w turns = (
  λ (a, b). inl (refl, a, b),
  elim [ inl (_, a, b) ↦ (a, b) | inr (s, _, _) ↦ absurd (turns refl s) ],
)
turn-IsA4Portrait false true h w turns =
    (λ (a, b). inr (refl, a, b), elim [ inl (e, _, _) ↦ cc | inr (_, a, b) ↦ (a, b) ])
turn-IsA4Portrait false false h w turns =
    (λ x. absurd x, elim [ inl (e, _, _) ↦ cc | inr (e, _, _) ↦ cc ])

-- The test with `isclose` replaced, for a rotation that is upright or sideways.
portrait_iff :
    (up side : Bool) (h w : ℤ)
    → (up ≡ true → side ≡ true → ⊥)
    → ((if leb (dist h (pos a4_height)) (2 * mm) && leb (dist w (pos a4_width)) (2 * mm)
          then up
          else if leb (dist w (pos a4_height)) (2 * mm) && leb (dist h (pos a4_width)) (2 * mm)
          then side
          else false)
        ≡ true)
      ↔ IsA4Portrait (turn up side h w)
portrait_iff up side h w turns =
    let code =
      by_distances (dist h (pos a4_height)) (dist h (pos a4_width)) (dist w (pos a4_height))
        (dist w (pos a4_width)) (2 * mm) up side (one_side h) turns in
    let seen = turn-IsA4Portrait up side h w turns in
    (λ e. seen.1 (code.0 e), λ p. code.1 (seen.0 p))

module _ {ℓ} {A : Type ℓ} (test : A → Bool) where
  -- The number stands, counted from `k`, at an element that fails the test.
  abbrev pub Fails : ℕ → ℕ → List A → Type ℓ
  Fails n k xs = (i : ℕ) × (a : A) × (n ≡ k + i) × (get_elem? xs i ≡ some a) × (test a ≡ false)

  pub failing_from-Fails : (n k : ℕ) (xs : List A) → Elem n (failing_from test k xs) → Fails n k xs
  unfolding failing_from
  failing_from-Fails n k [] h = absurd h
  failing_from-Fails n k (x ∷ xs) h = elim (Bool-cases (test x)) [
    | inl pass ↦ later (failing_from-Fails n (suc k) xs (rw pass at h))
    | inr fail ↦ elim (split (rw fail at h)) [
      | inl e ↦ (0, x, omega arith, refl, fail)
      | inr r ↦ later (failing_from-Fails n (suc k) xs r)
    ]
  ]
    where
      later : Fails n (suc k) xs → Fails n k (x ∷ xs)
      later (i, a, e, g, f) = (suc i, a, omega arith, g, f)

      split :
          Elem n (k ∷ failing_from test (suc k) xs)
          → (n ≡ k) ⊎ Elem n (failing_from test (suc k) xs)
      split d = d

  pub Fails-failing_from :
      (n k i : ℕ) (a : A) (xs : List A)
      → n ≡ k + i
      → get_elem? xs i ≡ some a
      → test a ≡ false
      → Elem n (failing_from test k xs)
  unfolding failing_from
  Fails-failing_from n k i a [] e g f = cc
  Fails-failing_from n k zero a (x ∷ xs) e g f = rw (some-injective x a g, f) (inl (omega arith))
  Fails-failing_from n k (suc i) a (x ∷ xs) e g f =
      let there : Elem n (failing_from test (suc k) xs) =
        Fails-failing_from n (suc k) i a xs (omega arith) g f in
      elim (Bool-cases (test x)) [ inl pass ↦ rw pass there | inr fail ↦ rw fail (inr there) ]

  pub failing_from-IsAscending :
      (k m : ℕ) (xs : List A) → m < k → IsAscending m (failing_from test k xs)
  unfolding failing_from
  failing_from-IsAscending k m [] h = tt
  failing_from-IsAscending k m (x ∷ xs) h = elim (Bool-cases (test x)) [
    | inl pass ↦ rw pass (failing_from-IsAscending (suc k) m xs (omega arith))
    | inr fail ↦ rw fail (h, failing_from-IsAscending (suc k) k xs (omega arith))
  ]

  pub passes_of_nil :
      (k i : ℕ) (a : A) (xs : List A)
      → failing_from test k xs ≡ []
      → get_elem? xs i ≡ some a
      → test a ≡ true
  passes_of_nil k i a xs e g = elim (Bool-cases (test a)) [
    | inl pass ↦ pass
    | inr fail ↦ absurd (rw e at (Fails-failing_from (k + i) k i a xs refl g fail))
  ]

-- A page counts as A4 portrait exactly if its rotation is absent or a right angle from 0 to 270 and what is displayed is within 2mm of 297mm by 210mm.
pub is_page_a4_portrait-displayed :
    (h w : ℤ) (r : Option ℤ) → (is_page_a4_portrait h w r ≡ true) ↔ IsA4Portrait (displayed r h w)
unfolding is_page_a4_portrait
is_page_a4_portrait-displayed h w none =
    rw
      (
        isclose-within h a4_height (omega arith),
        isclose-within w a4_width (omega arith),
        isclose-within w a4_height (omega arith),
        isclose-within h a4_width (omega arith),
      )
      (portrait_iff true false h w (λ a b. cc))
is_page_a4_portrait-displayed h w (some r) =
    rw
      (
        isclose-within h a4_height (omega arith),
        isclose-within w a4_width (omega arith),
        isclose-within w a4_height (omega arith),
        isclose-within h a4_width (omega arith),
      )
      (portrait_iff (eq_ℤ r (pos 0) || eq_ℤ r (pos 180)) (eq_ℤ r (pos 90) || eq_ℤ r (pos 270)) h w
        (λ a b. ground arith))
