-- ===== src/Precompiled/Extraction/Inside.antt =====
-- Which words `_extract_text_from_page` of app/precompiled.py reads.
use notifications_template_p.Prelude.{
  ◌⊎◌, ◌↔◌, ◌≡◌, sym, subst, inl, inr, true, List, [], ◌∷◌, Bool-cases,
}
use notifications_template_p.External.{Libraries, Word}
use notifications_template_p.Geometry.Layout.{Rect}
use notifications_template_p.Precompiled.Extraction.{words_in}

-- A word is in a list.
abbrev pub IsIn : Word → List Word → Type 0
IsIn w [] = ⊥
IsIn w (v ∷ vs) = (w ≡ v) ⊎ IsIn w vs

-- A word's own rectangle meets another one.
abbrev pub Meets : Libraries → Rect → Word → Type 0
Meets lib rect w =
    lib.intersects (record { x1 = w.x1; y1 = w.y1; x2 = w.x2; y2 = w.y2 }) rect ≡ true

module _ (lib : Libraries) where
  pub words_in_iff :
      (rect : Rect) (ws : List Word) (w : Word)
      → IsIn w (words_in lib rect ws) ↔ (IsIn w ws × Meets lib rect w)
  unfolding words_in
  words_in_iff rect [] w = (λ h. absurd h, λ (h, _). h)
  words_in_iff rect (v ∷ vs) w =
      let ih = words_in_iff rect vs w in
      elim (Bool-cases
        (lib.intersects (record { x1 = v.x1; y1 = v.y1; x2 = v.x2; y2 = v.y2 }) rect)) [
          | inl meets ↦
              rw (meets, words_in)
                (
                  elim [
                    | inl e ↦ (inl e, subst (Meets lib rect) (sym e) meets)
                    | inr h ↦ let (there, m) = ih.0 h in (inr there, m)
                  ],
                  λ (there, m). elim there [ inl e ↦ inl e | inr h ↦ inr (ih.1 (h, m)) ],
                )
          | inr apart ↦
              rw (apart, words_in)
                (
                  λ h. let (there, m) = ih.0 h in (inr there, m),
                  λ (there, m). elim there [
                    | inl e ↦ absurd (cc (subst (Meets lib rect) e m, apart))
                    | inr h ↦ ih.1 (h, m)
                  ],
                )
        ]
