-- ===== src/Examples/Fonts.antt =====
-- The search for fonts on a page with a font that is not embedded.
use notifications_template_p.Prelude.{
  ℕ, suc, inl, inr, sym, ap, ◌∙◌, subst, ◌≡◌, refl, ◌↔◌, true, [], ◌∷◌,
}
use notifications_template_p.Python.Errors.{ok}
use notifications_template_p.Python.Stream.{bytes_io}
use notifications_template_p.External.{
  Scalar, name, PdfObject, scalar, dictionary, Entries, entry, no_entries,
}
use notifications_template_p.Precompiled.Overlay.{pdf_reader}
use notifications_template_p.Fonts.{
  contains, difference, get_entry, has_entry, resolve, add_object, look_for_type3, add_entry,
  note_fonts, walk, walk_entries, walk_pages, contains_unembedded_fonts,
}
use notifications_template_p.Fonts.Sets.{HasScalar, has_font_file}
use notifications_template_p.Fonts.Found.{SomePage, contains_unembedded_fonts_iff}
use notifications_template_p.Fonts.Reach.{HasValue}
use notifications_template_p.Fonts.Ends.{Chain, to_value, Ends, contains_unembedded_fonts-Ends}
use notifications_template_p.Examples.{toy}

abbrev arial : Scalar
arial = name "/Arial"

arial_found :
    contains_unembedded_fonts toy (bytes_io (4 ∷ 6 ∷ [])) ≡ ok (arial ∷ [], bytes_io (4 ∷ 6 ∷ []))
unfolding contains_unembedded_fonts pdf_reader walk_pages walk note_fonts look_for_type3 add_entry
    get_entry has_entry resolve add_object walk_entries difference
arial_found = refl

contains_unembedded_fonts_iff_example : (contains (arial ∷ []) arial ≡ true) ↔ (
    SomePage toy (4 ∷ 6 ∷ []) (4 ∷ 6 ∷ []) (HasScalar toy (4 ∷ 6 ∷ []) "/BaseFont" arial)
    × (¬ SomePage toy
        (4 ∷ 6 ∷ [])
        (4 ∷ 6 ∷ [])
        (λ es. (has_font_file es ≡ true) × HasScalar toy (4 ∷ 6 ∷ []) "/FontName" arial es)))
contains_unembedded_fonts_iff_example =
    contains_unembedded_fonts_iff toy (bytes_io (4 ∷ 6 ∷ [])) (bytes_io (4 ∷ 6 ∷ [])) (arial ∷ [])
      (4 ∷ 6 ∷ []) arial refl arial_found

scalar_ends : {n : ℕ} {a : Scalar} → Chain toy (6 ∷ []) (suc n) (scalar a) → ⊥
scalar_ends c = elim c [ ]

value_of :
    {n : ℕ} {es : Entries}
    → Chain toy (6 ∷ []) (suc n) (dictionary es)
    → (v : PdfObject) × HasValue v es
      × (o : PdfObject) × (resolve toy (6 ∷ []) v ≡ ok o)
      × Chain toy (6 ∷ []) n o
value_of (to_value n v o es x e c) = (v, x, o, e, c)

-- The resources of page 6 have one value, which is a name.
abbrev resources_of_six : Entries
resources_of_six = entry "/BaseFont" (scalar arial) no_entries

six_is_shallow : Chain toy (6 ∷ []) 10 (dictionary resources_of_six) → ⊥
unfolding resolve
six_is_shallow c =
    let (v, is_value, o, e, rest) = value_of {n = 9} c in
    elim is_value [
      | inl same ↦
          let read : ok (scalar arial) ≡ ok o = sym (ap (resolve toy (6 ∷ [])) same) ∙ e in
          let there : o ≡ scalar arial = cc read in
          scalar_ends {n = 8} (subst (λ x. Chain toy (6 ∷ []) 9 x) there rest)
      | inr none_left ↦ none_left
    ]

contains_unembedded_fonts-Ends_example :
    Ends toy (6 ∷ []) (contains_unembedded_fonts toy (bytes_io (6 ∷ [])))
unfolding pdf_reader
contains_unembedded_fonts-Ends_example =
    contains_unembedded_fonts-Ends toy (bytes_io (6 ∷ []))
      (record { contents = 6 ∷ []; position = 1 }) (6 ∷ []) refl
      ((dictionary resources_of_six, refl, six_is_shallow), tt)
