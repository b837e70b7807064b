-- ===== src/Fonts/Found.antt =====
-- Which fonts `contains_unembedded_fonts` of app/embedded_fonts.py gives back.
use notifications_template_p.Prelude.{
  ◌≡◌, ◌⊎◌, inl, inr, ◌↔◌, Bool, true, List, [], ◌∷◌, arith, Bool-cases, subst,
}
use notifications_template_p.Python.Errors.{ok, >>=-ok, Result-cases}
use notifications_template_p.Python.Stream.{Bytes, BytesIo}
use notifications_template_p.External.{Libraries, Scalar, PdfObject, Entries}
use notifications_template_p.Precompiled.Overlay.{pdf_reader}
use notifications_template_p.Fonts.{
  FontSets, contains, difference, note_fonts, walk, walk_pages, contains_unembedded_fonts,
}
use notifications_template_p.Fonts.Reach.{Reaches, walk-Marks}
use notifications_template_p.Fonts.Sets.{
  HasScalar, has_font_file, note_fonts-used, note_fonts-embedded, contains-difference,
}

-- One of the pages has resources from which a dictionary with a property can be reached.
abbrev pub SomePage : (lib : Libraries) → Bytes → List lib.Page → (Entries → Type 0) → Type 0
SomePage lib doc [] P = ⊥
SomePage lib doc (p ∷ ps) P =
    ((o : PdfObject) × (lib.resources p ≡ ok o) × (ds : Entries) × Reaches lib doc o ds × P ds)
    ⊎ SomePage lib doc ps P

module _ (lib : Libraries) where
  -- A set that each dictionary marks is marked by the pages exactly if one of them reaches such a
  -- dictionary.
  walk_pages-marks :
      (doc : Bytes) (c : FontSets → Bool) (P : Entries → Type 0)
      → ((es : Entries) (s s' : FontSets)
          → note_fonts lib doc es s ≡ ok s'
          → (c s' ≡ true) ↔ ((c s ≡ true) ⊎ P es))
      → (ps : List lib.Page) (s s' : FontSets) → walk_pages lib doc ps s ≡ ok s'
      → (c s' ≡ true) ↔ ((c s ≡ true) ⊎ SomePage lib doc ps P)
  unfolding walk_pages
  walk_pages-marks doc c P noted [] s s' h =
      (λ m. inl (ground arith), elim [ inl m ↦ ground arith | inr x ↦ absurd x ])
  walk_pages-marks doc c P noted (p ∷ ps) s s' h =
      let (o, e, rest) = >>=-ok (lib.resources p) _ h in
      let (t, first, more) = >>=-ok (walk lib lib.stack_depth doc o s) _ rest in
      let one = walk-Marks lib doc c P noted lib.stack_depth o s t first in
      let others = walk_pages-marks doc c P noted ps t s' more in
      (
        λ m. elim (others.0 m) [
          | inr x ↦ inr (inr x)
          | inl m' ↦ elim (one.0 m') [
            | inl m'' ↦ inl m''
            | inr (ds, r, q) ↦ inr (inl (o, e, ds, r, q))
          ]
        ],
        elim [
          | inl m ↦ others.1 (inl (one.1 (inl m)))
          | inr (inr x) ↦ others.1 (inr x)
          | inr (inl (o', e', ds, r, q)) ↦
              let same : o' ≡ o = cc (e, e') in
              others.1 (inl (one.1 (inr (ds, subst (λ z. Reaches lib doc z ds) same r, q))))
        ],
      )

  -- If the search ends without an exception, a name is given back exactly if some dictionary that a page reaches has it as `/BaseFont`, and none that a page reaches has it as `/FontName` beside a font file.
  pub contains_unembedded_fonts_iff :
      (f g : BytesIo) (u : List Scalar) (pages : List lib.Page) (a : Scalar)
      → lib.parse f.contents ≡ ok pages
      → contains_unembedded_fonts lib f ≡ ok (u, g)
      → (contains u a ≡ true) ↔ (
          SomePage lib f.contents pages (HasScalar lib f.contents "/BaseFont" a)
          × (¬ SomePage lib f.contents pages
              (λ es. (has_font_file es ≡ true) × HasScalar lib f.contents "/FontName" a es)))
  unfolding contains_unembedded_fonts pdf_reader
  contains_unembedded_fonts_iff f g u pages a p h =
      let none_yet : FontSets = record { used = []; embedded = [] } in
      let doc : Bytes = f.contents in
      elim (Result-cases (walk_pages lib doc pages none_yet)) [
        | inr (e, r) ↦ absurd (ground arith)
        | inl (s, r) ↦
            let shape : u ≡ difference s.used s.embedded = ground arith in
            let used =
              walk_pages-marks doc (λ t. contains t.used a) (HasScalar lib doc "/BaseFont" a)
                (note_fonts-used lib doc a) pages none_yet s r in
            let embedded =
              walk_pages-marks doc (λ t. contains t.embedded a)
                (λ es. (has_font_file es ≡ true) × HasScalar lib doc "/FontName" a es)
                (note_fonts-embedded lib doc a) pages none_yet s r in
            let left = contains-difference a s.used s.embedded in
            rw shape (
              λ m.
                  let (in_used, not_embedded) = left.0 m in
                  (
                    elim (used.0 in_used) [ inl q ↦ cc q | inr x ↦ x ],
                    λ x. cc (embedded.1 (inr x), not_embedded),
                  ),
              λ (x, apart). left.1 (
                used.1 (inr x),
                elim (Bool-cases (contains s.embedded a)) [
                  | inr absent ↦ absent
                  | inl m ↦ elim (embedded.0 m) [ inl q ↦ cc q | inr y ↦ absurd (apart y) ]
                ],
              ),
            )
      ]
