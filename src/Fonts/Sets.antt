-- ===== src/Fonts/Sets.antt =====
-- The sets of `walk` of app/embedded_fonts.py, and what it puts into them.
use text.Mathlib.TextEquality.{eq_iff}
use notifications_template_p.Prelude.{
  ◌≡◌, refl, sym, ◌∙◌, ||-cases, ap, ◌⊎◌, inl, inr, ◌↔◌, Bool, true, false, String, List, [], ◌∷◌,
  some, ◌||◌, arith, Bool-cases, Option-cases,
}
use notifications_template_p.Python.Errors.{ok, ◌>>=◌, >>=-ok}
use notifications_template_p.Python.Stream.{Bytes}
use notifications_template_p.External.{
  Libraries, Scalar, name, atom, PdfObject, scalar, dictionary, array, indirect_object, Entries,
}
use notifications_template_p.Fonts.{
  FontSets, eq_scalar, contains, add, difference, get_entry, has_entry, resolve, add_object,
  add_entry, look_for_type3, note_fonts,
}

eq_scalar_iff : (a b : Scalar) → (eq_scalar a b ≡ true) ↔ (a ≡ b)
eq_scalar_iff (name a) (name b) = (λ h. ap name ((eq_iff a b).0 h), λ h. (eq_iff a b).1 (cc h))
eq_scalar_iff (atom a) (atom b) = (λ h. ap atom ((eq_iff a b).0 h), λ h. (eq_iff a b).1 (cc h))
eq_scalar_iff (name a) (atom b) = (λ h. cc h, λ h. cc h)
eq_scalar_iff (atom a) (name b) = (λ h. cc h, λ h. cc h)

contains-add :
    (a b : Scalar) (xs : List Scalar)
    → (contains (add b xs) a ≡ true) ↔ ((contains xs a ≡ true) ⊎ (b ≡ a))
contains-add a b xs =
    let spec = eq_scalar_iff a b in
    let same : b ≡ a → contains xs b ≡ contains xs a = λ e. ap (contains xs) e in
    elim (Bool-cases (contains xs b)) [
      | inl present ↦ rw present (λ h. inl h, elim [ inl h ↦ h | inr e ↦ sym (same e) ∙ present ])
      | inr absent ↦ rw absent (
        λ h. elim (||-cases (eq_scalar a b) (contains xs a) h) [
          | inl e ↦ inr (sym (spec.0 e))
          | inr e ↦ inl e
        ],
        elim [ inl h ↦ ground arith | inr e ↦ ap (λ t. t || contains xs a) (spec.1 (sym e)) ],
      )
    ]

pub contains-difference :
    (a : Scalar) (xs ys : List Scalar)
    → (contains (difference xs ys) a ≡ true) ↔ ((contains xs a ≡ true) × (contains ys a ≡ false))
unfolding difference
contains-difference a [] ys = ground arith
contains-difference a (x ∷ xs) ys =
    let ih = contains-difference a xs ys in
    elim (Bool-cases (eq_scalar a x)) [
      | inl e ↦
          let same : contains ys a ≡ contains ys x = ap (contains ys) ((eq_scalar_iff a x).0 e) in
          ground arith
      | inr e ↦ ground arith
    ]

-- The value of a dictionary under a key, if it can be put in a set.
abbrev pub HasScalar : (lib : Libraries) → Bytes → String → Scalar → Entries → Type 0
HasScalar lib doc key a es =
    (v : PdfObject) × (get_entry key es ≡ some v) × (resolve lib doc v ≡ ok (scalar a))

add_object-contains :
    (o : PdfObject) (xs ys : List Scalar) (a : Scalar)
    → add_object o xs ≡ ok ys
    → (contains ys a ≡ true) ↔ ((contains xs a ≡ true) ⊎ (o ≡ scalar a))
unfolding add_object
add_object-contains (scalar b) xs ys a h =
    let same : add b xs ≡ ys = cc h in
    let spec = contains-add a b xs in
    rw (sym same) (
      λ c. elim (spec.0 c) [ inl x ↦ inl x | inr e ↦ inr (ap scalar e) ],
      λ c. spec.1 (elim c [ inl x ↦ inl x | inr e ↦ inr (cc e) ]),
    )
add_object-contains (dictionary es) xs ys a h = cc
add_object-contains (array os) xs ys a h = cc
add_object-contains (indirect_object n) xs ys a h = cc

-- The condition of `walk` on a font that is embedded.
abbrev pub has_font_file : Entries → Bool
has_font_file es =
    has_entry "/FontFile" es || has_entry "/FontFile2" es || has_entry "/FontFile3" es

module _ (lib : Libraries) (doc : Bytes) where
  add_entry-there :
      (key : String) (es : Entries) (v : PdfObject) (xs : List Scalar)
      → get_entry key es ≡ some v
      → add_entry lib doc key true es xs ≡ (do o ← resolve lib doc v; add_object o xs)
  unfolding add_entry
  add_entry-there key es v xs found = rw (found, add_entry)

  add_entry-skipped :
      (key : String) (es : Entries) (xs : List Scalar) → add_entry lib doc key false es xs ≡ ok xs
  unfolding add_entry
  add_entry-skipped key es xs = elim (Option-cases (get_entry key es)) [
    | inl missing ↦ rw (missing, add_entry)
    | inr (v, found) ↦ rw (found, add_entry)
  ]

  add_entry-contains :
      (key : String) (extra : Bool) (es : Entries) (xs ys : List Scalar) (a : Scalar)
      → add_entry lib doc key extra es xs ≡ ok ys
      → (contains ys a ≡ true)
        ↔ ((contains xs a ≡ true) ⊎ ((extra ≡ true) × HasScalar lib doc key a es))
  unfolding add_entry
  add_entry-contains key false es xs ys a h =
      let same : xs ≡ ys = cc (h, add_entry-skipped key es xs) in
      rw same (λ c. inl c, elim [ inl c ↦ c | inr (e, x) ↦ cc e ])
  add_entry-contains key true es xs ys a h = elim (Option-cases (get_entry key es)) [
    | inl missing ↦
        (λ c. inl (ground arith), elim [ inl c ↦ ground arith | inr (_, (v, g, r)) ↦ cc ])
    | inr (v, found) ↦
        let (o, e, put) =
          >>=-ok (resolve lib doc v) _ (sym (add_entry-there key es v xs found) ∙ h) in
        let spec = add_object-contains o xs ys a put in
        (
          λ c. elim (spec.0 c) [
            | inl x ↦ inl x
            | inr r ↦ inr (refl, (v, found, e ∙ ap (λ x. ok x) r))
          ],
          elim [
            | inl c ↦ spec.1 (inl c)
            | inr (_, (w, g, r)) ↦
                let same : w ≡ v = cc (found, g) in
                let read : ok o ≡ ok (scalar a) = sym e ∙ (ap (resolve lib doc) (sym same) ∙ r) in
                spec.1 (inr (cc read))
          ],
        )
  ]

  pub note_fonts-used :
      (a : Scalar) (es : Entries) (s s' : FontSets)
      → note_fonts lib doc es s ≡ ok s'
      → (contains s'.used a ≡ true)
        ↔ ((contains s.used a ≡ true) ⊎ HasScalar lib doc "/BaseFont" a es)
  unfolding note_fonts
  note_fonts-used a es s s' h =
      let (used, first, rest) = >>=-ok (add_entry lib doc "/BaseFont" true es s.used) _ h in
      let (embedded, second, left) =
        >>=-ok (add_entry lib doc "/FontName" (has_font_file es) es s.embedded) _ rest in
      let (_, _, built) = >>=-ok (look_for_type3 lib doc es) _ left in
      let spec = add_entry-contains "/BaseFont" true es s.used used a first in
      let same : s'.used ≡ used = cc built in
      rw same (
        λ c. elim (spec.0 c) [ inl x ↦ inl x | inr (_, x) ↦ inr x ],
        λ c. spec.1 (elim c [ inl x ↦ inl x | inr x ↦ inr (refl, x) ]),
      )

  pub note_fonts-embedded :
      (a : Scalar) (es : Entries) (s s' : FontSets)
      → note_fonts lib doc es s ≡ ok s'
      → (contains s'.embedded a ≡ true) ↔ (
          (contains s.embedded a ≡ true)
          ⊎ ((has_font_file es ≡ true) × HasScalar lib doc "/FontName" a es))
  unfolding note_fonts
  note_fonts-embedded a es s s' h =
      let (used, first, rest) = >>=-ok (add_entry lib doc "/BaseFont" true es s.used) _ h in
      let (embedded, second, left) =
        >>=-ok (add_entry lib doc "/FontName" (has_font_file es) es s.embedded) _ rest in
      let (_, _, built) = >>=-ok (look_for_type3 lib doc es) _ left in
      let same : s'.embedded ≡ embedded = cc built in
      rw same (add_entry-contains "/FontName" (has_font_file es) es s.embedded embedded a second)
