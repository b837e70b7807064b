-- ===== src/Fonts/Reach.antt =====
-- What `walk` of app/embedded_fonts.py collects: the fonts of all dictionaries that can be reached.
use notifications_template_p.Prelude.{
  ℕ, zero, suc, ◌≡◌, refl, sym, subst, ◌⊎◌, inl, inr, ◌↔◌, Bool, true, arith,
}
use notifications_template_p.Python.Errors.{Result, ok, ◌>>=◌, >>=-ok}
use notifications_template_p.Python.Stream.{Bytes}
use notifications_template_p.External.{
  Libraries, Scalar, PdfObject, scalar, dictionary, array, indirect_object, Entries, no_entries,
  entry, Items, no_items, item,
}
use notifications_template_p.Fonts.{FontSets, walk_entries, walk_items, resolve, note_fonts, walk}

abbrev pub HasValue : PdfObject → Entries → Type 0
HasValue o no_entries = ⊥
HasValue o (entry k v es) = (o ≡ v) ⊎ HasValue o es

abbrev pub HasItem : PdfObject → Items → Type 0
HasItem o no_items = ⊥
HasItem o (item v os) = (o ≡ v) ⊎ HasItem o os

-- A dictionary that can be reached from an object of a document, through values, lists and
-- references.
pub data Reaches (lib : Libraries) (doc : Bytes) : PdfObject → Entries → Type 0 where
  here : (es : Entries) → Reaches lib doc (dictionary es) es
  under_key :
      (v o : PdfObject) (es : Entries) {ds : Entries}
      → HasValue v es
      → resolve lib doc v ≡ ok o
      → Reaches lib doc o ds
      → Reaches lib doc (dictionary es) ds
  in_list :
      (o : PdfObject) (os : Items) {ds : Entries}
      → HasItem o os
      → Reaches lib doc o ds
      → Reaches lib doc (array os) ds
  behind :
      (n : ℕ) (o : PdfObject) {ds : Entries}
      → lib.get_object doc n ≡ ok o
      → Reaches lib doc o ds
      → Reaches lib doc (indirect_object n) ds

module _ {lib : Libraries} {doc : Bytes} where
  from_scalar : {a : Scalar} {ds : Entries} → Reaches lib doc (scalar a) ds → ⊥
  from_scalar r = elim r [ ]

  from_reference :
      {n : ℕ} {ds : Entries}
      → Reaches lib doc (indirect_object n) ds
      → (o : PdfObject) × (lib.get_object doc n ≡ ok o) × Reaches lib doc o ds
  from_reference (behind n o e r) = (o, e, r)

  from_array :
      {os : Items} {ds : Entries}
      → Reaches lib doc (array os) ds
      → (o : PdfObject) × HasItem o os × Reaches lib doc o ds
  from_array (in_list o os x r) = (o, x, r)

  from_dictionary :
      {es ds : Entries}
      → Reaches lib doc (dictionary es) ds
      → (es ≡ ds)
        ⊎ ((v : PdfObject) × HasValue v es
            × (o : PdfObject) × (resolve lib doc v ≡ ok o)
            × Reaches lib doc o ds)
  from_dictionary (here es) = inl refl
  from_dictionary (under_key v o es x e r) = inr (v, x, o, e, r)

-- A call that is handed to a loop marks a state exactly if it was marked or the object marks it.
abbrev Marks :
    (FontSets → Bool) → (PdfObject → Type 0) → (PdfObject → FontSets → Result FontSets) → Type 0
Marks c Found call =
    (o : PdfObject) (s s' : FontSets) → call o s ≡ ok s' → (c s' ≡ true) ↔ ((c s ≡ true) ⊎ Found o)

module _ (c : FontSets → Bool) (Found : PdfObject → Type 0)
    (call : PdfObject → FontSets → Result FontSets) (marks : Marks c Found call) where
  walk_entries-marks :
      (es : Entries) (s s' : FontSets)
      → walk_entries call es s ≡ ok s'
      → (c s' ≡ true) ↔ ((c s ≡ true) ⊎ ((o : PdfObject) × HasValue o es × Found o))
  unfolding walk_entries
  walk_entries-marks no_entries s s' h =
      (λ m. inl (ground arith), elim [ inl m ↦ ground arith | inr (o, x, f) ↦ absurd x ])
  walk_entries-marks (entry k v es) s s' h =
      let (t, first, rest) = >>=-ok (call v s) _ h in
      let one = marks v s t first in
      let more = walk_entries-marks es t s' rest in
      (
        (λ m. elim (more.0 m) [
          | inr (o, x, f) ↦ inr (o, inr x, f)
          | inl m' ↦ elim (one.0 m') [ inl m'' ↦ inl m'' | inr f ↦ inr (v, inl refl, f) ]
        ]),
        elim [
          | inl m ↦ more.1 (inl (one.1 (inl m)))
          | inr (o, inl e, f) ↦ more.1 (inl (one.1 (inr (subst Found e f))))
          | inr (o, inr x, f) ↦ more.1 (inr (o, x, f))
        ],
      )

  walk_items-marks :
      (os : Items) (s s' : FontSets)
      → walk_items call os s ≡ ok s'
      → (c s' ≡ true) ↔ ((c s ≡ true) ⊎ ((o : PdfObject) × HasItem o os × Found o))
  unfolding walk_items
  walk_items-marks no_items s s' h =
      (λ m. inl (ground arith), elim [ inl m ↦ ground arith | inr (o, x, f) ↦ absurd x ])
  walk_items-marks (item v os) s s' h =
      let (t, first, rest) = >>=-ok (call v s) _ h in
      let one = marks v s t first in
      let more = walk_items-marks os t s' rest in
      (
        (λ m. elim (more.0 m) [
          | inr (o, x, f) ↦ inr (o, inr x, f)
          | inl m' ↦ elim (one.0 m') [ inl m'' ↦ inl m'' | inr f ↦ inr (v, inl refl, f) ]
        ]),
        elim [
          | inl m ↦ more.1 (inl (one.1 (inl m)))
          | inr (o, inl e, f) ↦ more.1 (inl (one.1 (inr (subst Found e f))))
          | inr (o, inr x, f) ↦ more.1 (inr (o, x, f))
        ],
      )

-- A call behind a read marks what is read.
read-Marks :
    (c : FontSets → Bool) (Found : PdfObject → Type 0)
    (call : PdfObject → FontSets → Result FontSets) (m : Result PdfObject)
    → Marks c Found call
    → (s s' : FontSets) → (do o ← m; call o s) ≡ ok s'
    → (c s' ≡ true) ↔ ((c s ≡ true) ⊎ ((o : PdfObject) × (m ≡ ok o) × Found o))
read-Marks c Found call m marks s s' h =
    let (o, e, called) = >>=-ok m _ h in
    let own = marks o s s' called in
    (
      λ x. elim (own.0 x) [ inl y ↦ inl y | inr f ↦ inr (o, e, f) ],
      elim [
        | inl y ↦ own.1 (inl y)
        | inr (o', e', f) ↦ let same : o' ≡ o = cc (e, e') in own.1 (inr (subst Found same f))
      ],
    )

module _ (lib : Libraries) (doc : Bytes) (c : FontSets → Bool) (P : Entries → Type 0)
    (noted : (es : Entries) (s s' : FontSets)
      → note_fonts lib doc es s ≡ ok s'
      → (c s' ≡ true) ↔ ((c s ≡ true) ⊎ P es)) where
  abbrev pub Found : PdfObject → Type 0
  Found o = (ds : Entries) × Reaches lib doc o ds × P ds

  pub walk-Marks : (n : ℕ) → Marks c Found (walk lib n doc)
  unfolding walk
  walk-Marks zero o s s' h = cc
  walk-Marks (suc n) (scalar a) s s' h = (
    λ m. inl (ground arith),
    elim [ inl m ↦ ground arith | inr (ds, r, p) ↦ absurd (from_scalar r) ],
  )
  walk-Marks (suc n) (indirect_object k) s s' h =
      let ih = read-Marks c Found (walk lib n doc) (lib.get_object doc k) (walk-Marks n) s s' h in
      (
        λ m. elim (ih.0 m) [
          | inl m' ↦ inl m'
          | inr (o, e, (ds, r, p)) ↦ inr (ds, behind k o e r, p)
        ],
        elim [
          | inl m ↦ ih.1 (inl m)
          | inr (ds, r, p) ↦ let (o, e, q) = from_reference r in ih.1 (inr (o, e, (ds, q, p)))
        ],
      )
  walk-Marks (suc n) (array os) s s' h =
      let loop = walk_items-marks c Found (walk lib n doc) (walk-Marks n) os s s' h in
      (
        λ m. elim (loop.0 m) [
          | inl m' ↦ inl m'
          | inr (o, x, (ds, r, p)) ↦ inr (ds, in_list o os x r, p)
        ],
        elim [
          | inl m ↦ loop.1 (inl m)
          | inr (ds, r, p) ↦ let (o, x, q) = from_array r in loop.1 (inr (o, x, (ds, q, p)))
        ],
      )
  walk-Marks (suc n) (dictionary es) s s' h =
      let (t, first, rest) = >>=-ok (note_fonts lib doc es s) _ h in
      let own = noted es s t first in
      let loop =
        walk_entries-marks c (λ v. (o : PdfObject) × (resolve lib doc v ≡ ok o) × Found o)
          (λ v u. do o ← resolve lib doc v; walk lib n doc o u)
          (λ v. read-Marks c Found (walk lib n doc) (resolve lib doc v) (walk-Marks n)) es t s'
          rest in
      (
        λ m. elim (loop.0 m) [
          | inr (v, x, (o, e, (ds, r, p))) ↦ inr (ds, under_key v o es x e r, p)
          | inl m' ↦ elim (own.0 m') [ inl m'' ↦ inl m'' | inr p ↦ inr (es, here es, p) ]
        ],
        elim [
          | inl m ↦ loop.1 (inl (own.1 (inl m)))
          | inr (ds, r, p) ↦ elim (from_dictionary r) [
            | inl e ↦ loop.1 (inl (own.1 (inr (subst P (sym e) p))))
            | inr (v, x, o, e, q) ↦ loop.1 (inr (v, x, (o, e, (ds, q, p))))
          ]
        ],
      )
