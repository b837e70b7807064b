-- ===== src/Fonts/Ends.antt =====
-- The search for fonts ends in time for documents that are not too deep.
use notifications_template_p.Prelude.{
  ℕ, zero, suc, ◌≡◌, refl, ◌⊎◌, inl, inr, Bool, true, String, List, [], ◌∷◌, All, arith,
  Option-cases, Bool-cases,
}
use notifications_template_p.Python.Errors.{Exn, Result, ok, raised, ◌>>=◌, Result-cases}
use notifications_template_p.Python.Stream.{Bytes, BytesIo, rewind}
use notifications_template_p.External.{
  Libraries, Scalar, name, atom, PdfObject, scalar, dictionary, array, indirect_object, Entries,
  no_entries, entry, Items, no_items, item,
}
use notifications_template_p.Precompiled.Overlay.{pdf_reader}
use notifications_template_p.Fonts.{
  FontSets, add, walk_entries, walk_items, walk_pages, resolve, add_object, check_container,
  look_for_type3, add_entry, note_fonts, walk, get_entry, contains_unembedded_fonts, difference,
}
use notifications_template_p.Fonts.Reach.{HasValue, HasItem}

-- A chain of values, list items and references, of a length, that starts at an object.
pub data Chain (lib : Libraries) (doc : Bytes) : ℕ → PdfObject → Type 0 where
  stop : (o : PdfObject) → Chain lib doc zero o
  to_value :
      (n : ℕ) (v o : PdfObject) (es : Entries)
      → HasValue v es
      → resolve lib doc v ≡ ok o
      → Chain lib doc n o
      → Chain lib doc (suc n) (dictionary es)
  to_item :
      (n : ℕ) (o : PdfObject) (os : Items)
      → HasItem o os
      → Chain lib doc n o
      → Chain lib doc (suc n) (array os)
  to_object :
      (n k : ℕ) (o : PdfObject)
      → lib.get_object doc k ≡ ok o
      → Chain lib doc n o
      → Chain lib doc (suc n) (indirect_object k)

-- Why the search stops: what it asks for is no text, or an object of the document cannot be read.
abbrev pub StopsFor : (lib : Libraries) → Bytes → Exn → Type 0
StopsFor lib doc e = (e ≡ Exn.type_error) ⊎ ((n : ℕ) × (lib.get_object doc n ≡ raised e))

-- A value is returned, or the search stops for one of the two reasons.
abbrev pub Ends {ℓ} : (lib : Libraries) → Bytes → {A : Type ℓ} → Result A → Type ℓ
Ends lib doc {A = A} r = ((a : A) × (r ≡ ok a)) ⊎ ((e : Exn) × (r ≡ raised e) × StopsFor lib doc e)

module _ (lib : Libraries) (doc : Bytes) where
  open lib use {Page, get_object, resources, stack_depth}

  Ends->>= :
      {A B : Type 0} (m : Result A) (f : A → Result B)
      → Ends lib doc m
      → ((a : A) → m ≡ ok a → Ends lib doc (f a))
      → Ends lib doc (m >>= f)
  Ends->>= (ok a) f h k = k a refl
  Ends->>= (raised e) f (inl (a, same)) k = absurd cc
  Ends->>= (raised e) f (inr (e', same, why)) k = inr (e', ground arith, why)

  walk_entries-Ends :
      (call : PdfObject → FontSets → Result FontSets) (es : Entries)
      → ((o : PdfObject) → HasValue o es → (s : FontSets) → Ends lib doc (call o s))
      → (s : FontSets) → Ends lib doc (walk_entries call es s)
  unfolding walk_entries
  walk_entries-Ends call no_entries h s = inl (s, refl)
  walk_entries-Ends call (entry k v es) h s =
      Ends->>= (call v s) (λ t. walk_entries call es t) (h v (inl refl) s)
        (λ t _. walk_entries-Ends call es (λ o x. h o (inr x)) t)

  walk_items-Ends :
      (call : PdfObject → FontSets → Result FontSets) (os : Items)
      → ((o : PdfObject) → HasItem o os → (s : FontSets) → Ends lib doc (call o s))
      → (s : FontSets) → Ends lib doc (walk_items call os s)
  unfolding walk_items
  walk_items-Ends call no_items h s = inl (s, refl)
  walk_items-Ends call (item v os) h s =
      Ends->>= (call v s) (λ t. walk_items call os t) (h v (inl refl) s)
        (λ t _. walk_items-Ends call os (λ o x. h o (inr x)) t)

  get_object-Ends : (n : ℕ) → Ends lib doc (get_object doc n)
  get_object-Ends n = elim (Result-cases (get_object doc n)) [
    | inl (o, e) ↦ inl (o, e)
    | inr (e, r) ↦ inr (e, r, inr (n, r))
  ]

  resolve-Ends : (v : PdfObject) → Ends lib doc (resolve lib doc v)
  unfolding resolve
  resolve-Ends (scalar a) = inl (scalar a, refl)
  resolve-Ends (dictionary es) = inl (dictionary es, refl)
  resolve-Ends (array os) = inl (array os, refl)
  resolve-Ends (indirect_object n) = get_object-Ends n

  type_error-Ends : {A : Type 0} → Ends lib doc {A = A} (raised Exn.type_error)
  type_error-Ends = inr (Exn.type_error, refl, inl refl)

  add_object-Ends : (o : PdfObject) (xs : List Scalar) → Ends lib doc (add_object o xs)
  unfolding add_object
  add_object-Ends (scalar a) xs = inl (add a xs, refl)
  add_object-Ends (dictionary es) xs = type_error-Ends
  add_object-Ends (array os) xs = type_error-Ends
  add_object-Ends (indirect_object n) xs = type_error-Ends

  check_container-Ends : (o : PdfObject) → Ends lib doc (check_container o)
  unfolding check_container
  check_container-Ends (scalar (name a)) = inl (tt, refl)
  check_container-Ends (scalar (atom a)) = type_error-Ends
  check_container-Ends (dictionary es) = inl (tt, refl)
  check_container-Ends (array os) = inl (tt, refl)
  check_container-Ends (indirect_object n) = inl (tt, refl)

  add_entry-Ends :
      (key : String) (extra : Bool) (es : Entries) (xs : List Scalar)
      → Ends lib doc (add_entry lib doc key extra es xs)
  unfolding add_entry
  add_entry-Ends key extra es xs = elim (Option-cases (get_entry key es)) [
    | inl absent ↦ rw (absent, add_entry) (inl (xs, refl))
    | inr (v, there) ↦ elim (Bool-cases extra) [
      | inr off ↦ rw (there, off, add_entry) (inl (xs, refl))
      | inl on ↦
          rw (there, on, add_entry)
            (Ends->>= (resolve lib doc v) (λ o. add_object o xs) (resolve-Ends v)
              (λ o _. add_object-Ends o xs))
    ]
  ]

  look_for_type3-Ends : (es : Entries) → Ends lib doc (look_for_type3 lib doc es)
  unfolding look_for_type3
  look_for_type3-Ends es = elim (Option-cases (get_entry "/Subtype" es)) [
    | inl absent ↦ rw (absent, look_for_type3) (inl (tt, refl))
    | inr (v, there) ↦
        rw (there, look_for_type3)
          (Ends->>= (resolve lib doc v) check_container (resolve-Ends v)
            (λ o _. check_container-Ends o))
  ]

  note_fonts-Ends : (es : Entries) (s : FontSets) → Ends lib doc (note_fonts lib doc es s)
  unfolding note_fonts
  note_fonts-Ends es s =
      Ends->>= (add_entry lib doc "/BaseFont" true es s.used) _
        (add_entry-Ends "/BaseFont" true es s.used)
        (λ used _. Ends->>= _ _ (add_entry-Ends "/FontName" _ es s.embedded) (λ embedded _.
          Ends->>= (look_for_type3 lib doc es) _ (look_for_type3-Ends es) (λ _ _. inl (_, refl))))

  walk-Ends :
      (depth : ℕ) (o : PdfObject) (s : FontSets)
      → ¬ Chain lib doc depth o
      → Ends lib doc (walk lib depth doc o s)
  unfolding walk
  walk-Ends zero o s h = absurd (h (stop o))
  walk-Ends (suc depth) (dictionary es) s h =
      Ends->>= (note_fonts lib doc es s) _ (note_fonts-Ends es s) (λ noted _.
        walk_entries-Ends (λ v t. do o ← resolve lib doc v; walk lib depth doc o t) es
          (λ v x t.
            Ends->>= (resolve lib doc v) (λ o. walk lib depth doc o t) (resolve-Ends v)
              (λ o e. walk-Ends depth o t (λ c. h (to_value depth v o es x e c))))
          noted)
  walk-Ends (suc depth) (array os) s h =
      walk_items-Ends (walk lib depth doc) os
        (λ o x t. walk-Ends depth o t (λ c. h (to_item depth o os x c))) s
  walk-Ends (suc depth) (indirect_object k) s h =
      Ends->>= (get_object doc k) (λ o. walk lib depth doc o s) (get_object-Ends k)
        (λ o e. walk-Ends depth o s (λ c. h (to_object depth k o e c)))
  walk-Ends (suc depth) (scalar a) s h = inl (s, refl)

  -- The resources of a page can be read, and no chain from them is as long as the stack is deep.
  abbrev pub IsShallow : Page → Type 0
  IsShallow p = (o : PdfObject) × (resources p ≡ ok o) × (¬ Chain lib doc stack_depth o)

  walk_pages-Ends :
      (ps : List Page) → All IsShallow ps → (s : FontSets) → Ends lib doc (walk_pages lib doc ps s)
  unfolding walk_pages
  walk_pages-Ends [] h s = inl (s, refl)
  walk_pages-Ends (p ∷ ps) ((o, there, shallow), h) s = rw (there) (
      Ends->>= (walk lib stack_depth doc o s) _ (walk-Ends stack_depth o s shallow)
        (λ t _. walk_pages-Ends ps h t))

-- The search for fonts never runs out of the stack, for a PDF that can be read, with the resources
-- of its pages, if no chain of values, list items and references from the resources of a page is as
-- long as the stack is deep: it returns, or raises a TypeError, for a font's name that cannot be put
-- in a set or a subtype that nothing can be looked for in, or what reading an object raises.
pub contains_unembedded_fonts-Ends :
    (lib : Libraries) (file f : BytesIo) (pages : List lib.Page)
    → pdf_reader lib file ≡ ok (pages, f)
    → All (IsShallow lib f.contents) pages
    → Ends lib f.contents (contains_unembedded_fonts lib file)
unfolding contains_unembedded_fonts
contains_unembedded_fonts-Ends lib file f pages readable shallow = rw (readable) (
    Ends->>= lib f.contents (walk_pages lib f.contents pages (record { used = []; embedded = [] }))
      _ (walk_pages-Ends lib f.contents pages shallow (record { used = []; embedded = [] }))
      (λ sets _. inl ((difference sets.used sets.embedded, rewind f), refl)))
