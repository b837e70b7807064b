-- ===== src/Precompiled/Validation/Messages.antt =====
-- What `get_invalid_pages_with_message` of app/precompiled.py and the checks below it report.
use notifications_template_p.Prelude.{
  ℕ, zero, suc, ◌+◌, ◌-◌, ◌≤◌, ◌≡◌, refl, sym, ◌∙◌, ◌↔◌, inl, inr, Bool, true, false, not, List, [],
  ◌∷◌, some, length, drop, get_elem?, Elem, IsAscending, arith, Bool-cases, if◌then◌else◌, ltb,
  ◌==◌,
}
use native.Mathlib.Nat.{zero-add, suc-add}
use notifications_template_p.Python.Errors.{ok}
use notifications_template_p.Python.Stream.{BytesIo, rewind}
use notifications_template_p.External.{Libraries}
use notifications_template_p.Precompiled.Overlay.{pdf_reader}
use notifications_template_p.Precompiled.Extraction.{has_notify_tag}
use notifications_template_p.Precompiled.Validation.{
  page_is_a4_portrait, failing_from, get_pages_with_invalid_orientation_or_size,
  get_pages_with_notify_tag,
}
use notifications_template_p.Precompiled.Validation.Pages.{
  displayed, IsA4Portrait, is_page_a4_portrait-displayed, failing_from-Fails, Fails-failing_from,
  failing_from-IsAscending,
}

-- What is displayed of a page is A4 portrait.
abbrev pub PageIsA4Portrait : (lib : Libraries) → lib.Page → Type 0
PageIsA4Portrait lib page =
    IsA4Portrait (displayed (lib.rotate page) (lib.height page) (lib.width page))

get_elem?-drop {ℓ} :
    {A : Type ℓ} (k i : ℕ) (xs : List A) → get_elem? (drop k xs) i ≡ get_elem? xs (k + i)
get_elem?-drop zero i xs = rw (zero-add i)
get_elem?-drop (suc k) i [] = refl
get_elem?-drop (suc k) i (x ∷ xs) = rw (suc-add k i) (get_elem?-drop k i xs)

drop-all {ℓ} : {A : Type ℓ} (k : ℕ) (xs : List A) → length xs ≡ k → drop k xs ≡ []
drop-all zero [] e = refl
drop-all zero (x ∷ xs) e = absurd (omega arith)
drop-all (suc k) [] e = refl
drop-all (suc k) (x ∷ xs) e = drop-all k xs (omega arith)

module _ (lib : Libraries) where
  open lib use {
    Page, parse, left_at, rotate, height, width, MuPage, open_document, convert_from_bytes,
  }

  not_portrait :
      (page : Page) → (page_is_a4_portrait lib page ≡ false) ↔ (¬ PageIsA4Portrait lib page)
  not_portrait page =
      let spec = is_page_a4_portrait-displayed (height page) (width page) (rotate page) in
      (
        λ e p. cc (e, spec.1 p),
        λ np. elim (Bool-cases (page_is_a4_portrait lib page)) [
          | inl e ↦ absurd (np (spec.0 e))
          | inr e ↦ e
        ],
      )

  -- For a document that can be read, the size check gives an ascending list, and a number is in it exactly if the page of that number, from 1, is not displayed as A4 portrait.
  pub invalid_sizes_iff :
      (f : BytesIo) (pages : List Page)
      → parse f.contents ≡ ok pages
      → (ns : List ℕ) × (g : BytesIo) × (get_pages_with_invalid_orientation_or_size lib f
          ≡ ok (ns, g))
        × IsAscending 0 ns
        × ((n : ℕ)
            → Elem n ns ↔ (
                (i : ℕ) × (page : Page) × (n ≡ suc i)
                × (get_elem? pages i ≡ some page)
                × (¬ PageIsA4Portrait lib page)))
  unfolding get_pages_with_invalid_orientation_or_size pdf_reader
  invalid_sizes_iff f pages e = (
    failing_from test 1 pages,
    record f { position = left_at f.contents f.position },
    rw e,
    failing_from-IsAscending test 1 0 pages (omega arith),
    λ n. (to n, from n),
  )
    where
      test : Page → Bool
      test = page_is_a4_portrait lib

      to :
          (n : ℕ)
          → Elem n (failing_from test 1 pages)
          → (i : ℕ) × (page : Page) × (n ≡ suc i)
            × (get_elem? pages i ≡ some page)
            × (¬ PageIsA4Portrait lib page)
      to n h =
          let (i, page, at, g, t) = failing_from-Fails test n 1 pages h in
          (i, page, omega arith, g, (not_portrait page).0 t)

      from :
          (n : ℕ)
          → ((i : ℕ) × (page : Page) × (n ≡ suc i)
              × (get_elem? pages i ≡ some page)
              × (¬ PageIsA4Portrait lib page))
          → Elem n (failing_from test 1 pages)
      from n (i, page, at, g, t) =
          Fails-failing_from test n 1 i page pages (omega arith) g ((not_portrait page).1 t)

  untagged : MuPage → Bool
  untagged page = not (has_notify_tag lib page)

  -- The numbers of the tagged pages from place `k` on.
  tagged_from : ℕ → List MuPage → List ℕ
  unfolding untagged
  tagged_from k doc = failing_from untagged (suc k) (drop k doc)

  tagged_from_iff :
      (n k : ℕ) (doc : List MuPage)
      → Elem n (tagged_from k doc) ↔ (
          (i : ℕ) × (page : MuPage) × (n ≡ suc i)
          × (k ≤ i)
          × (get_elem? doc i ≡ some page)
          × (has_notify_tag lib page ≡ true))
  unfolding tagged_from
  tagged_from_iff n k doc = (to, from)
    where
      to :
          Elem n (failing_from untagged (suc k) (drop k doc))
          → (i : ℕ) × (page : MuPage) × (n ≡ suc i)
            × (k ≤ i)
            × (get_elem? doc i ≡ some page)
            × (has_notify_tag lib page ≡ true)
      to h =
          let (j, page, at, g, t) = failing_from-Fails untagged n (suc k) (drop k doc) h in
          (k + j, page, omega arith, omega arith, sym (get_elem?-drop k j doc) ∙ g, ground arith)

      from :
          ((i : ℕ) × (page : MuPage) × (n ≡ suc i)
            × (k ≤ i)
            × (get_elem? doc i ≡ some page)
            × (has_notify_tag lib page ≡ true))
          → Elem n (failing_from untagged (suc k) (drop k doc))
      from (i, page, at, le, g, t) =
          let there : k + (i - k) ≡ i = omega arith in
          Fails-failing_from untagged n (suc k) (i - k) page (drop k doc) (omega arith)
            (get_elem?-drop k (i - k) doc ∙ rw there g) (rw t)

  -- The early return on a document with no later page gives what the comprehension would give.
  tagged_from-none : (k : ℕ) (doc : List MuPage) → length doc ≡ k → tagged_from k doc ≡ []
  unfolding tagged_from failing_from
  tagged_from-none k doc e = rw (drop-all k doc e)

  get_pages_with_notify_tag-tagged_from :
      (f : BytesIo) (is_an_attachment : Bool) (doc : List MuPage)
      → open_document f.contents ≡ ok doc
      → (if is_an_attachment then 0 else 1) ≤ length doc
      → get_pages_with_notify_tag lib f is_an_attachment
        ≡ ok (tagged_from (if is_an_attachment then 0 else 1) doc, rewind f)
  unfolding get_pages_with_notify_tag
  get_pages_with_notify_tag-tagged_from f is_an_attachment doc e k =
      let start : ℕ = if is_an_attachment then 0 else 1 in
      let enough : ltb (length doc) start ≡ false = ground arith in
      elim (Bool-cases (length doc == start)) [
        | inl same ↦ rw (e, enough, same, tagged_from-none start doc (ground arith))
        | inr differ ↦ rw (e, enough, differ) (unfold tagged_from in refl)
      ]

  -- For a document with at least as many pages as are passed over (one for a letter, none for an attachment), the tag check gives the ascending numbers of exactly those later pages whose top left corner reads "NOTIFY", and leaves the stream at its beginning.
  pub tagged_pages_iff :
      (f : BytesIo) (is_an_attachment : Bool) (doc : List MuPage)
      → open_document f.contents ≡ ok doc
      → (if is_an_attachment then 0 else 1) ≤ length doc
      → (ns : List ℕ) × (get_pages_with_notify_tag lib f is_an_attachment ≡ ok (ns, rewind f))
        × IsAscending 0 ns
        × ((n : ℕ)
            → Elem n ns ↔ (
                (i : ℕ) × (page : MuPage) × (n ≡ suc i)
                × ((if is_an_attachment then 0 else 1) ≤ i)
                × (get_elem? doc i ≡ some page)
                × (has_notify_tag lib page ≡ true)))
  tagged_pages_iff f is_an_attachment doc e k =
      let start : ℕ = if is_an_attachment then 0 else 1 in
      (
        tagged_from start doc,
        get_pages_with_notify_tag-tagged_from f is_an_attachment doc e k,
        unfold tagged_from in
            failing_from-IsAscending untagged (suc start) 0 (drop start doc) (omega arith),
        λ n. tagged_from_iff n start doc,
      )
