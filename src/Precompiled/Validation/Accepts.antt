-- ===== src/Precompiled/Validation/Accepts.antt =====
-- What it means that `get_invalid_pages_with_message` of app/precompiled.py finds nothing.
use notifications_template_p.Prelude.{
  ℕ, suc, ◌≤◌, ◌≡◌, refl, ◌≢◌, subst, sym, ◌∙◌, ap, inl, inr, Bool, true, false, not, String, List,
  [], ◌∷◌, some, length, drop, get_elem?, Elem, arith, Bool-cases, if◌then◌else◌,
}
use text.Mathlib.TextEquality.{eq_iff}
use notifications_template_p.Python.Errors.{Result, ok, Result-cases}
use notifications_template_p.Python.Stream.{BytesIo}
use notifications_template_p.External.{Libraries}
use notifications_template_p.Precompiled.Overlay.{
  pdf_reader, bytesio_from_pdf, overlay_printable_areas_with_white,
}
use notifications_template_p.Precompiled.Extraction.{has_notify_tag}
use notifications_template_p.Precompiled.Validation.{
  page_is_a4_portrait, image_is_white, is_empty, get_pages_with_invalid_orientation_or_size,
  get_out_of_bounds_pages, get_pages_with_notify_tag, get_invalid_pages_with_message,
}
use notifications_template_p.Precompiled.Validation.Pages.{
  is_page_a4_portrait-displayed, passes_of_nil,
}
use notifications_template_p.Precompiled.Validation.Messages.{PageIsA4Portrait, tagged_pages_iff}

-- A check that is reported has a message.
or_report :
    (ns : List ℕ) (message : String) (src : BytesIo) (k : Result (String × List ℕ × BytesIo))
    {bad : List ℕ} {g : BytesIo}
    → ◌≢◌ {A = String} message ""
    → (if not (is_empty ns) then ok (message, ns, src) else k) ≡ ok ("", bad, g)
    → (ns ≡ []) × (k ≡ ok ("", bad, g))
or_report [] message src k named h = (refl, h)
or_report (n ∷ ns) message src k named h = absurd (named (cc))

module _ (lib : Libraries) where
  open lib use {
    Page, parse, rotate, height, width, Image, MuPage, open_document, convert_from_bytes,
  }

  -- No message means that all three checks ran and none found a page.
  pub no_message :
      (f g : BytesIo) (is_an_attachment : Bool) (bad : List ℕ)
      → get_invalid_pages_with_message lib f is_an_attachment ≡ ok ("", bad, g)
      → (bad ≡ [])
        × (src : BytesIo) × (get_pages_with_invalid_orientation_or_size lib f ≡ ok ([], src))
        × (overlaid : BytesIo) × (overlay_printable_areas_with_white lib src is_an_attachment
            ≡ ok (overlaid, g))
        × (checked : BytesIo) × (get_out_of_bounds_pages lib overlaid ≡ ok ([], checked))
        × (rest : BytesIo) × (get_pages_with_notify_tag lib checked is_an_attachment
            ≡ ok ([], rest))
  unfolding get_invalid_pages_with_message
  no_message f g is_an_attachment bad h =
      elim (Result-cases (get_pages_with_invalid_orientation_or_size lib f)) [
        | inr (e, r1) ↦ absurd (ground arith)
        | inl ((sized, src), r1) ↦
            elim (Result-cases (overlay_printable_areas_with_white lib src is_an_attachment)) [
              | inr (e, r2) ↦ absurd (ground (arith, eq_iff "letter-not-a4-portrait-oriented" ""))
              | inl ((overlaid, back), r2) ↦
                  elim (Result-cases (get_out_of_bounds_pages lib overlaid)) [
                    | inr (e, r3) ↦
                        absurd (ground (arith, eq_iff "letter-not-a4-portrait-oriented" ""))
                    | inl ((out, checked), r3) ↦
                        elim (Result-cases
                          (get_pages_with_notify_tag lib checked is_an_attachment)) [
                            | inr (e, r4) ↦ absurd (
                                ground (
                                  arith,
                                  eq_iff "letter-not-a4-portrait-oriented" "",
                                  eq_iff "content-outside-printable-area" "",
                                ))
                            | inl ((tagged, rest), r4) ↦
                                let all_nil : (sized ≡ [])
                                    × (out ≡ [])
                                    × (tagged ≡ [])
                                    × (bad ≡ [])
                                    × (back ≡ g) =
                                  ground (
                                    arith,
                                    eq_iff "letter-not-a4-portrait-oriented" "",
                                    eq_iff "content-outside-printable-area" "",
                                    eq_iff "notify-tag-found-in-content" "",
                                  ) in
                                (
                                  all_nil.3,
                                  src,
                                  cc (all_nil.0),
                                  overlaid,
                                  cc (all_nil.4),
                                  checked,
                                  cc (all_nil.1),
                                  rest,
                                  cc (all_nil.2),
                                )
                          ]
                  ]
            ]
      ]

  overlay_streams :
      (src overlaid back : BytesIo) (is_an_attachment : Bool)
      → overlay_printable_areas_with_white lib src is_an_attachment ≡ ok (overlaid, back)
      → (overlaid.position ≡ 0) × (back.position ≡ 0) × (back.contents ≡ src.contents)
  unfolding overlay_printable_areas_with_white pdf_reader bytesio_from_pdf
  overlay_streams src overlaid back is_an_attachment h = ground arith

  -- The overlay reads the document from its beginning, wherever the stream stands.
  overlay_of_contents :
      (src f overlaid g : BytesIo) (is_an_attachment : Bool)
      → src.contents ≡ f.contents
      → overlay_printable_areas_with_white lib src is_an_attachment ≡ ok (overlaid, g)
      → overlay_printable_areas_with_white lib f is_an_attachment ≡ ok (overlaid, g)
  unfolding overlay_printable_areas_with_white pdf_reader bytesio_from_pdf
  overlay_of_contents src f overlaid g is_an_attachment same h = ground arith

  sizes_pass :
      (f src : BytesIo)
      → get_pages_with_invalid_orientation_or_size lib f ≡ ok ([], src)
      → (src.contents ≡ f.contents)
        × (pages : List Page) × (parse f.contents ≡ ok pages)
        × ((i : ℕ) (page : Page) → get_elem? pages i ≡ some page → PageIsA4Portrait lib page)
  unfolding get_pages_with_invalid_orientation_or_size pdf_reader
  sizes_pass f src h = elim (Result-cases (parse f.contents)) [
    | inr (e, r) ↦ absurd (ground arith)
    | inl (pages, r) ↦ (
      ground arith,
      pages,
      r,
      λ i page g.
          (is_page_a4_portrait-displayed (height page) (width page) (rotate page)).0
            (passes_of_nil (page_is_a4_portrait lib) 1 i page pages (ground arith) g),
    )
  ]

  images_pass :
      (overlaid checked : BytesIo)
      → overlaid.position ≡ 0
      → get_out_of_bounds_pages lib overlaid ≡ ok ([], checked)
      → (checked.contents ≡ overlaid.contents)
        × (images : List Image) × (convert_from_bytes overlaid.contents ≡ ok images)
        × ((i : ℕ) (image : Image)
            → get_elem? images i ≡ some image
            → image_is_white lib image ≡ true)
  unfolding get_out_of_bounds_pages
  images_pass overlaid checked start h =
      let whole : drop overlaid.position overlaid.contents ≡ overlaid.contents = rw start in
      elim (Result-cases (convert_from_bytes overlaid.contents)) [
        | inr (e, r) ↦ absurd (ground arith)
        | inl (images, r) ↦ (
          ground arith,
          images,
          r,
          λ i image g. passes_of_nil (image_is_white lib) 1 i image images (ground arith) g,
        )
      ]

  untagged_pass :
      (checked rest : BytesIo) (is_an_attachment : Bool)
      → get_pages_with_notify_tag lib checked is_an_attachment ≡ ok ([], rest)
      → (doc : List MuPage) × (open_document checked.contents ≡ ok doc)
        × ((i : ℕ) (page : MuPage)
            → (if is_an_attachment then 0 else 1) ≤ i
            → get_elem? doc i ≡ some page
            → has_notify_tag lib page ≡ false)
  unfolding get_pages_with_notify_tag
  untagged_pass checked rest is_an_attachment h =
      elim (Result-cases (open_document checked.contents)) [
        | inr (e, r) ↦ absurd (ground arith)
        | inl (doc, r) ↦
            let enough : (if is_an_attachment then 0 else 1) ≤ length doc = ground arith in
            let (ns, run, ascending, reported) =
              tagged_pages_iff lib checked is_an_attachment doc r enough in
            let nil : ns ≡ [] = cc in
            (
              doc,
              r,
              λ i page le g. elim (Bool-cases (has_notify_tag lib page)) [
                | inr untagged ↦ untagged
                | inl tagged ↦
                    absurd (
                      subst (Elem (suc i)) nil
                        ((reported (suc i)).1 (i, page, refl, le, g, tagged)))
              ],
            )
      ]

  -- A document on which no message is given has only pages that are displayed as A4 portrait. Its copy with the printable areas in white can be turned into images, which are all white, and has no page that reads "NOTIFY" in its top left corner, page 1 of a letter aside. The stream of the document is at its beginning again, and no page is reported.
  pub accepted :
      (f g : BytesIo) (is_an_attachment : Bool) (bad : List ℕ)
      → get_invalid_pages_with_message lib f is_an_attachment ≡ ok ("", bad, g)
      → (bad ≡ [])
        × (g.position ≡ 0)
        × (g.contents ≡ f.contents)
        × (pages : List Page) × (parse f.contents ≡ ok pages)
        × ((i : ℕ) (page : Page) → get_elem? pages i ≡ some page → PageIsA4Portrait lib page)
        × (overlaid : BytesIo) × (overlay_printable_areas_with_white lib f is_an_attachment
            ≡ ok (overlaid, g))
        × (images : List Image) × (convert_from_bytes overlaid.contents ≡ ok images)
        × ((i : ℕ) (image : Image)
            → get_elem? images i ≡ some image
            → image_is_white lib image ≡ true)
        × (doc : List MuPage) × (open_document overlaid.contents ≡ ok doc)
        × ((i : ℕ) (page : MuPage)
            → (if is_an_attachment then 0 else 1) ≤ i
            → get_elem? doc i ≡ some page
            → has_notify_tag lib page ≡ false)
  accepted f g is_an_attachment bad h =
      let (bad_nil, src, e1, overlaid, e2, checked, e3, rest, e4) =
        no_message f g is_an_attachment bad h in
      let (same_src, pages, e5, portrait) = sizes_pass f src e1 in
      let (at_start, back_start, same_back) = overlay_streams src overlaid g is_an_attachment e2 in
      let (same_checked, images, e6, white) = images_pass overlaid checked at_start e3 in
      let (doc, e7, untagged) = untagged_pass checked rest is_an_attachment e4 in
      (
        bad_nil,
        back_start,
        same_back ∙ same_src,
        pages,
        e5,
        portrait,
        overlaid,
        overlay_of_contents src f overlaid g is_an_attachment same_src e2,
        images,
        e6,
        white,
        doc,
        ap open_document (sym same_checked) ∙ e7,
        untagged,
      )
