-- ===== src/Precompiled/Sanitise/Rewrite.antt =====
-- The steps that rewrite a letter, in app/precompiled.py.
use notifications_template_p.Prelude.{
  ℕ, ◌≡◌, refl, ◌↔◌, length, inl, inr, Bool, true, false, not, List, Option, arith, Bool-cases,
  if◌then◌else◌, ◌&&◌,
}
use notifications_template_p.Python.Errors.{ok, Result-cases}
use notifications_template_p.Python.Stream.{BytesIo, rewind}
use notifications_template_p.Python.Text.{Text, codes}
use notifications_template_p.External.{Libraries, Scalar}
use notifications_template_p.Transformation.{
  does_pdf_contain_colorspace, does_pdf_contain_cmyk, does_pdf_contain_rgb, convert_pdf_to_cmyk,
}
use notifications_template_p.Transformation.Scan.{
  AreImages, HasImage, does_pdf_contain_colorspace-scan,
}
use notifications_template_p.Fonts.{contains_unembedded_fonts, embed_fonts}
use notifications_template_p.Precompiled.Overlay.{log_metadata_for_letter, bytesio_from_pdf}
use notifications_template_p.Precompiled.Extraction.{
  is_notify_tag_present, extract_text_from_first_page_of_pdf,
}
use notifications_template_p.Precompiled.Address.{rewrite_address_block, add_notify_tag_to_letter}
use notifications_template_p.Precompiled.Sanitise.{
  normalise_colours, normalise_fonts_and_colours, rewrite_pdf, rewrite_or_normalise,
}

module _ (lib : Libraries) where
  does_pdf_contain_colorspace-rewinds :
      (wanted : Text) (f g : BytesIo) (b : Bool)
      → does_pdf_contain_colorspace lib wanted f ≡ ok (b, g)
      → g ≡ rewind f
  unfolding does_pdf_contain_colorspace
  does_pdf_contain_colorspace-rewinds wanted f g b h = ground arith

  convert_pdf_to_cmyk-start : (f g : BytesIo) → convert_pdf_to_cmyk lib f ≡ ok g → g.position ≡ 0
  unfolding convert_pdf_to_cmyk
  convert_pdf_to_cmyk-start f g h = ground arith

  embed_fonts-start : (f g : BytesIo) → embed_fonts lib f ≡ ok g → g.position ≡ 0
  unfolding embed_fonts
  embed_fonts-start f g h = ground arith

  contains_unembedded_fonts-start :
      (f g : BytesIo) (u : List Scalar)
      → contains_unembedded_fonts lib f ≡ ok (u, g)
      → g.position ≡ 0
  unfolding contains_unembedded_fonts
  contains_unembedded_fonts-start f g u h = ground arith

  normalise_fonts_and_colours-start :
      (f g : BytesIo) → normalise_fonts_and_colours lib f ≡ ok g → g.position ≡ 0
  unfolding normalise_fonts_and_colours
  normalise_fonts_and_colours-start f g h = elim (Result-cases (normalise_colours lib f)) [
    | inr (e, r) ↦ absurd (ground arith)
    | inl (coloured, r) ↦ elim (Result-cases (contains_unembedded_fonts lib coloured)) [
      | inr (e, r2) ↦ absurd (ground arith)
      | inl ((u, k), r2) ↦
          ground (arith, contains_unembedded_fonts-start coloured k u r2, embed_fonts-start k g)
    ]
  ]

  add_notify_tag_to_letter-start :
      (f g : BytesIo) → add_notify_tag_to_letter lib f ≡ ok g → g.position ≡ 0
  unfolding add_notify_tag_to_letter bytesio_from_pdf
  add_notify_tag_to_letter-start f g h = ground arith

  is_notify_tag_present-rewinds :
      (f g : BytesIo) (b : Bool) → is_notify_tag_present lib f ≡ ok (b, g) → g ≡ rewind f
  unfolding is_notify_tag_present extract_text_from_first_page_of_pdf
  is_notify_tag_present-rewinds f g b h = ground arith

  -- The stream that `rewrite_pdf` hands on stands at its beginning, whether or not the tag was there.
  rewrite_pdf-start :
      (f g : BytesIo) (n : ℕ) (allow : Bool) (address : Text)
      → rewrite_pdf lib f n allow ≡ ok (g, address)
      → g.position ≡ 0
  unfolding rewrite_pdf
  rewrite_pdf-start f g n allow address h = elim (Result-cases (log_metadata_for_letter lib f)) [
    | inr (e, r) ↦ absurd (ground arith)
    | inl ((logged, f1), r) ↦ elim (Result-cases (rewrite_address_block lib f1 n allow)) [
      | inr (e, r1) ↦ absurd (ground arith)
      | inl ((f2, a), r1) ↦ elim (Result-cases (normalise_fonts_and_colours lib f2)) [
        | inr (e, r2) ↦ absurd (ground arith)
        | inl (f3, r2) ↦ elim (Result-cases (is_notify_tag_present lib f3)) [
          | inr (e, r3) ↦ absurd (ground arith)
          | inl ((present, f4), r3) ↦ ground (
            arith,
            is_notify_tag_present-rewinds f3 f4 present r3,
            add_notify_tag_to_letter-start f4 g,
          )
        ]
      ]
    ]
  ]

  pub rewrite_or_normalise-start :
      (f g : BytesIo) (n : ℕ) (allow is_an_attachment : Bool) (address : Option Text)
      → rewrite_or_normalise lib f n allow is_an_attachment ≡ ok (g, address)
      → g.position ≡ 0
  unfolding rewrite_or_normalise
  rewrite_or_normalise-start f g n allow true address h =
      elim (Result-cases (normalise_fonts_and_colours lib f)) [
        | inr (e, r) ↦ absurd (ground arith)
        | inl (k, r) ↦ ground (arith, normalise_fonts_and_colours-start f k r)
      ]
  rewrite_or_normalise-start f g n allow false address h =
      elim (Result-cases (rewrite_pdf lib f n allow)) [
        | inr (e, r) ↦ absurd (ground arith)
        | inl ((k, a), r) ↦ ground (arith, rewrite_pdf-start f k n allow a r)
      ]

  -- When a letter is rewritten, the tag is looked for after colours and fonts have been normalised. If it is there the normalised bytes are the result, and if not, the result is what `add_notify_tag_to_letter` makes of them.
  pub rewrite_pdf-tag :
      (f g : BytesIo) (n : ℕ) (allow : Bool) (address : Text)
      → rewrite_pdf lib f n allow ≡ ok (g, address)
      → (normalised : BytesIo) × (present : Bool) × (is_notify_tag_present lib normalised
          ≡ ok (present, rewind normalised))
        × (if present
            then g ≡ rewind normalised
            else add_notify_tag_to_letter lib (rewind normalised) ≡ ok g)
  unfolding rewrite_pdf
  rewrite_pdf-tag f g n allow address h = elim (Result-cases (log_metadata_for_letter lib f)) [
    | inr (e, r) ↦ absurd (ground arith)
    | inl ((logged, f1), r) ↦ elim (Result-cases (rewrite_address_block lib f1 n allow)) [
      | inr (e, r1) ↦ absurd (ground arith)
      | inl ((f2, a), r1) ↦ elim (Result-cases (normalise_fonts_and_colours lib f2)) [
        | inr (e, r2) ↦ absurd (ground arith)
        | inl (f3, r2) ↦ elim (Result-cases (is_notify_tag_present lib f3)) [
          | inr (e, r3) ↦ absurd (ground arith)
          | inl ((present, f4), r3) ↦
              let same : f4 ≡ rewind f3 = is_notify_tag_present-rewinds f3 f4 present r3 in
              let done : if present
                  then g ≡ rewind f3
                  else add_notify_tag_to_letter lib (rewind f3) ≡ ok g =
                elim (Bool-cases present) [
                  | inl e ↦ rw e (ground arith)
                  | inr e ↦ rw e (ground arith)
                ] in
              (f3, present, cc, done)
        ]
      ]
    ]
  ]

  -- `normalise_colours` converts a document exactly if none of its images is CMYK or one of them is RGB: in the other case it hands on the same bytes.
  pub normalise_colours_iff :
      (f : BytesIo) (cmyk rgb : Bool)
      → does_pdf_contain_cmyk lib f ≡ ok (cmyk, rewind f)
      → does_pdf_contain_rgb lib (rewind f) ≡ ok (rgb, rewind f)
      → normalise_colours lib f
        ≡ (if cmyk && not rgb then ok (rewind f) else convert_pdf_to_cmyk lib (rewind f))
  unfolding normalise_colours
  normalise_colours_iff f cmyk rgb h k = ground arith

  -- A document whose images can be listed, with the name of the colour space of each, is not
  -- converted exactly if one of its images is CMYK and none is RGB: then the same bytes are handed
  -- on, from their start. In every other case, that of a document without images included, what
  -- Ghostscript makes of it is handed on.
  pub normalise_colours-scan :
      (f : BytesIo) (doc : List lib.MuPage) (images : ℕ → List ℕ) (space : ℕ → Text)
      → lib.open_document f.contents ≡ ok doc
      → AreImages lib f.contents (length doc) images space
      → (kept : Bool) × (normalise_colours lib f
          ≡ (if kept then ok (rewind f) else convert_pdf_to_cmyk lib (rewind f)))
        × ((kept ≡ true) ↔ (
            HasImage lib (codes "CMYK") (length doc) images space
            × ¬ HasImage lib (codes "RGB") (length doc) images space))
  unfolding does_pdf_contain_cmyk does_pdf_contain_rgb
  normalise_colours-scan f doc images space opened known =
      let (cmyk, run, iff) =
        does_pdf_contain_colorspace-scan lib (codes "CMYK") f doc images space opened known in
      let (rgb, run', iff') =
        does_pdf_contain_colorspace-scan lib (codes "RGB") (rewind f) doc images space opened
          known in
      (cmyk && not rgb, normalise_colours_iff f cmyk rgb run run', both cmyk rgb iff iff')
    where
      never : false ≡ true → ⊥
      never e = ground arith

      both :
          {P Q : Type 0} (b c : Bool)
          → (b ≡ true) ↔ P
          → (c ≡ true) ↔ Q
          → ((b && not c) ≡ true) ↔ (P × ¬ Q)
      both true true h k = (λ e. absurd (ground arith), λ (p, q). absurd (q (k.0 refl)))
      both true false h k = (λ e. (h.0 refl, λ q. absurd (never (k.1 q))), λ (p, q). refl)
      both false c h k = (λ e. absurd (ground arith), λ (p, q). h.1 p)
