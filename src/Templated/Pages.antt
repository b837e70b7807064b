-- ===== src/Templated/Pages.antt =====
-- The pages of a letter that `generate_templated_pdf` makes, as those of its parts.
use mathlib.Core.List.{append-nil}
use notifications_template_p.Prelude.{
  ◌≡◌, refl, ap, sym, ◌∙◌, subst, true, false, List, [], ◌∷◌, ◌++◌, none, some, map, inl, inr,
}
use notifications_template_p.Python.Errors.{Result, ok, raised, Result-cases}
use notifications_template_p.Python.Stream.{Bytes, BytesIo, bytes_io}
use notifications_template_p.Json.{Json, index}
use notifications_template_p.External.{Libraries, IsFaithful}
use notifications_template_p.Storage.{
  Services, World, Action, ◌>>=◌, lift, LetterDetails, english, welsh,
}
use notifications_template_p.Storage.Steps.{bind_run}
use notifications_template_p.Transformation.{convert_pdf_to_cmyk}
use notifications_template_p.Precompiled.Overlay.{bytesio_from_pdf}
use notifications_template_p.Templated.{
  CreatePdf, PdfPurpose, preview, print, get_attachment_pdf, add_attachment_to_letter,
  create_in_languages, convert_for, attach, generate_templated_pdf, stitch_pdfs, is_bilingual,
}

-- What the source relies on of Ghostscript: in a file that it gives back the pages are those that it read, converted one
-- by one.
abbrev pub ConvertsPages : (lib : Libraries) → (lib.Page → lib.Page) → Type 0
ConvertsPages lib cmyk =
    (bytes : Bytes) (ps : List lib.Page) (out : BytesIo)
    → lib.parse bytes ≡ ok ps
    → convert_pdf_to_cmyk lib (bytes_io bytes) ≡ ok out
    → lib.parse out.contents ≡ ok (map cmyk ps)

module _ (lib : Libraries) (V : Services) where
  open V use {S3}
  open lib use {Page, parse, write}

  -- An action gives a PDF, at its beginning, of these pages, at least one.
  abbrev Gives : Action S3 BytesIo → World S3 → Bytes → Page → List Page → World S3 → Type 0
  Gives m w bytes p ps v = (m w ≡ (ok (bytes_io bytes), v)) × (parse bytes ≡ ok (p ∷ ps))

  -- The text of a letter as a PDF, and its pages: those in English, or those in Welsh, the first
  -- page among them, and then those in English without a first page of their own.
  pub data Written (d : LetterDetails) (create : CreatePdf lib V) (w : World S3)
      : Bytes → List Page → World S3 → Type 0 where
    in_english :
        (f : Bytes) (p : Page) (ps : List Page) (v : World S3)
        → is_bilingual d.letter_languages ≡ false
        → Gives (create d english true) w f p ps v
        → Written d create w f (p ∷ ps) v
    in_both :
        (f g : Bytes) (p q : Page) (ps qs : List Page) (u v : World S3)
        → is_bilingual d.letter_languages ≡ true
        → Gives (create d welsh true) w f p ps u
        → Gives (create d english false) u g q qs v
        → Written d create w (write ((p ∷ ps) ++ (q ∷ qs))) ((p ∷ ps) ++ (q ∷ qs)) v

  -- The pages of the attachment of a letter, none if it has no attachment.
  pub data Attached (d : LetterDetails) (w : World S3) : List Page → World S3 → Type 0 where
    no_attachment : d.letter_attachment ≡ none → Attached d w [] w
    with_attachment :
        (a service_id id : Json) (f : Bytes) (p : Page) (ps : List Page) (v : World S3)
        → d.letter_attachment ≡ some a
        → index "service" d.template ≡ ok service_id
        → index "id" a ≡ ok id
        → Gives (get_attachment_pdf lib V service_id id) w f p ps v
        → Attached d w (p ∷ ps) v

  -- A PDF of these pages comes out.
  abbrev Makes : Action S3 BytesIo → World S3 → List Page → World S3 → Type 0
  Makes m w ps v = (f : BytesIo) × (m w ≡ (ok f, v)) × (parse f.contents ≡ ok ps)

  module _ (faithful : IsFaithful lib) where
    stitch_pdfs-pages :
        (f g : BytesIo) (p q : Page) (ps qs : List Page)
        → parse f.contents ≡ ok (p ∷ ps)
        → parse g.contents ≡ ok (q ∷ qs)
        → (stitch_pdfs lib f g ≡ ok (bytes_io (write ((p ∷ ps) ++ (q ∷ qs)))))
          × (parse (write ((p ∷ ps) ++ (q ∷ qs))) ≡ ok ((p ∷ ps) ++ (q ∷ qs)))
    unfolding stitch_pdfs bytesio_from_pdf
    stitch_pdfs-pages f g p q ps qs h k = (rw (h, k, stitch_pdfs) refl, faithful p (ps ++ (q ∷ qs)))

    create_in_languages-pages :
        (d : LetterDetails) (create : CreatePdf lib V) (w v : World S3) (bytes : Bytes)
        (ps : List Page)
        → Written d create w bytes ps v
        → (create_in_languages lib V d create w ≡ (ok (bytes_io bytes), v)) × (parse bytes ≡ ok ps)
    unfolding create_in_languages
    create_in_languages-pages d create w v _ _ (in_english f p ps _ one (made, read)) =
        (rw (one, create_in_languages) made, read)
    create_in_languages-pages d create w v _ _
          (in_both f g p q ps qs u _ two (made, read) (made', read')) =
        let (stitched, all) = stitch_pdfs-pages (bytes_io f) (bytes_io g) p q ps qs read read' in
        let then_english = λ (first : BytesIo).
          create d english false >>= λ second. lift (stitch_pdfs lib first second) in
        let run =
          bind_run (create d welsh true) then_english w u (bytes_io f) made
          ∙ bind_run (create d english false) (λ second. lift (stitch_pdfs lib (bytes_io f) second))
              u v (bytes_io g) made'
          ∙ ap (λ r. (r, v)) stitched in
        (rw (two, create_in_languages) run, all)

    attach-pages :
        (d : LetterDetails) (letter : BytesIo) (w v : World S3) (p : Page) (ps qs : List Page)
        → parse letter.contents ≡ ok (p ∷ ps)
        → Attached d w qs v
        → Makes (attach lib V d letter) w ((p ∷ ps) ++ qs) v
    unfolding attach add_attachment_to_letter
    attach-pages d letter w v p ps _ read (no_attachment alone) =
        (letter, rw (alone, attach) refl, read ∙ ap (λ all. ok all) (sym (append-nil (p ∷ ps))))
    attach-pages d letter w v p ps _ read
          (with_attachment a service_id id f q qs _ has service named (made, read')) =
        let (stitched, all) = stitch_pdfs-pages letter (bytes_io f) p q ps qs read read' in
        let run =
          bind_run (get_attachment_pdf lib V service_id id)
            (λ attached. lift (stitch_pdfs lib letter attached)) w v (bytes_io f) made
          ∙ ap (λ r. (r, v)) stitched in
        (
          bytes_io (write ((p ∷ ps) ++ (q ∷ qs))),
          rw (has, attach, service) (rw (named, add_attachment_to_letter) run),
          all,
        )

  -- What becomes of pages for a purpose.
  abbrev pub converted : PdfPurpose → (Page → Page) → List Page → List Page
  converted preview cmyk ps = ps
  converted print cmyk ps = map cmyk ps

  abbrev contents_of : Result BytesIo → Bytes
  contents_of (ok f) = f.contents
  contents_of (raised e) = []

  convert_for-pages :
      (purpose : PdfPurpose) (cmyk : Page → Page) (bytes : Bytes) (ps : List Page) (out : BytesIo)
      → ConvertsPages lib cmyk
      → parse bytes ≡ ok ps
      → convert_for lib V purpose (bytes_io bytes) ≡ ok out
      → parse out.contents ≡ ok (converted purpose cmyk ps)
  unfolding convert_for
  convert_for-pages preview cmyk bytes ps out converts read done =
      subst (λ b. parse b ≡ ok ps) (ap contents_of done) read
  convert_for-pages print cmyk bytes ps out converts read done =
      elim (Result-cases (convert_pdf_to_cmyk lib (bytes_io bytes))) [
        | inl (cmyk_pdf, run) ↦
            let same : cmyk_pdf.contents ≡ out.contents =
              ap contents_of (rw (run, convert_for) at done) in
            subst (λ b. parse b ≡ ok (map cmyk ps)) same (converts bytes ps cmyk_pdf read run)
        | inr (e, run) ↦ cc
      ]

  -- The PDF of a letter is made, and its pages are, in this order: the pages that were written for
  -- it (for a letter in two languages those in Welsh, then those in English), converted if the
  -- letter is for print, and then the pages of its attachment as they are. Each part is a PDF with
  -- at least one page, pages that pypdf writes are those that it reads, and Ghostscript, which
  -- converts this letter if it is for print, does so page by page.
  pub generate_templated_pdf-pages :
      IsFaithful lib
      → (cmyk : Page → Page) → ConvertsPages lib cmyk
      → (d : LetterDetails) (create : CreatePdf lib V) (purpose : PdfPurpose) (bytes : Bytes)
        (out : BytesIo) (p : Page) (ps qs : List Page) (u v w : World S3)
      → Written d create u bytes (p ∷ ps) v
      → convert_for lib V purpose (bytes_io bytes) ≡ ok out
      → Attached d v qs w
      → (f : BytesIo) × (generate_templated_pdf lib V d create purpose u ≡ (ok f, w))
        × (parse f.contents ≡ ok (converted purpose cmyk (p ∷ ps) ++ qs))
  unfolding generate_templated_pdf
  generate_templated_pdf-pages faithful cmyk converts d create purpose bytes out p ps qs u v w
        written done attached =
      let (made, read) = create_in_languages-pages faithful d create u v bytes (p ∷ ps) written in
      let pages = convert_for-pages purpose cmyk bytes (p ∷ ps) out converts read done in
      let (f, run, all) = joined purpose pages in
      (
        f,
        bind_run (create_in_languages lib V d create)
              (λ pdf. lift (convert_for lib V purpose pdf) >>= attach lib V d) u v (bytes_io bytes)
              made
            ∙ bind_run (lift (convert_for lib V purpose (bytes_io bytes))) (attach lib V d) v v out
                (ap (λ r. (r, v)) done)
            ∙ run,
        all,
      )
    where
      joined :
          (purpose : PdfPurpose)
          → parse out.contents ≡ ok (converted purpose cmyk (p ∷ ps))
          → Makes (attach lib V d out) v (converted purpose cmyk (p ∷ ps) ++ qs) w
      joined preview h = attach-pages faithful d out v w p ps qs h attached
      joined print h = attach-pages faithful d out v w (cmyk p) (map cmyk ps) qs h attached
