-- ===== src/Precompiled/Sanitise/Outcome.antt =====
-- What `sanitise_file_contents` of app/precompiled.py answers.
use text.Mathlib.TextEquality.{eq_iff}
use notifications_template_p.Prelude.{
  ℕ, ◌≡◌, refl, ◌⊎◌, inl, inr, Bool, true, false, String, List, [], ◌∷◌, Option, none, some, drop,
  arith, if◌then◌else◌,
}
use notifications_template_p.Python.Errors.{Exn, ok, raised, Result-cases}
use notifications_template_p.Python.Stream.{Bytes, BytesIo, rewind}
use notifications_template_p.Python.Text.{Text}
use notifications_template_p.Python.Base64.{b64encode}
use notifications_template_p.External.{DocumentInformation, Libraries, PostalAddress}
use notifications_template_p.Precompiled.Overlay.{log_metadata_for_letter, pdf_reader}
use notifications_template_p.Precompiled.Extraction.{extract_text_from_first_page_of_pdf}
use notifications_template_p.Precompiled.Validation.{get_invalid_pages_with_message}
use notifications_template_p.Precompiled.Address.{
  error_code, extract_address_block, rewrite_address_block,
}
use notifications_template_p.Precompiled.Sanitise.{
  SanitisationDetails, failed, validate, rewrite_pdf, rewrite_or_normalise, try_to_sanitise,
  sanitise_file_contents,
}
use notifications_template_p.Precompiled.Sanitise.Rewrite.{rewrite_or_normalise-start}

-- The answer for a file that passed: no message, a number of pages, the file, and an address exactly if it is a letter.
abbrev pub IsPassed : Bool → SanitisationDetails → Type 0
IsPassed is_an_attachment d =
    (d.message ≡ none)
    × (d.invalid_pages ≡ none)
    × ((n : ℕ) × (d.page_count ≡ some n))
    × ((b : Bytes) × (d.file ≡ some b))
    × (if is_an_attachment
        then d.recipient_address ≡ none
        else (t : Text) × (d.recipient_address ≡ some t))

-- The answer for a file that failed: a message, and neither file nor address.
abbrev pub IsFailed : SanitisationDetails → Type 0
IsFailed d = ((m : String) × (d.message ≡ some m)) × (d.file ≡ none) × (d.recipient_address ≡ none)

module _ (lib : Libraries) where
  failed-IsFailed : (e : Exn) → IsFailed (failed e)
  unfolding failed
  failed-IsFailed (Exn.validation_failed m p n) = ((m, refl), refl, refl)
  failed-IsFailed e = ((_, refl), refl, refl)

  -- A successful rewrite of what was validated, with the bytes that it leaves.
  pub try_to_sanitise-ok :
      (encoded : Bytes) (allow is_an_attachment : Bool) (d : SanitisationDetails)
      → try_to_sanitise lib encoded allow is_an_attachment ≡ ok d
      → (n : ℕ) × (f : BytesIo) × (validate lib encoded is_an_attachment ≡ ok (n, f))
        × (g : BytesIo) × (rewrite_or_normalise lib f n allow is_an_attachment
            ≡ ok (g, d.recipient_address))
        × (d.page_count ≡ some n)
        × (d.message ≡ none)
        × (d.invalid_pages ≡ none)
        × (d.file ≡ some (b64encode g.contents))
  unfolding try_to_sanitise
  try_to_sanitise-ok encoded allow is_an_attachment d h =
      elim (Result-cases (validate lib encoded is_an_attachment)) [
        | inr (e, r) ↦ absurd (ground arith)
        | inl ((n, f), r) ↦
            elim (Result-cases (rewrite_or_normalise lib f n allow is_an_attachment)) [
              | inr (e, r1) ↦ absurd (ground arith)
              | inl ((g, a), r1) ↦
                  let start : g.position ≡ 0 =
                    rewrite_or_normalise-start lib f g n allow is_an_attachment a r1 in
                  let whole : drop g.position g.contents ≡ g.contents = rw start in
                  let shape : d ≡ record {
                    page_count = some n;
                    recipient_address = a;
                    message = none;
                    invalid_pages = none;
                    file = some (b64encode g.contents);
                  } =
                    ground arith in
                  (n, f, r, g, rw shape r1, rw shape, rw shape, rw shape, rw shape)
            ]
      ]

  rewrite_or_normalise-address :
      (f g : BytesIo) (n : ℕ) (allow is_an_attachment : Bool) (a : Option Text)
      → rewrite_or_normalise lib f n allow is_an_attachment ≡ ok (g, a)
      → if is_an_attachment then a ≡ none else (t : Text) × (a ≡ some t)
  unfolding rewrite_or_normalise
  rewrite_or_normalise-address f g n allow true a h = ground arith
  rewrite_or_normalise-address f g n allow false a h =
      elim (Result-cases (rewrite_pdf lib f n allow)) [
        | inr (e, r) ↦ absurd (ground arith)
        | inl ((k, t), r) ↦ (t, ground arith)
      ]

  -- Whatever bytes are sent, and whatever a library raises on them, the answer is either that of a file that passed or that of one that failed: a message is given exactly if no file is, and an address only for a letter that passed.
  pub sanitise_file_contents-outcome :
      (encoded : Bytes) (allow is_an_attachment : Bool)
      → IsPassed is_an_attachment (sanitise_file_contents lib encoded allow is_an_attachment)
        ⊎ IsFailed (sanitise_file_contents lib encoded allow is_an_attachment)
  unfolding sanitise_file_contents
  sanitise_file_contents-outcome encoded allow is_an_attachment =
      elim (Result-cases (try_to_sanitise lib encoded allow is_an_attachment)) [
        | inr (e, r) ↦ inr (rw (r, sanitise_file_contents) (failed-IsFailed e))
        | inl (d, r) ↦
            let (n, f, _, g, rewritten, pages, no_message, no_pages, file) =
              try_to_sanitise-ok encoded allow is_an_attachment d r in
            inl (
              rw (r, sanitise_file_contents)
                (
                  no_message,
                  no_pages,
                  (n, pages),
                  (b64encode g.contents, file),
                  rewrite_or_normalise-address f g n allow is_an_attachment _ rewritten,
                ))
      ]

  validate-ok :
      (encoded : Bytes) (is_an_attachment : Bool) (n : ℕ) (f : BytesIo)
      → validate lib encoded is_an_attachment ≡ ok (n, f)
      → (lib.pdf_page_count encoded ≡ ok n)
        × (lib.is_letter_too_long n ≡ false)
        × (bad : List ℕ) × (get_invalid_pages_with_message lib
              (record { contents = encoded; position = lib.left_at encoded 0 })
              is_an_attachment
            ≡ ok ("", bad, f))
  unfolding validate
  validate-ok encoded is_an_attachment n f h = elim (Result-cases (lib.pdf_page_count encoded)) [
    | inr (e, r) ↦ absurd (ground arith)
    | inl (m, r) ↦
        elim (Result-cases (
          get_invalid_pages_with_message lib
            (record { contents = encoded; position = lib.left_at encoded 0 }) is_an_attachment)) [
              | inr (e, r1) ↦ absurd (ground arith)
              | inl ((message, bad, k), r1) ↦
                  let none_given : message ≡ "" = (eq_iff message "").0 (ground arith) in
                  (ground arith, ground arith, bad, ground arith)
            ]
  ]

  -- A file for which no message is given is not too long and passed the checks on its pages; it was then rewritten, and the file in the answer is the base64 of all the bytes of the result.
  pub sanitise_file_contents-passed :
      (encoded : Bytes) (allow is_an_attachment : Bool)
      → (sanitise_file_contents lib encoded allow is_an_attachment).message ≡ none
      → (n : ℕ) × ((sanitise_file_contents lib encoded allow is_an_attachment).page_count ≡ some n)
        × (lib.pdf_page_count encoded ≡ ok n)
        × (lib.is_letter_too_long n ≡ false)
        × (bad : List ℕ) × (f : BytesIo) × (get_invalid_pages_with_message lib
              (record { contents = encoded; position = lib.left_at encoded 0 })
              is_an_attachment
            ≡ ok ("", bad, f))
        × (g : BytesIo) × (rewrite_or_normalise lib f n allow is_an_attachment
            ≡ ok (g, (sanitise_file_contents lib encoded allow is_an_attachment).recipient_address))
        × ((sanitise_file_contents lib encoded allow is_an_attachment).file
            ≡ some (b64encode g.contents))
  unfolding sanitise_file_contents
  sanitise_file_contents-passed encoded allow is_an_attachment h =
      elim (Result-cases (try_to_sanitise lib encoded allow is_an_attachment)) [
        | inr (e, r) ↦ let ((m, given), _, _) = failed-IsFailed e in absurd (ground arith)
        | inl (d, r) ↦
            let (n, f, valid, g, rewritten, pages, no_message, no_pages, file) =
              try_to_sanitise-ok encoded allow is_an_attachment d r in
            let (counted, short, bad, checked) = validate-ok encoded is_an_attachment n f valid in
            rw (r, sanitise_file_contents)
              (n, pages, counted, short, bad, f, checked, g, rewritten, file)
      ]

  -- A document whose number of pages is too large is refused with that number, before any page is looked at.
  pub sanitise_file_contents-too_long :
      (encoded : Bytes) (allow is_an_attachment : Bool) (n : ℕ)
      → lib.pdf_page_count encoded ≡ ok n
      → lib.is_letter_too_long n ≡ true
      → sanitise_file_contents lib encoded allow is_an_attachment ≡ record {
        page_count = some n;
        recipient_address = none;
        message = some "letter-too-long";
        invalid_pages = none;
        file = none;
      }
  unfolding sanitise_file_contents try_to_sanitise validate failed
  sanitise_file_contents-too_long encoded allow is_an_attachment n h k = ground arith

  extract_anywhere :
      (f : BytesIo) (p : ℕ) (allow : Bool)
      → extract_address_block lib (record f { position = p }) allow
        ≡ extract_address_block lib f allow
  unfolding extract_address_block extract_text_from_first_page_of_pdf
  extract_anywhere f p allow = refl

  rewrite_pdf-bad_address :
      (f k : BytesIo) (allow : Bool) (n : ℕ) (pages : List lib.Page)
      (info : Option DocumentInformation) (address : PostalAddress) (code : String)
      → lib.parse f.contents ≡ ok pages
      → lib.metadata f.contents ≡ ok info
      → extract_address_block lib f allow ≡ ok (address, k)
      → error_code lib address ≡ some code
      → rewrite_pdf lib f n allow ≡ raised (Exn.validation_failed code (some (1 ∷ [])) (some n))
  unfolding rewrite_pdf rewrite_address_block log_metadata_for_letter pdf_reader
  rewrite_pdf-bad_address f k allow n pages info address code p i e c =
      rw (p, i, extract_anywhere, e) (ground arith)

  -- A letter that passes the checks on its pages, and whose metadata can be read, but whose address block has an error, is refused with that error's code, on page 1, with the number of its pages.
  pub sanitise_file_contents-bad_address :
      (encoded : Bytes) (allow : Bool) (n : ℕ) (f : BytesIo) (pages : List lib.Page)
      (info : Option DocumentInformation) (address : PostalAddress) (code : String)
      → validate lib encoded false ≡ ok (n, f)
      → lib.parse f.contents ≡ ok pages
      → lib.metadata f.contents ≡ ok info
      → extract_address_block lib f allow ≡ ok (address, rewind f)
      → error_code lib address ≡ some code
      → sanitise_file_contents lib encoded allow false ≡ record {
        page_count = some n;
        recipient_address = none;
        message = some code;
        invalid_pages = some (1 ∷ []);
        file = none;
      }
  unfolding sanitise_file_contents try_to_sanitise failed rewrite_or_normalise
  sanitise_file_contents-bad_address encoded allow n f pages info address code h k i e c =
      ground (arith, rewrite_pdf-bad_address f (rewind f) allow n pages info address code k i e c)
