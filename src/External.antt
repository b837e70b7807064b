-- ===== src/External.antt =====
-- The libraries that app/precompiled.py, app/transformation.py and app/embedded_fonts.py call, as
-- parameters: pypdf, reportlab, pymupdf, pdf2image, Ghostscript, unicodedata and
-- notifications_utils. Every call that reads a PDF may fail.
use notifications_template_p.Prelude.{ℕ, ◌≡◌, String, Bool, List, ◌∷◌, Option}
use notifications_template_p.Prelude.Int.{ℤ}
use notifications_template_p.Python.Errors.{Result, ok}
use notifications_template_p.Python.Stream.{Bytes}
use notifications_template_p.Python.Text.{Text}
use notifications_template_p.Geometry.Layout.{Rect}
use notifications_template_p.Geometry.Canvas.{Canvas}

-- pypdf's objects, as far as `walk` tells them apart: what can stand in a Python set (names,
-- strings, numbers, null), dictionaries, lists and references.
pub data Scalar : Type 0 where
  -- a `str`: a name or a text
  name : String → Scalar
  -- anything else that can be hashed, by its printed form
  atom : String → Scalar

mutual
  pub data PdfObject : Type 0 where
    scalar : Scalar → PdfObject
    dictionary : Entries → PdfObject
    array : Items → PdfObject
    indirect_object : ℕ → PdfObject

  pub data Entries : Type 0 where
    no_entries : Entries
    entry : String → PdfObject → Entries → Entries

  pub data Items : Type 0 where
    no_items : Items
    item : PdfObject → Items → Items

-- A tuple of `page.get_text_words()`.
pub record Word : Type 0 where
  pub x1 : ℤ
  pub y1 : ℤ
  pub x2 : ℤ
  pub y2 : ℤ
  pub word : Text
  pub paragraph_number : ℕ
  pub line_number : ℕ
  pub word_position : ℕ

-- An address as `PostalAddress` keeps it.
pub record PostalAddress : Type 0 where
  pub raw_address : Text
  pub allow_international_letters : Bool

-- An entry of `image.getcolors()`: the number of pixels and their colour.
pub record ColourCount : Type 0 where
  pub pixels : ℕ
  pub red : ℕ
  pub green : ℕ
  pub blue : ℕ

-- What `Popen(args).communicate(input)` gives back.
pub record Completed : Type 0 where
  pub returncode : ℤ
  pub stdout : Bytes
  pub stderr : Bytes

-- The entries of pypdf's `DocumentInformation` that are read.
pub record DocumentInformation : Type 0 where
  pub creator : Option String
  pub producer : Option String

pub record Libraries : Type 1 where
  -- pypdf: `PdfReader(stream)` reads the whole stream, wherever it stands, and leaves its position
  -- at a place of its own.
  pub Page : Type 0
  pub parse : Bytes → Result (List Page)
  -- The part of it that `PdfReader(stream)` does at once, before `.pages` is read.
  pub open_reader : Bytes → Result (Unit {0})
  pub left_at : Bytes → ℕ → ℕ
  pub height : Page → ℤ
  pub width : Page → ℤ
  -- `page.mediabox[3]`
  pub top : Page → ℤ
  -- `page.get("/Rotate")`
  pub rotate : Page → Option ℤ
  -- `page.get_object()["/Resources"]`
  pub resources : Page → Result PdfObject
  -- `ref.get_object()` in the document, which raises for some objects that are broken
  pub get_object : Bytes → ℕ → Result PdfObject
  -- How deep a Python function may call itself before a `RecursionError`.
  pub stack_depth : ℕ
  -- `pdf.metadata`; one without entries is none.
  pub metadata : Bytes → Result (Option DocumentInformation)
  pub merge_page : Page → Page → Page
  -- `PdfWriter().append_pages_from_reader(pdf)` and `write`
  pub write : List Page → Bytes
  -- reportlab: what `canvas.save()` writes, and `registerFont`
  pub save : Canvas → Bytes
  pub register_font : Result (Unit {0})
  -- pymupdf
  pub MuPage : Type 0
  pub open_document : Bytes → Result (List MuPage)
  pub get_text_words : MuPage → List Word
  pub intersects : Rect → Rect → Bool
  -- `page.get_page_images(i)` as xrefs, and `str(Pixmap(doc, xref).colorspace)`
  pub get_page_images : Bytes → ℕ → Result (List ℕ)
  pub colourspace : Bytes → ℕ → Result Text
  -- `add_redact_annot(rect)` and `apply_redactions()` on a page, and `doc.tobytes()`
  pub redact : MuPage → Rect → MuPage
  pub to_bytes : List MuPage → Bytes
  -- pdf2image and PIL: the pages as images, and `image.convert("RGB").getcolors()`
  pub Image : Type 0
  pub convert_from_bytes : Bytes → Result (List Image)
  pub getcolors : Image → Option (List ColourCount)
  -- subprocess, with `gs` as the command
  pub ghostscript : List String → Bytes → Completed
  -- unicodedata.normalize("NFKD", text)
  pub nfkd : Text → Text
  -- `pickle.dumps(page)`, `pickle.loads`, and `str` of what the former gives
  pub dumps : Page → Bytes
  pub loads : Bytes → Page
  pub bytes_text : Bytes → String
  -- wand: `Image(blob=…, resolution=150)`, the white `Image(width=…, height=…)`, their colour space,
  -- `composite(cover, left=0, top=0)`, and `convert("png")` with `save`
  pub Raster : Type 0
  pub rasterised : Bytes → Result Raster
  pub white_cover : ℕ → ℕ → Raster
  pub colour_space_of : Raster → String
  pub transform_colorspace : String → Raster → Raster
  pub composite : Raster → Raster → Raster
  pub to_png : Raster → Result Bytes
  -- notifications_utils.pdf
  pub pdf_page_count : Bytes → Result ℕ
  pub is_letter_too_long : ℕ → Bool
  -- notifications_utils.recipient_validation.postal_address: the properties of `PostalAddress`
  pub is_truthy : PostalAddress → Bool
  pub has_enough_lines : PostalAddress → Bool
  pub has_too_many_lines : PostalAddress → Bool
  pub has_alphanumeric_character_in_address_lines_1_and_2 : PostalAddress → Bool
  pub has_invalid_country_for_bfpo_address : PostalAddress → Bool
  pub has_valid_last_line : PostalAddress → Bool
  pub international : PostalAddress → Bool
  pub has_invalid_characters : PostalAddress → Bool
  pub has_no_fixed_abode_address : PostalAddress → Bool
  pub normalised : PostalAddress → Text

-- What the source relies on of pypdf: pages that were written are read again, if there are any.
abbrev pub IsFaithful : Libraries → Type 0
IsFaithful lib = (p : lib.Page) (ps : List lib.Page) → lib.parse (lib.write (p ∷ ps)) ≡ ok (p ∷ ps)
