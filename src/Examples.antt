-- ===== src/Examples.antt =====
-- Libraries and services that are small enough to compute with: the runs and the tests of the child
-- modules use them.
pub mod Layout
pub mod Letters
pub mod Fonts
pub mod Passed
pub mod Refused
pub mod Store
pub mod Caches
pub mod Runs
pub mod Validator
pub mod Steady
pub mod Previews
pub mod Serving
pub mod Monitoring
pub mod Reading
pub mod Overlays
pub mod Parts
pub mod Durable
use text.Mathlib.Text.{◌==◌ as eq_str}
use notifications_template_p.Prelude.{
  ℕ, ◌+◌, ◌*◌, ltb, ◌==◌, String, ◌≡◌, Bool, true, false, not, ◌&&◌, List, [], ◌∷◌, ◌++◌, Option,
  none, some, length, if◌then◌else◌, ap, sym, ◌||◌,
}
use notifications_template_p.Prelude.Int.{ℤ, pos}
use notifications_template_p.Python.Errors.{Exn, Result, ok, raised}
use notifications_template_p.Python.Stream.{Bytes}
use notifications_template_p.Python.Text.{Text}
use notifications_template_p.Geometry.Layout.{a4_width, a4_height}
use notifications_template_p.Precompiled.Extraction.{notify_tag_text}
use notifications_template_p.Precompiled.Validation.{is_empty}
use notifications_template_p.External.{
  Libraries, Word, ColourCount, dictionary, no_entries, scalar, name, Entries, entry, atom,
}
use notifications_template_p.Storage.{
  Services, IsLawful, Upload, Copy, Config, LetterDetails, QueuedLetter,
}
use notifications_template_p.Json.{Json, string, object, member}

-- A PDF is a list of pages and a page is a number: 7 lies on its side, 2 reads "A", 5 and its
-- overlaid copy read "NOTIFY", and 8 has content where none may be.
abbrev one_word : Text → List Word
one_word t =
    record {
      x1 = pos 1;
      y1 = pos 1;
      x2 = pos 2;
      y2 = pos 2;
      word = t;
      paragraph_number = 0;
      line_number = 0;
      word_position = 0;
    }
    ∷ []

abbrev words_of : ℕ → List Word
words_of p =
    if p == 2
    then one_word (b'A' ∷ [])
    else if p == 5 || p == 15
    then one_word notify_tag_text
    else []

abbrev read_pages : Bytes → Result (List ℕ)
read_pages [] = raised Exn.pdf_read_error
read_pages (p ∷ ps) = ok (p ∷ ps)

-- The resources of page 6: a font that is not embedded.
abbrev unembedded : Entries
unembedded = entry "/BaseFont" (scalar (name "/Arial")) no_entries

abbrev first_byte : Bytes → ℕ
first_byte [] = 0
first_byte (p ∷ ps) = p

-- Names that tell the pages 4 and 6 apart.
abbrev page_name : Bytes → String
page_name bytes = if first_byte bytes == 4 then "four" else "other"

abbrev pub toy : Libraries
toy = record {
  Page = ℕ;
  parse = read_pages;
  open_reader = λ bytes. elim (read_pages bytes) [ ok _ ↦ ok tt | raised e ↦ raised e ];
  left_at = λ bytes n. length bytes;
  height = λ p. if p == 7 then pos a4_width else pos a4_height;
  width = λ p. if p == 7 then pos a4_height else pos a4_width;
  top = λ p. pos a4_height;
  rotate = λ p. none;
  resources = λ p. ok (dictionary (if p == 6 then unembedded else no_entries));
  get_object = λ bytes n. ok (scalar (atom "null"));
  stack_depth = 10;
  metadata = λ bytes. ok none;
  merge_page = λ p q. p + 10 * q;
  write = λ ps. ps;
  save = λ can. 1 ∷ [];
  register_font = ok tt;
  MuPage = ℕ;
  open_document = read_pages;
  get_text_words = words_of;
  intersects = λ r s. true;
  get_page_images = λ bytes n. ok [];
  colourspace = λ bytes n. ok [];
  redact = λ p r. 3;
  to_bytes = λ ps. ps;
  Image = ℕ;
  convert_from_bytes = read_pages;
  getcolors = λ p.
      if p == 18
      then none
      else some (record { pixels = 9; red = 255; green = 255; blue = 255 } ∷ []);
  ghostscript = λ args input. record { returncode = pos 0; stdout = input; stderr = [] };
  nfkd = λ t. t;
  dumps = λ p. p ∷ [];
  loads = first_byte;
  bytes_text = page_name;
  Raster = Bytes;
  rasterised = λ bytes. ok bytes;
  white_cover = λ w h. 0 ∷ [];
  colour_space_of = λ r. "srgb";
  transform_colorspace = λ space r. r;
  composite = λ image cover. cover ++ image;
  to_png = λ image. ok image;
  pdf_page_count = λ bytes. ok (length bytes);
  is_letter_too_long = λ n. ltb 3 n;
  is_truthy = λ a. not (is_empty a.raw_address);
  has_enough_lines = λ a. true;
  has_too_many_lines = λ a. false;
  has_alphanumeric_character_in_address_lines_1_and_2 = λ a. true;
  has_invalid_country_for_bfpo_address = λ a. false;
  has_valid_last_line = λ a. true;
  international = λ a. false;
  has_invalid_characters = λ a. false;
  has_no_fixed_abode_address = λ a. false;
  normalised = λ a. a.raw_address;
}

-- The files by bucket and name.
abbrev pub Files : Type 0
Files = String → String → Result Bytes

abbrev pub no_files : Files
no_files bucket key = raised Exn.s3_object_not_found

abbrev pub put_file : String → String → Result Bytes → Files → Files
put_file bucket key bytes files b k = if eq_str b bucket && eq_str k key then bytes else files b k

abbrev pub config : Config
config = record {
  letters_scan_bucket_name = "scan";
  letter_cache_bucket_name = "cache";
  letters_pdf_bucket_name = "pdf";
  test_letters_bucket_name = "test";
  invalid_pdf_bucket_name = "invalid";
  sanitised_letter_bucket_name = "sanitised";
  precompiled_originals_backup_letter_bucket_name = "backup";
  letter_attachment_bucket_name = "attachments";
}

-- A letter whose template is a text.
abbrev pub plain_letter : String → LetterDetails
plain_letter content = record {
  logo_filename = none;
  template = string content;
  letter_languages = none;
  letter_attachment = none;
  values = none;
  letter_contact_block = none;
  date = none;
}

abbrev pub letter : String → String → QueuedLetter
letter filename content = record {
  notification_id = "n1";
  letter_filename = filename;
  key_type = "normal";
  letter = plain_letter content;
}

abbrev pub text_of : Json → String
text_of (string s) = s
text_of (object (member k v ms)) = if eq_str k "service" then "short" else ""
text_of _ = ""

abbrev details_of : String → Result QueuedLetter
details_of token =
    if eq_str token "short"
    then ok (letter "2024/A.PDF" "short")
    else if eq_str token "long"
    then ok (letter "2024/A.PDF" "long")
    else if eq_str token "no image"
    then ok (letter "2024/A.PDF" "no image")
    else raised Exn.other

-- A page with a broken image, and one with a broken style.
abbrev reports_of : String → List (String × List String)
reports_of html =
    if eq_str html "no image"
    then ("Failed to load image at %r: %s", "x.png" ∷ "404" ∷ []) ∷ []
    else if eq_str html "no style"
    then ("Failed to load stylesheet", []) ∷ []
    else []

abbrev page_bytes : String → Result Bytes
page_bytes html = if eq_str html "long" then ok (4 ∷ 4 ∷ 4 ∷ 4 ∷ []) else ok (4 ∷ [])

abbrev small_int : String → Result ℤ
small_int t =
    if eq_str t "1" then ok (pos 1) else if eq_str t "0" then ok (pos 0) else raised Exn.value_error

-- Services whose copies fail or do not fail.
abbrev pub services : Bool → Services
services copies = record {
  config = config;
  S3 = Files;
  s3download = λ files b k. files b k;
  s3upload = λ files u. ok (put_file u.bucket_name u.file_location (ok u.filedata) files);
  copy_object = λ files c.
      if copies
      then ok (
          put_file c.target_bucket c.target_filename (files c.source_bucket c.source_filename)
            files)
      else raised Exn.boto_client_error;
  encode = λ d. "signed";
  decode = details_of;
  Datetime = String;
  parse_date = λ s. ok s;
  print_template = λ a. text_of a.template;
  preview_template = λ a. text_of a.template;
  letter_max_page_count = 3;
  reported = reports_of;
  rendered = page_bytes;
  sha1_hexdigest = λ s. s;
  quote = λ s. s;
  lower = λ s. s;
  int = small_int;
  format = text_of;
  retry = λ task e. record { raises = Exn.retry; is_sent = true };
}

-- A result as a store, for the equation between two stores.
abbrev store_of : Files → Result Files → Files
store_of files (ok s) = s
store_of files (raised e) = files

pub services-IsLawful : (copies : Bool) → IsLawful (services copies)
services-IsLawful true = record {
  download-upload = λ s t u b k h. ap (λ r. store_of s r b k) (sym h);
  download-copy = λ s t c b k h. ap (λ r. store_of s r b k) (sym h);
}
services-IsLawful false = record {
  download-upload = λ s t u b k h. ap (λ r. store_of s r b k) (sym h);
  download-copy = λ s t c b k h. cc;
}
