-- ===== src/Precompiled/Extraction.antt =====
-- How app/precompiled.py reads the text inside a rectangle of a page.
pub mod Order
pub mod Inside
pub mod Lines
use notifications_template_p.Prelude.{
  ◌==◌, ltb, Bool, ◌&&◌, ◌||◌, List, [], ◌∷◌, if◌then◌else◌, map,
}
use notifications_template_p.Python.Errors.{Result, ok, ◌>>=◌, first}
use notifications_template_p.Python.Stream.{BytesIo, rewind}
use notifications_template_p.Python.Text.{Text, join, eq_text}
use notifications_template_p.External.{Libraries, Word}
use notifications_template_p.Geometry.Layout.{Rect, notify_tag_bounding_box}

-- The order of `itemgetter(-3, -2, -1)`: paragraph, then line, then position, strictly before.
abbrev pub is_before : Word → Word → Bool
is_before v w =
    ltb v.paragraph_number w.paragraph_number
    || (v.paragraph_number == w.paragraph_number
        && (ltb v.line_number w.line_number
            || (v.line_number == w.line_number && ltb v.word_position w.word_position)))

-- Insertion after the words that are not behind `w`, so that the sort is stable.
unfoldable pub insert_word : Word → List Word → List Word
insert_word w [] = w ∷ []
insert_word w (v ∷ vs) =
    let rest = insert_word w vs in if is_before w v then w ∷ v ∷ vs else v ∷ rest

-- `mywords.sort(key=…)`, of the words in the order in which they are handed in.
unfoldable pub sort_words_onto : List Word → List Word → List Word
sort_words_onto sorted [] = sorted
sort_words_onto sorted (w ∷ ws) = sort_words_onto (insert_word w sorted) ws

unfoldable pub sort_words : List Word → List Word
sort_words ws = sort_words_onto [] ws

-- The key of `itemgetter(5, 6)`.
abbrev pub same_line : Word → Word → Bool
same_line v w = v.paragraph_number == w.paragraph_number && v.line_number == w.line_number

-- A word put in front of a grouping of what follows it.
unfoldable pub put_in_group : Word → List (List Word) → List (List Word)
put_in_group w [] = (w ∷ []) ∷ []
put_in_group w ([] ∷ gs) = (w ∷ []) ∷ gs
put_in_group w ((v ∷ g) ∷ gs) = if same_line w v then (w ∷ v ∷ g) ∷ gs else (w ∷ []) ∷ (v ∷ g) ∷ gs

-- `itertools.groupby(mywords, key=itemgetter(5, 6))`
unfoldable pub group_by_line : List Word → List (List Word)
group_by_line [] = []
group_by_line (w ∷ ws) = put_in_group w (group_by_line ws)

abbrev pub word_text : Word → Text
word_text w = w.word

-- `" ".join(w[4] for w in gwords)`
abbrev pub line_text : List Word → Text
line_text ws = join (b' ' ∷ []) (map word_text ws)

-- The letters of "NOTIFY".
abbrev pub notify_tag_text : Text
notify_tag_text = b'N' ∷ b'O' ∷ b'T' ∷ b'I' ∷ b'F' ∷ b'Y' ∷ []

module _ (lib : Libraries) where
  open lib use {MuPage, open_document, get_text_words, intersects, nfkd}

  -- `[w for w in words if pymupdf.Rect(w[:4]).intersects(rect)]`
  unfoldable pub words_in : Rect → List Word → List Word
  words_in rect [] = []
  words_in rect (w ∷ ws) =
      let rest = words_in rect ws in
      if intersects (record { x1 = w.x1; y1 = w.y1; x2 = w.x2; y2 = w.y2 }) rect
      then w ∷ rest
      else rest

  -- `_extract_text_from_page`. The comparisons with other ways of extraction are only logged.
  unfoldable pub extract_text_from_page : MuPage → Rect → Text
  extract_text_from_page page rect =
      let mywords = sort_words (words_in rect (get_text_words page)) in
      nfkd (join (10 ∷ []) (map line_text (group_by_line mywords)))

  -- `_extract_text_from_first_page_of_pdf`
  unfoldable pub extract_text_from_first_page_of_pdf : BytesIo → Rect → Result (Text × BytesIo)
  extract_text_from_first_page_of_pdf pdf rect = do
    doc ← open_document pdf.contents
    page ← first doc
    ok (extract_text_from_page page rect, rewind pdf)

  -- The test that `_get_pages_with_notify_tag` makes of a page.
  unfoldable pub has_notify_tag : MuPage → Bool
  has_notify_tag page =
      eq_text (extract_text_from_page page notify_tag_bounding_box) notify_tag_text

  -- `is_notify_tag_present`
  unfoldable pub is_notify_tag_present : BytesIo → Result (Bool × BytesIo)
  is_notify_tag_present pdf = do
    (text, f) ← extract_text_from_first_page_of_pdf pdf notify_tag_bounding_box
    ok (eq_text text notify_tag_text, f)
