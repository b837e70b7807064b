-- ===== src/Fonts.antt =====
-- app/embedded_fonts.py: the search for fonts that are not embedded, and Ghostscript's embedding.
pub mod Reach
pub mod Ends
pub mod Sets
pub mod Found
use text.Mathlib.Text.{◌==◌ as eq_str}
use notifications_template_p.Prelude.{
  ℕ, zero, suc, Bool, true, false, not, ◌&&◌, ◌||◌, String, List, [], ◌∷◌, Option, none, some,
  if◌then◌else◌,
}
use notifications_template_p.Prelude.Int.{ℤ, pos, eq_ℤ}
use notifications_template_p.Python.Errors.{Exn, Result, ok, raised, ◌>>=◌, ◌>>◌, raise_if}
use notifications_template_p.Python.Stream.{Bytes, BytesIo, bytes_io, rewind, read}
use notifications_template_p.External.{
  Libraries, Completed, Scalar, name, atom, PdfObject, scalar, dictionary, array, indirect_object,
  Entries, no_entries, entry, Items, no_items, item,
}
use notifications_template_p.Precompiled.Overlay.{pdf_reader}

-- The two sets of `walk`, in the order in which names are added.
pub record FontSets : Type 0 where
  pub used : List Scalar
  pub embedded : List Scalar

abbrev pub eq_scalar : Scalar → Scalar → Bool
eq_scalar (name a) (name b) = eq_str a b
eq_scalar (atom a) (atom b) = eq_str a b
eq_scalar _ _ = false

abbrev pub contains : List Scalar → Scalar → Bool
contains [] a = false
contains (x ∷ xs) a = eq_scalar a x || contains xs a

-- `set.add`
abbrev pub add : Scalar → List Scalar → List Scalar
add a xs = if contains xs a then xs else a ∷ xs

-- `a - b` of two sets.
unfoldable pub difference : List Scalar → List Scalar → List Scalar
difference [] ys = []
difference (x ∷ xs) ys = let rest = difference xs ys in if contains ys x then rest else x ∷ rest

-- The value under a key, as it is stored.
unfoldable pub get_entry : String → Entries → Option PdfObject
get_entry key no_entries = none
get_entry key (entry k v es) = if eq_str key k then some v else get_entry key es

unfoldable pub has_entry : String → Entries → Bool
has_entry key es = elim (get_entry key es) [ none ↦ false | some _ ↦ true ]

-- The loop `for k in obj.keys(): walk(obj[k], …)`, with the call of `walk` handed in.
unfoldable pub walk_entries :
    (PdfObject → FontSets → Result FontSets) → Entries → FontSets → Result FontSets
walk_entries call no_entries sets = ok sets
walk_entries call (entry k v es) sets = do sets' ← call v sets; walk_entries call es sets'

-- The loop `for child in obj: walk(child, …)`.
unfoldable pub walk_items :
    (PdfObject → FontSets → Result FontSets) → Items → FontSets → Result FontSets
walk_items call no_items sets = ok sets
walk_items call (item o os) sets = do sets' ← call o sets; walk_items call os sets'

-- `set.add(o)`: dictionaries and lists cannot be put in a set.
unfoldable pub add_object : PdfObject → List Scalar → Result (List Scalar)
add_object (scalar a) xs = ok (add a xs)
add_object _ xs = raised Exn.type_error

-- That `"Type3" in o` can be asked: of a text, a dictionary or a list, not of a number or of null.
unfoldable pub check_container : PdfObject → Result (Unit {0})
check_container (scalar (atom _)) = raised Exn.type_error
check_container o = ok tt

module _ (lib : Libraries) where
  open lib use {Page, get_object, resources, stack_depth, ghostscript}

  -- `obj[key]`, which follows a reference.
  unfoldable pub resolve : Bytes → PdfObject → Result PdfObject
  resolve doc (indirect_object n) = get_object doc n
  resolve doc o = ok o

  -- `sets.add(obj[key])` if the key is there and `extra` holds.
  unfoldable pub add_entry : Bytes → String → Bool → Entries → List Scalar → Result (List Scalar)
  add_entry doc key extra es xs = elim (get_entry key es) [
    | none ↦ ok xs
    | some v ↦ if not extra then ok xs else do o ← resolve doc v; add_object o xs
  ]

  -- `if "/Subtype" in obj and "Type3" in obj["/Subtype"]`; what it logs is left out.
  unfoldable pub look_for_type3 : Bytes → Entries → Result (Unit {0})
  look_for_type3 doc es = elim (get_entry "/Subtype" es) [
    | none ↦ ok tt
    | some v ↦ do o ← resolve doc v; check_container o
  ]

  -- What `walk` does with a dictionary itself.
  unfoldable pub note_fonts : Bytes → Entries → FontSets → Result FontSets
  note_fonts doc es sets = do
    used ← add_entry doc "/BaseFont" true es sets.used
    embedded ←
        add_entry doc "/FontName"
          (has_entry "/FontFile" es || has_entry "/FontFile2" es || has_entry "/FontFile3" es) es
          sets.embedded
    look_for_type3 doc es
    ok (record { used = used; embedded = embedded })

  -- `walk`, with the depth of calls that is left.
  unfoldable pub walk : ℕ → Bytes → PdfObject → FontSets → Result FontSets
  walk zero doc o sets = raised Exn.recursion_error
  walk (suc depth) doc (dictionary es) sets = do
    noted ← note_fonts doc es sets
    walk_entries (λ v s. do o ← resolve doc v; walk depth doc o s) es noted
  walk (suc depth) doc (array os) sets = walk_items (walk depth doc) os sets
  walk (suc depth) doc (indirect_object n) sets = do o ← get_object doc n; walk depth doc o sets
  walk (suc depth) doc (scalar _) sets = ok sets

  -- The loop over the pages.
  unfoldable pub walk_pages : Bytes → List Page → FontSets → Result FontSets
  walk_pages doc [] sets = ok sets
  walk_pages doc (p ∷ ps) sets = do
    o ← resources p
    sets' ← walk stack_depth doc o sets
    walk_pages doc ps sets'

  -- `contains_unembedded_fonts`, with the stream at its beginning again.
  unfoldable pub contains_unembedded_fonts : BytesIo → Result (List Scalar × BytesIo)
  contains_unembedded_fonts pdf_data = do
    (pages, f) ← pdf_reader lib pdf_data
    sets ← walk_pages f.contents pages (record { used = []; embedded = [] })
    ok (difference sets.used sets.embedded, rewind f)

  abbrev pub embed_arguments : List String
  embed_arguments =
      "-o" ∷ "%stdout" ∷ "-sDEVICE=pdfwrite" ∷ "-sstdout=%stderr" ∷ "-dAutoRotatePages=/None" ∷ "-c"
      ∷ "<</NeverEmbed [ ]>> setdistillerparams" ∷ "-f" ∷ "%stdin" ∷ []

  -- `embed_fonts`. What the message quotes of the process is left out.
  unfoldable pub embed_fonts : BytesIo → Result BytesIo
  embed_fonts pdf_data = do
    let gs_process = ghostscript embed_arguments (read pdf_data).0
    raise_if (not (eq_ℤ gs_process.returncode (pos 0)))
        (Exn.exception "ghostscript font embed process failed with return code")
    ok (bytes_io gs_process.stdout)
