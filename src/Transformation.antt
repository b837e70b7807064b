-- ===== src/Transformation.antt =====
-- app/transformation.py: which colour spaces the images of a document have, and Ghostscript's
-- conversion to CMYK.
pub mod Scan
use Prim.Native.String.{◌++◌ as ◌<>◌}
use notifications_template_p.Prelude.{
  ℕ, zero, suc, Bool, true, false, not, ◌&&◌, String, List, [], ◌∷◌, length, if◌then◌else◌,
}
use notifications_template_p.Prelude.Int.{pos, eq_ℤ}
use notifications_template_p.Python.Errors.{Exn, Result, ok, raised, ◌>>=◌, ◌>>◌, raise_if}
use notifications_template_p.Python.Stream.{Bytes, BytesIo, bytes_io, rewind, read}
use notifications_template_p.Python.Text.{Text, is_in, codes, str}
use notifications_template_p.External.{Libraries}

-- The command line of `convert_pdf_to_cmyk`, after `gs`.
abbrev pub cmyk_arguments : List String
cmyk_arguments =
    "-q" ∷ "-o" ∷ "-" ∷ "-dCompatibilityLevel=1.7" ∷ "-sDEVICE=pdfwrite"
    ∷ "-sColorConversionStrategy=CMYK" ∷ "-sSourceObjectICC=app/ghostscript/control.txt"
    ∷ "-dBandBufferSpace=100000000" ∷ "-dBufferSpace=100000000" ∷ "-dMaxPatternBitmap=1000000"
    ∷ "-dAutoRotatePages=/None" ∷ "-c" ∷ "100000000 setvmthreshold" ∷ "-f" ∷ "-" ∷ []

module _ (lib : Libraries) where
  open lib use {open_document, get_page_images, colourspace, ghostscript}

  -- The loop over the images of a page.
  unfoldable pub images_contain : Text → Bytes → List ℕ → Result Bool
  images_contain wanted doc [] = ok false
  images_contain wanted doc (xref ∷ xrefs) = do
    let rest = images_contain wanted doc xrefs
    space ← colourspace doc xref
    if is_in wanted space then ok true else rest

  -- The loop over the pages: how many are left, and the index of the next one.
  unfoldable pub pages_contain : Text → Bytes → ℕ → ℕ → Result Bool
  pages_contain wanted doc zero i = ok false
  pages_contain wanted doc (suc left) i =
      let rest = pages_contain wanted doc left (suc i) in
      elim (get_page_images doc i) [
        | raised Exn.runtime_error ↦
            raised (Exn.invalid_request ("Invalid PDF on page " <> str (suc i)))
        | raised e ↦ raised e
        | ok xrefs ↦ do found ← images_contain wanted doc xrefs; if found then ok true else rest
      ]

  -- `_does_pdf_contain_colorspace`, with the stream at its beginning again.
  unfoldable pub does_pdf_contain_colorspace : Text → BytesIo → Result (Bool × BytesIo)
  does_pdf_contain_colorspace colourspace data_file = do
    doc ← open_document data_file.contents
    found ← pages_contain colourspace data_file.contents (length doc) 0
    ok (found, rewind data_file)

  unfoldable pub does_pdf_contain_cmyk : BytesIo → Result (Bool × BytesIo)
  does_pdf_contain_cmyk f = does_pdf_contain_colorspace (codes "CMYK") f

  unfoldable pub does_pdf_contain_rgb : BytesIo → Result (Bool × BytesIo)
  does_pdf_contain_rgb f = does_pdf_contain_colorspace (codes "RGB") f

  -- `convert_pdf_to_cmyk`. What the second message quotes of the process is left out.
  unfoldable pub convert_pdf_to_cmyk : BytesIo → Result BytesIo
  convert_pdf_to_cmyk input_data = do
    let gs_process = ghostscript cmyk_arguments (read input_data).0
    let error_in_stream =
        is_in (codes "**** Error") gs_process.stdout
        && is_in (codes "Output may be incorrect.") gs_process.stdout
    raise_if error_in_stream
        (Exn.exception "ghostscript cmyk transformation failed to read all content streams")
    raise_if (not (eq_ℤ gs_process.returncode (pos 0)))
        (Exn.exception "ghostscript cmyk transformation failed with return code")
    ok (bytes_io gs_process.stdout)
