-- ===== src/Preview/Uncached.antt =====
-- `png_from_pdf` and `get_pdf` against what they draw without their caches.
use Prim.Native.String.{◌++◌ as ◌<>◌}
use notifications_template_p.Prelude.{◌≡◌, refl, subst, String, Bool}
use notifications_template_p.Prelude.Int.{ℤ}
use notifications_template_p.Python.Errors.{Result, ok, raised, ◌>>=◌}
use notifications_template_p.Python.Stream.{BytesIo}
use notifications_template_p.External.{Libraries}
use notifications_template_p.Storage.{Services, IsLawful, World, lift, ◌>>=◌ as ◌>>>◌}
use notifications_template_p.Cache.{cache_key, cached_call}
use notifications_template_p.Cache.Coherent.{IsAvailable, IsFresh, IsCoherent, cached_call-refines}
use notifications_template_p.Preview.Pages.{requested_page, draw_page}
use notifications_template_p.Preview.Letters.{str_bool, png_from_pdf, draw_letter, get_pdf}

module _ (lib : Libraries) (V : Services) where
  open V use {S3}
  open lib use {Page, dumps, bytes_text}

  -- The keys of an image and of a letter.
  abbrev pub png_key : Page → Bool → String
  png_key page hide = cache_key V "pngs" "png" (bytes_text (dumps page) <> str_bool hide)

  abbrev pub letter_key : String → String
  letter_key html = cache_key V "templated" "pdf" html

  -- The image of a page of a PDF, drawn.
  abbrev pub drawing : BytesIo → ℤ → Bool → Result BytesIo
  drawing file page_number hide = do
    page ← requested_page lib file page_number
    draw_page lib (dumps page) hide

  module _ (generated : String → Result BytesIo) (lawful : IsLawful V) (available : IsAvailable V)
      (fresh : IsFresh generated) where
    cached-refines :
        (key : String) (drawn : Result BytesIo) (w : World S3)
        → generated key ≡ drawn
        → IsCoherent V generated w
        → ((cached_call V key (lift drawn) w).0 ≡ drawn)
          × IsCoherent V generated (cached_call V key (lift drawn) w).1
    cached-refines key drawn w e h =
        subst
          (λ d.
            ((cached_call V key (lift d) w).0 ≡ d)
            × IsCoherent V generated (cached_call V key (lift d) w).1)
          e (cached_call-refines V generated lawful available fresh key w h)

    -- `png_from_pdf` gives exactly the image, or the error, that drawing the page gives, and what
    -- is cached stays right, under these conditions: S3 keeps its promises and answers, what is
    -- cached for each key is what is generated for that key, which is bytes from their start, and
    -- for the key of the requested page that is the image of this page.
    pub png_from_pdf-refines :
        (file : BytesIo) (page_number : ℤ) (hide : Bool) (w : World S3)
        → ((page : Page)
            → requested_page lib file page_number ≡ ok page
            → generated (png_key page hide) ≡ draw_page lib (dumps page) hide)
        → IsCoherent V generated w
        → ((png_from_pdf lib V file page_number hide w).0 ≡ drawing file page_number hide)
          × IsCoherent V generated (png_from_pdf lib V file page_number hide w).1
    unfolding png_from_pdf
    png_from_pdf-refines file page_number hide w keyed h =
        go (requested_page lib file page_number) refl
      where
        go :
            (r : Result Page)
            → requested_page lib file page_number ≡ r
            → (((lift r >>> λ page.
                    cached_call V (png_key page hide) (lift (draw_page lib (dumps page) hide)))
                  w).0
                ≡ (r >>= λ page. draw_page lib (dumps page) hide))
              × IsCoherent V generated
                  ((lift r >>> λ page.
                      cached_call V (png_key page hide) (lift (draw_page lib (dumps page) hide)))
                    w).1
        go (ok page) e =
            cached-refines (png_key page hide) (draw_page lib (dumps page) hide) w (keyed page e) h
        go (raised x) e = (refl, h)

    -- `get_pdf` gives exactly the PDF, or the error, that WeasyPrint gives for the HTML, and what
    -- is cached stays right, under these conditions: S3 keeps its promises and answers, what is
    -- cached for each key is what is generated for that key, which is bytes from their start, and
    -- for the key of the HTML that is the PDF of this HTML.
    pub get_pdf-refines :
        (html : String) (w : World S3)
        → generated (letter_key html) ≡ draw_letter lib V html
        → IsCoherent V generated w
        → ((get_pdf lib V html w).0 ≡ draw_letter lib V html)
          × IsCoherent V generated (get_pdf lib V html w).1
    unfolding get_pdf
    get_pdf-refines html w keyed h =
        cached-refines (letter_key html) (draw_letter lib V html) w keyed h
