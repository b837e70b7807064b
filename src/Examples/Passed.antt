-- ===== src/Examples/Passed.antt =====
-- What the theorems on accepted letters say of a letter of two pages.
use notifications_template_p.Prelude.{
  ◌↔◌, ℕ, String, ◌≤◌, ◌≡◌, refl, ap, ◌⊎◌, Bool, true, false, List, [], ◌∷◌, Option, some,
  get_elem?, if◌then◌else◌,
}
use notifications_template_p.Python.Errors.{ok}
use notifications_template_p.Python.Stream.{BytesIo, bytes_io}
use notifications_template_p.Python.Base64.{b64encode}
use notifications_template_p.Transformation.{convert_pdf_to_cmyk}
use notifications_template_p.Precompiled.Overlay.{overlay_printable_areas_with_white}
use notifications_template_p.Precompiled.Extraction.{has_notify_tag}
use notifications_template_p.Precompiled.Validation.{image_is_white, get_invalid_pages_with_message}
use notifications_template_p.Precompiled.Validation.Messages.{PageIsA4Portrait}
use notifications_template_p.Precompiled.Validation.Accepts.{accepted}
use notifications_template_p.Precompiled.Sanitise.{
  SanitisationDetails, normalise_colours, rewrite_or_normalise, sanitise_file_contents,
}
use notifications_template_p.Precompiled.Sanitise.Rewrite.{normalise_colours-scan}
use notifications_template_p.Transformation.Scan.{HasImage}
use notifications_template_p.External.{Libraries}
use notifications_template_p.Python.Text.{codes}
use notifications_template_p.Precompiled.Sanitise.Outcome.{
  IsPassed, IsFailed, sanitise_file_contents-outcome, sanitise_file_contents-passed,
}
use notifications_template_p.Examples.{toy}
use notifications_template_p.Examples.Letters.{good_letter, at_end, good_pages, good_sanitised}

-- A field of the answer, so that an equation between answers gives one between fields.
abbrev message_of : SanitisationDetails → Option String
message_of d = d.message

sanitise_file_contents-passed_example :
    (n : ℕ) × ((sanitise_file_contents toy good_letter false false).page_count ≡ some n)
    × (toy.pdf_page_count good_letter ≡ ok n)
    × (toy.is_letter_too_long n ≡ false)
    × (bad : List ℕ) × (f : BytesIo) × (get_invalid_pages_with_message toy
          (record { contents = good_letter; position = toy.left_at good_letter 0 })
          false
        ≡ ok ("", bad, f))
    × (g : BytesIo) × (rewrite_or_normalise toy f n false false
        ≡ ok (g, (sanitise_file_contents toy good_letter false false).recipient_address))
    × ((sanitise_file_contents toy good_letter false false).file ≡ some (b64encode g.contents))
sanitise_file_contents-passed_example =
    sanitise_file_contents-passed toy good_letter false false (ap message_of good_sanitised)

sanitise_file_contents-outcome_example :
    IsPassed true (sanitise_file_contents toy (7 ∷ []) false true)
    ⊎ IsFailed (sanitise_file_contents toy (7 ∷ []) false true)
sanitise_file_contents-outcome_example = sanitise_file_contents-outcome toy (7 ∷ []) false true

accepted_example :
    (◌≡◌ {A = List ℕ} [] [])
    × ((bytes_io good_letter).position ≡ 0)
    × ((bytes_io good_letter).contents ≡ (at_end good_letter).contents)
    × (pages : List ℕ) × (toy.parse good_letter ≡ ok pages)
    × ((i page : ℕ) → get_elem? pages i ≡ some page → PageIsA4Portrait toy page)
    × (overlaid : BytesIo) × (overlay_printable_areas_with_white toy (at_end good_letter) false
        ≡ ok (overlaid, bytes_io good_letter))
    × (images : List ℕ) × (toy.convert_from_bytes overlaid.contents ≡ ok images)
    × ((i image : ℕ) → get_elem? images i ≡ some image → image_is_white toy image ≡ true)
    × (doc : List ℕ) × (toy.open_document overlaid.contents ≡ ok doc)
    × ((i page : ℕ) → 1 ≤ i → get_elem? doc i ≡ some page → has_notify_tag toy page ≡ false)
accepted_example = accepted toy (at_end good_letter) (bytes_io good_letter) false [] good_pages

-- The one image of each page is CMYK.
abbrev cmyk_pages : Libraries
cmyk_pages = record toy {
  get_page_images = λ bytes i. ok (i ∷ []);
  colourspace = λ bytes x. ok (codes "DeviceCMYK");
}

normalise_colours-scan_example :
    (kept : Bool) × (normalise_colours cmyk_pages (at_end good_letter) ≡ (
      if kept
      then ok (bytes_io good_letter)
      else convert_pdf_to_cmyk cmyk_pages (bytes_io good_letter)))
    × ((kept ≡ true) ↔ (
        HasImage cmyk_pages (codes "CMYK") 2 (λ i. i ∷ []) (λ x. codes "DeviceCMYK")
        × ¬ HasImage cmyk_pages (codes "RGB") 2 (λ i. i ∷ []) (λ x. codes "DeviceCMYK")))
normalise_colours-scan_example =
    normalise_colours-scan cmyk_pages (at_end good_letter) good_letter (λ i. i ∷ [])
      (λ x. codes "DeviceCMYK") refl (record { listed = λ i h. refl; named = λ i x h k. refl })
