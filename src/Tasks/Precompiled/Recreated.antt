-- ===== src/Tasks/Precompiled/Recreated.antt =====
-- What the tasks that make a precompiled letter or an attachment again leave behind.
use Prim.Native.String.{◌++◌ as ◌<>◌}
use text.Mathlib.TextPositions.{eq_refl}
use notifications_template_p.Prelude.{
  ℕ, ◌≡◌, ◌∙◌, inl, inr, String, Bool, true, false, [], ◌∷◌, none, some, All, arith,
}
use notifications_template_p.Python.Errors.{ok, Result-cases}
use notifications_template_p.Templated.{get_transient_letter_file_location}
use notifications_template_p.Python.Text.{str}
use notifications_template_p.Python.Stream.{Bytes}
use notifications_template_p.Python.Base64.{b64encode, IsByte}
use notifications_template_p.External.{Libraries}
use notifications_template_p.Storage.{Services, IsLawful, World}
use notifications_template_p.Precompiled.Sanitise.{sanitise_file_contents, has_message}
use notifications_template_p.Tasks.{
  file_of, recreate_pdf_for_precompiled_letter, recreate_pdf_for_template_letter_attachments,
}
use notifications_template_p.Tasks.Precompiled.{file_of-b64encode}

module _ (lib : Libraries) (V : Services) where
  open V use {S3, config}

  -- Re-creating a precompiled letter sends no message, whatever fails.
  pub recreate_pdf_for_precompiled_letter-quiet :
      (nid file_location : String) (allow : Bool) (w : World S3)
      → (recreate_pdf_for_precompiled_letter lib V nid file_location allow w).1.sent ≡ w.sent
  unfolding recreate_pdf_for_precompiled_letter
  recreate_pdf_for_precompiled_letter-quiet nid file_location allow w =
      elim (Result-cases (
        V.s3download w.s3 config.precompiled_originals_backup_letter_bucket_name (nid <> ".pdf"))) [
          | inr (e, r) ↦ ground arith
          | inl (pdf, r) ↦
              elim (Result-cases (file_of (sanitise_file_contents lib pdf allow false))) [
                | inr (e, r1) ↦ ground arith
                | inl (bytes, r1) ↦ ground arith
              ]
        ]

  -- Re-creating a precompiled letter that no longer passes ends without an exception, and changes nothing.
  pub recreate_pdf_for_precompiled_letter-refused :
      (nid file_location : String) (allow : Bool) (w : World S3) (pdf : Bytes)
      → V.s3download w.s3 config.precompiled_originals_backup_letter_bucket_name (nid <> ".pdf")
        ≡ ok pdf
      → has_message (sanitise_file_contents lib pdf allow false) ≡ true
      → recreate_pdf_for_precompiled_letter lib V nid file_location allow w ≡ (ok tt, w)
  unfolding recreate_pdf_for_precompiled_letter
  recreate_pdf_for_precompiled_letter-refused nid file_location allow w pdf e m = ground arith

  -- Re-creating a precompiled letter that still passes puts the rewritten bytes in the bucket of final letters, under the given name, whatever was there before.
  pub recreate_pdf_for_precompiled_letter-stores :
      IsLawful V
      → (nid file_location : String) (allow : Bool) (pdf bytes : Bytes) (w : World S3) (s : S3)
      → V.s3download w.s3 config.precompiled_originals_backup_letter_bucket_name (nid <> ".pdf")
        ≡ ok pdf
      → (sanitise_file_contents lib pdf allow false).message ≡ none
      → (sanitise_file_contents lib pdf allow false).file ≡ some (b64encode bytes)
      → All IsByte bytes
      → V.s3upload w.s3 (record {
        bucket_name = config.letters_pdf_bucket_name;
        file_location = file_location;
        filedata = bytes;
        metadata = [];
      })
        ≡ ok s
      → (recreate_pdf_for_precompiled_letter lib V nid file_location allow w
          ≡ (ok tt, record w { s3 = s }))
        × (V.s3download s config.letters_pdf_bucket_name file_location ≡ ok bytes)
  unfolding recreate_pdf_for_precompiled_letter
  recreate_pdf_for_precompiled_letter-stores lawful nid file_location allow pdf bytes w s e m f h
        u =
      let letters : String = config.letters_pdf_bucket_name in
      (
        ground (arith, file_of-b64encode (sanitise_file_contents lib pdf allow false) bytes f h),
        lawful.download-upload w.s3 s _ letters file_location u
            ∙ rw (eq_refl letters, eq_refl file_location),
      )

  -- Re-creating an attachment that still passes uploads the rewritten bytes to the attachment's place, with the number of pages and the quoted original name as metadata, and sends nothing.
  pub recreate_pdf_for_template_letter_attachments-uploads :
      (service_id attachment_id original_filename : String) (pdf bytes : Bytes) (n : ℕ)
      (w : World S3) (s : S3)
      → V.s3download w.s3 config.precompiled_originals_backup_letter_bucket_name
          (attachment_id <> ".pdf")
        ≡ ok pdf
      → (sanitise_file_contents lib pdf false true).message ≡ none
      → (sanitise_file_contents lib pdf false true).page_count ≡ some n
      → (sanitise_file_contents lib pdf false true).file ≡ some (b64encode bytes)
      → All IsByte bytes
      → V.s3upload w.s3 (record {
        bucket_name = config.letter_attachment_bucket_name;
        file_location = "service-" <> (service_id <> ("/" <> (attachment_id <> ".pdf")));
        filedata = bytes;
        metadata = ("page_count", str n) ∷ ("filename", V.quote original_filename) ∷ [];
      })
        ≡ ok s
      → recreate_pdf_for_template_letter_attachments lib V service_id attachment_id
          original_filename w
        ≡ (ok tt, record w { s3 = s })
  unfolding recreate_pdf_for_template_letter_attachments get_transient_letter_file_location
  recreate_pdf_for_template_letter_attachments-uploads service_id attachment_id original_filename
        pdf bytes n w s e m c f h u =
      ground (arith, file_of-b64encode (sanitise_file_contents lib pdf false true) bytes f h)
