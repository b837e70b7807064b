-- ===== src/Tasks/Precompiled.antt =====
-- What the task for precompiled letters of app/celery/tasks.py leaves behind.
pub mod Recreated
use Prim.Native.String.{◌++◌ as ◌<>◌}
use text.Mathlib.Text.{◌==◌ as eq_str}
use text.Mathlib.TextPositions.{eq_refl}
use notifications_template_p.Prelude.{
  ℕ, ◌≡◌, refl, ◌∙◌, ◌⊎◌, inl, inr, String, Bool, true, false, [], ◌∷◌, ◌++◌, none, some, All,
  arith, Bool-cases, if◌then◌else◌,
}
use notifications_template_p.Python.Errors.{Exn, ok, raised, Result-cases}
use notifications_template_p.Templated.{get_transient_letter_file_location}
use notifications_template_p.Python.Text.{str}
use notifications_template_p.Python.Stream.{Bytes}
use notifications_template_p.Python.Base64.{b64encode, b64decode-b64encode, IsByte}
use notifications_template_p.External.{Libraries}
use notifications_template_p.Storage.{
  Services, IsLawful, World, Upload, Copy, copy_s3_object, is_boto_client_error,
}
use notifications_template_p.Precompiled.Sanitise.{
  SanitisationDetails, sanitise_file_contents, has_message,
}
use notifications_template_p.Tasks.{
  file_of, upload_if_passed, sanitise_and_upload, sanitised_message, sanitise_and_upload_letter,
  recreate_pdf_for_precompiled_letter, recreate_pdf_for_template_letter_attachments,
}

pub file_of-b64encode :
    (d : SanitisationDetails) (bytes : Bytes)
    → d.file ≡ some (b64encode bytes)
    → All IsByte bytes
    → file_of d ≡ ok bytes
unfolding file_of
file_of-b64encode d bytes e h = rw (e, file_of) (rw (b64decode-b64encode bytes h))

module _ (lib : Libraries) (V : Services) where
  open V use {S3, config}

  -- The upload of a sanitised letter, and the copy of its original.
  abbrev pub sanitised_upload : String → Bytes → Upload
  sanitised_upload filename bytes = record {
    bucket_name = config.sanitised_letter_bucket_name;
    file_location = filename;
    filedata = bytes;
    metadata = [];
  }

  abbrev pub backup_copy : String → String → Copy
  backup_copy notification_id filename = record {
    source_bucket = config.letters_scan_bucket_name;
    source_filename = filename;
    target_bucket = config.precompiled_originals_backup_letter_bucket_name;
    target_filename = notification_id <> ".pdf";
  }

  upload_if_passed-passed :
      (nid filename : String) (d : SanitisationDetails) (bytes : Bytes) (w : World S3) (s t : S3)
      → d.message ≡ none
      → d.file ≡ some (b64encode bytes)
      → All IsByte bytes
      → V.s3upload w.s3 (sanitised_upload filename bytes) ≡ ok s
      → V.copy_object s (backup_copy nid filename) ≡ ok t
      → upload_if_passed lib V nid filename d w ≡ (ok "passed", record w { s3 = t })
  unfolding upload_if_passed copy_s3_object
  upload_if_passed-passed nid filename d bytes w s t m f h u c =
      ground (arith, file_of-b64encode d bytes f h)

  -- A letter that is refused leaves S3 alone and is reported as failed, with its message.
  pub sanitise_and_upload_letter-failed :
      (group nid filename : String) (allow : Bool) (pdf : Bytes) (w : World S3)
      → V.s3download w.s3 config.letters_scan_bucket_name filename ≡ ok pdf
      → has_message (sanitise_file_contents lib pdf allow false) ≡ true
      → sanitise_and_upload_letter lib V group nid filename allow w ≡ (
        ok tt,
        record w {
          sent =
              w.sent
              ++ (sanitised_message lib V group nid filename
                    (sanitise_file_contents lib pdf allow false)
                    "failed"
                  ∷ []);
        },
      )
  unfolding sanitise_and_upload_letter sanitise_and_upload upload_if_passed
  sanitise_and_upload_letter-failed group nid filename allow pdf w e m = ground arith

  -- A letter that passes, and that S3 stores and backs up, leaves S3 as after the upload and the copy, and is reported as passed.
  pub sanitise_and_upload_letter-passed :
      (group nid filename : String) (allow : Bool) (pdf bytes : Bytes) (w : World S3) (s t : S3)
      → V.s3download w.s3 config.letters_scan_bucket_name filename ≡ ok pdf
      → (sanitise_file_contents lib pdf allow false).message ≡ none
      → (sanitise_file_contents lib pdf allow false).file ≡ some (b64encode bytes)
      → All IsByte bytes
      → V.s3upload w.s3 (sanitised_upload filename bytes) ≡ ok s
      → V.copy_object s (backup_copy nid filename) ≡ ok t
      → sanitise_and_upload_letter lib V group nid filename allow w ≡ (
        ok tt,
        record w {
          s3 = t;
          sent =
              w.sent
              ++ (sanitised_message lib V group nid filename
                    (sanitise_file_contents lib pdf allow false)
                    "passed"
                  ∷ []);
        },
      )
  unfolding sanitise_and_upload_letter sanitise_and_upload
  sanitise_and_upload_letter-passed group nid filename allow pdf bytes w s t e m f h u c = ground (
    arith,
    upload_if_passed-passed nid filename (sanitise_file_contents lib pdf allow false) bytes w s t m
        f h u c,
  )

  -- When a letter passes, the file in the answer is the base64 of some bytes, and S3, which is lawful, takes the upload and the copy, those bytes can be downloaded from the sanitised bucket and the original from the backup bucket, and exactly one message, "passed", has been added. The sanitised bucket has another name than the scan and the backup bucket.
  pub sanitise_and_upload_letter-stores :
      IsLawful V
      → eq_str config.letters_scan_bucket_name config.sanitised_letter_bucket_name ≡ false
      → eq_str config.sanitised_letter_bucket_name
          config.precompiled_originals_backup_letter_bucket_name
        ≡ false
      → (group nid filename : String) (allow : Bool) (pdf bytes : Bytes) (w : World S3) (s t : S3)
      → V.s3download w.s3 config.letters_scan_bucket_name filename ≡ ok pdf
      → (sanitise_file_contents lib pdf allow false).message ≡ none
      → (sanitise_file_contents lib pdf allow false).file ≡ some (b64encode bytes)
      → All IsByte bytes
      → V.s3upload w.s3 (sanitised_upload filename bytes) ≡ ok s
      → V.copy_object s (backup_copy nid filename) ≡ ok t
      → let (result, after) = sanitise_and_upload_letter lib V group nid filename allow w in
        (result ≡ ok tt)
        × (V.s3download after.s3 config.sanitised_letter_bucket_name filename ≡ ok bytes)
        × (V.s3download after.s3 config.precompiled_originals_backup_letter_bucket_name
              (nid <> ".pdf")
            ≡ ok pdf)
        × (after.sent
            ≡ w.sent
              ++ (sanitised_message lib V group nid filename
                    (sanitise_file_contents lib pdf allow false)
                    "passed"
                  ∷ []))
  sanitise_and_upload_letter-stores lawful apart apart' group nid filename allow pdf bytes w s t e m
        f h u c =
      let scan : String = config.letters_scan_bucket_name in
      let clean : String = config.sanitised_letter_bucket_name in
      let backup : String = config.precompiled_originals_backup_letter_bucket_name in
      let kept : V.s3download s scan filename ≡ ok pdf =
        lawful.download-upload w.s3 s _ scan filename u ∙ rw apart e in
      let put : V.s3download s clean filename ≡ ok bytes =
        lawful.download-upload w.s3 s _ clean filename u ∙ rw (eq_refl clean, eq_refl filename) in
      let stored : V.s3download t clean filename ≡ ok bytes =
        lawful.download-copy s t _ clean filename c ∙ rw apart' put in
      let copied : V.s3download t backup (nid <> ".pdf") ≡ ok pdf =
        lawful.download-copy s t _ backup (nid <> ".pdf") c
        ∙ rw (eq_refl backup, eq_refl (nid <> ".pdf")) kept in
      rw (sanitise_and_upload_letter-passed group nid filename allow pdf bytes w s t e m f h u c)
        (refl, stored, copied, refl)

  upload_if_passed-status :
      (nid filename : String) (d : SanitisationDetails) (w : World S3)
      → ((upload_if_passed lib V nid filename d w).1.sent ≡ w.sent)
        × ((status : String)
            → (upload_if_passed lib V nid filename d w).0 ≡ ok status
            → status ≡ (if has_message d then "failed" else "passed"))
  unfolding upload_if_passed copy_s3_object
  upload_if_passed-status nid filename d w = elim (Bool-cases (has_message d)) [
    | inl m ↦ (ground arith, λ status e. ground arith)
    | inr m ↦ elim (Result-cases (file_of d)) [
      | inr (x, r) ↦ (ground arith, λ status e. ground arith)
      | inl (bytes, r) ↦ elim (Result-cases (V.s3upload w.s3 (sanitised_upload filename bytes))) [
        | inr (x, r1) ↦ (ground arith, λ status e. ground arith)
        | inl (s, r1) ↦ (ground arith, λ status e. ground arith)
      ]
    ]
  ]

  -- However S3 behaves, a run either sends nothing, or ends without an exception and sends one message, about the file that was downloaded, whose status is "failed" exactly if it carries an error.
  pub sanitise_and_upload_letter-messages :
      (group nid filename : String) (allow : Bool) (w : World S3)
      → let (result, after) = sanitise_and_upload_letter lib V group nid filename allow w in
        (after.sent ≡ w.sent)
        ⊎ ((pdf : Bytes) × (V.s3download w.s3 config.letters_scan_bucket_name filename ≡ ok pdf)
            × (result ≡ ok tt)
            × (after.sent
                ≡ w.sent
                  ++ (sanitised_message lib V group nid filename
                        (sanitise_file_contents lib pdf allow false)
                        (if has_message (sanitise_file_contents lib pdf allow false)
                          then "failed"
                          else "passed")
                      ∷ [])))
  unfolding sanitise_and_upload_letter sanitise_and_upload
  sanitise_and_upload_letter-messages group nid filename allow w =
      elim (Result-cases (V.s3download w.s3 config.letters_scan_bucket_name filename)) [
        | inr (e, r) ↦ inl (ground arith)
        | inl (pdf, r) ↦
            let frame =
              upload_if_passed-status nid filename (sanitise_file_contents lib pdf allow false) w in
            elim (Result-cases
              (upload_if_passed lib V nid filename (sanitise_file_contents lib pdf allow false)
                w).0) [
                  | inr (e, r1) ↦ inl (ground arith)
                  | inl (status, r1) ↦ inr (pdf, r, ground arith, ground (arith, frame.1 status r1))
                ]
      ]

  -- If the copy of the original fails after the sanitised file was uploaded, the task ends without an exception or a message, and the sanitised file stays in its bucket.
  pub sanitise_and_upload_letter-copy_failed :
      IsLawful V
      → (group nid filename : String) (allow : Bool) (pdf bytes : Bytes) (w : World S3) (s : S3)
        (e : Exn)
      → V.s3download w.s3 config.letters_scan_bucket_name filename ≡ ok pdf
      → (sanitise_file_contents lib pdf allow false).message ≡ none
      → (sanitise_file_contents lib pdf allow false).file ≡ some (b64encode bytes)
      → All IsByte bytes
      → V.s3upload w.s3 (sanitised_upload filename bytes) ≡ ok s
      → V.copy_object s (backup_copy nid filename) ≡ raised e
      → is_boto_client_error e ≡ true
      → (sanitise_and_upload_letter lib V group nid filename allow w ≡ (ok tt, record w { s3 = s }))
        × (V.s3download s config.sanitised_letter_bucket_name filename ≡ ok bytes)
  unfolding sanitise_and_upload_letter sanitise_and_upload upload_if_passed copy_s3_object
  sanitise_and_upload_letter-copy_failed lawful group nid filename allow pdf bytes w s e d m f h u c
        b =
      let clean : String = config.sanitised_letter_bucket_name in
      (
        ground (arith, file_of-b64encode (sanitise_file_contents lib pdf allow false) bytes f h),
        lawful.download-upload w.s3 s _ clean filename u ∙ rw (eq_refl clean, eq_refl filename),
      )
