-- ===== src/Tasks/Frame.antt =====
-- A relation between the worlds before and after, if what the tasks do to S3 and to the queue keeps
-- it, is kept by the tasks, whatever they return or raise.
use Prim.Native.String.{◌++◌ as ◌<>◌}
use notifications_template_p.Prelude.{
  ◌≡◌, refl, ◌⊎◌, inl, String, Bool, true, false, [], ◌∷◌, if◌then◌else◌,
}
use notifications_template_p.Python.Errors.{Result, ok, raised}
use notifications_template_p.Python.Stream.{Bytes}
use notifications_template_p.External.{Libraries}
use notifications_template_p.Storage.{
  Services, World, Action, Message, Upload, ◌>>=◌, ◌>>◌, pure, lift, download, upload,
  copy_s3_object, send_task, is_boto_client_error,
}
use notifications_template_p.Storage.Steps.{Keeps, IsPreorder, Keeps-lift, Keeps->>=, Keeps-if}
use notifications_template_p.Cache.Frame.{Frame}
use notifications_template_p.Precompiled.Sanitise.{
  SanitisationDetails, sanitise_file_contents, has_message,
}
use notifications_template_p.Templated.{get_transient_letter_file_location}
use notifications_template_p.Tasks.Precompiled.{sanitised_upload, backup_copy}
use notifications_template_p.Tasks.{
  letters_queue, sanitise_letters_queue, create_pdf_task, process_sanitised_letter,
  update_billable_units_for_letter, update_validation_failed_for_templated_letter, str_page_count,
  try_else, file_of, upload_if_passed, sanitise_and_upload, sanitised_message,
  sanitise_and_upload_letter, recreate_pdf_for_precompiled_letter,
  recreate_pdf_for_template_letter_attachments,
}

-- A message goes to the queue of letters, under the name of one of the three tasks of the API, or to
-- the queue for sanitising, under the name of the task for templated letters.
abbrev pub IsAddressed : Message → Type 0
IsAddressed m =
    ((m.queue ≡ letters_queue)
      × ((m.name ≡ process_sanitised_letter)
          ⊎ ((m.name ≡ update_billable_units_for_letter)
              ⊎ (m.name ≡ update_validation_failed_for_templated_letter))))
    ⊎ ((m.queue ≡ sanitise_letters_queue) × (m.name ≡ create_pdf_task))

-- Such a message, and whatever the caches do, keeps the relation, and so does a chain of steps that do.
pub record IsKept (V : Services) (R : World V.S3 → World V.S3 → Type 0) : Type 0 where
  pub preorder : IsPreorder R
  pub told : (m : Message) → IsAddressed m → Keeps R (send_task m)
  pub cached : (w w' : World V.S3) → Frame V w w' → R w w'

-- So does an upload into a bucket.
abbrev pub MayPut : (V : Services) → (World V.S3 → World V.S3 → Type 0) → String → Type 0
MayPut V R bucket = (u : Upload) → u.bucket_name ≡ bucket → Keeps R (upload V u)

module _ (V : Services) {R : World V.S3 → World V.S3 → Type 0} (kept : IsKept V R) where
  open V use {S3, config}

  pub try_else-Keeps :
      {A : Type 0} (body : Action S3 A) (after : A → Action S3 (Unit {0}))
      → Keeps R body
      → ((a : A) → Keeps R (after a))
      → Keeps R (try_else body after)
  try_else-Keeps {A} body after h k w = go (body w).0 (h w)
    where
      later : World S3
      later = (body w).1

      go :
          (r : Result A)
          → R w later
          → R w
              (elim r as (λ _. Result (Unit {0}) × World S3) [
                | ok a ↦ after a later
                | raised e ↦ (if is_boto_client_error e then ok tt else raised e, later)
              ]).1
      go (ok a) x = kept.preorder.chain w later _ x (k a later)
      go (raised e) x = x

  download-Keeps : (bucket key : String) → Keeps R (download V bucket key)
  download-Keeps bucket key w = kept.preorder.same w

  -- The form of the two tasks that make a file again.
  made_again-Keeps :
      (bucket key : String) (check : Bytes → SanitisationDetails) (place : Bytes → Bytes → Upload)
      → ((pdf file_data : Bytes) → Keeps R (upload V (place pdf file_data)))
      → Keeps R (
          try_else
            (do
              pdf ← download V bucket key
              if has_message (check pdf)
                  then pure tt
                  else (do file_data ← lift (file_of (check pdf)); upload V (place pdf file_data)))
            pure)
  made_again-Keeps bucket key check place put =
      let P = kept.preorder in
      let stored : Bytes → Action S3 (Unit {0}) =
        λ pdf. lift (file_of (check pdf)) >>= λ file_data. upload V (place pdf file_data) in
      try_else-Keeps
        (download V bucket key >>= λ pdf. if has_message (check pdf) then pure tt else stored pdf)
        pure
        (Keeps->>= P (download V bucket key)
          (λ pdf. if has_message (check pdf) then pure tt else stored pdf)
          (download-Keeps bucket key)
          (λ pdf.
            Keeps-if P (has_message (check pdf)) (pure tt) (stored pdf) (λ w. P.same w)
              (Keeps->>= P (lift (file_of (check pdf)))
                (λ file_data. upload V (place pdf file_data)) (Keeps-lift P (file_of (check pdf)))
                (λ file_data. put pdf file_data))))
        (λ u w. P.same w)

module _ (lib : Libraries) (V : Services) {R : World V.S3 → World V.S3 → Type 0}
    (kept : IsKept V R) where
  open V use {S3, config}

  upload_if_passed-Keeps :
      (nid filename : String) (d : SanitisationDetails)
      → MayPut V R config.sanitised_letter_bucket_name
      → Keeps R (copy_s3_object V (backup_copy lib V nid filename))
      → Keeps R (upload_if_passed lib V nid filename d)
  unfolding upload_if_passed
  upload_if_passed-Keeps nid filename d put copy =
      let P = kept.preorder in
      let copied : Action S3 String =
        copy_s3_object V (backup_copy lib V nid filename) >> pure "passed" in
      let stored : Bytes → Action S3 String =
        λ file_data. upload V (sanitised_upload lib V filename file_data) >> copied in
      Keeps-if P (has_message d) (pure "failed") (lift (file_of d) >>= stored) (λ w. P.same w)
        (Keeps->>= P (lift (file_of d)) stored (Keeps-lift P (file_of d)) (λ file_data.
          Keeps->>= P (upload V (sanitised_upload lib V filename file_data)) (λ _. copied)
            (put (sanitised_upload lib V filename file_data) refl)
            (λ _.
              Keeps->>= P (copy_s3_object V (backup_copy lib V nid filename)) (λ _. pure "passed")
                copy (λ _ w. P.same w))))

  pub sanitise_and_upload_letter-Keeps :
      (group nid filename : String) (allow : Bool)
      → MayPut V R config.sanitised_letter_bucket_name
      → Keeps R (copy_s3_object V (backup_copy lib V nid filename))
      → Keeps R (sanitise_and_upload_letter lib V group nid filename allow)
  unfolding sanitise_and_upload_letter sanitise_and_upload sanitised_message
  sanitise_and_upload_letter-Keeps group nid filename allow put copy =
      let P = kept.preorder in
      let told : SanitisationDetails × String → Action S3 (Unit {0}) =
        λ (d, status). send_task (sanitised_message lib V group nid filename d status) in
      let checked : Bytes → Action S3 (SanitisationDetails × String) = λ pdf.
        let d = sanitise_file_contents lib pdf allow false in
        upload_if_passed lib V nid filename d >>= λ status. pure (d, status) in
      try_else-Keeps V kept (download V config.letters_scan_bucket_name filename >>= checked) told
        (Keeps->>= P (download V config.letters_scan_bucket_name filename) checked
          (download-Keeps V kept config.letters_scan_bucket_name filename)
          (λ pdf.
            let d = sanitise_file_contents lib pdf allow false in
            Keeps->>= P (upload_if_passed lib V nid filename d) (λ status. pure (d, status))
              (upload_if_passed-Keeps nid filename d put copy) (λ status w. P.same w)))
        (λ (d, status).
          kept.told (sanitised_message lib V group nid filename d status) (inl (refl, inl refl)))

  pub recreate_pdf_for_precompiled_letter-Keeps :
      (nid file_location : String) (allow : Bool)
      → MayPut V R config.letters_pdf_bucket_name
      → Keeps R (recreate_pdf_for_precompiled_letter lib V nid file_location allow)
  unfolding recreate_pdf_for_precompiled_letter
  recreate_pdf_for_precompiled_letter-Keeps nid file_location allow put =
      made_again-Keeps V kept config.precompiled_originals_backup_letter_bucket_name (nid <> ".pdf")
        (λ pdf. sanitise_file_contents lib pdf allow false)
        (λ pdf file_data. record {
          bucket_name = config.letters_pdf_bucket_name;
          file_location = file_location;
          filedata = file_data;
          metadata = [];
        })
        (λ pdf file_data. put _ refl)

  pub recreate_pdf_for_template_letter_attachments-Keeps :
      (service_id attachment_id original_filename : String)
      → MayPut V R config.letter_attachment_bucket_name
      → Keeps R (
          recreate_pdf_for_template_letter_attachments lib V service_id attachment_id
            original_filename)
  unfolding recreate_pdf_for_template_letter_attachments
  recreate_pdf_for_template_letter_attachments-Keeps service_id attachment_id original_filename
        put =
      made_again-Keeps V kept config.precompiled_originals_backup_letter_bucket_name
        (attachment_id <> ".pdf") (λ pdf. sanitise_file_contents lib pdf false true)
        (λ pdf file_data. record {
          bucket_name = config.letter_attachment_bucket_name;
          file_location = get_transient_letter_file_location service_id attachment_id;
          filedata = file_data;
          metadata =
              ("page_count", str_page_count (sanitise_file_contents lib pdf false true).page_count)
              ∷ ("filename", V.quote original_filename)
              ∷ [];
        })
        (λ pdf file_data. put _ refl)
