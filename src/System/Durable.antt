-- ===== src/System/Durable.antt =====
-- The original of a sanitised letter stays where the tasks find it, whatever the process does next.
use Prim.Native.String.{◌++◌ as ◌<>◌}
use text.Mathlib.Text.{◌==◌ as eq_str}
use text.Mathlib.TextEquality.{eq_iff}
use text.Mathlib.TextPositions.{eq_refl}
use text.Mathlib.TextLemmas.{append_cancel_right}
use notifications_template_p.Prelude.{
  ◌≡◌, sym, ◌∙◌, String, Bool, true, false, inl, inr, All, none, some, Bool-cases,
}
use notifications_template_p.Python.Errors.{ok, Result-cases}
use notifications_template_p.Python.Stream.{Bytes}
use notifications_template_p.Python.Base64.{b64encode, IsByte}
use notifications_template_p.External.{Libraries}
use notifications_template_p.Storage.{Services, IsLawful, World, Copy, upload, copy_s3_object}
use notifications_template_p.Storage.Steps.{Keeps}
use notifications_template_p.App.Config.Laws.{bucket_names, are_different}
use notifications_template_p.App.Serve.{Web}
use notifications_template_p.Precompiled.Sanitise.{sanitise_file_contents}
use notifications_template_p.Tasks.{sanitise_and_upload_letter}
use notifications_template_p.Tasks.Precompiled.{
  sanitised_upload, backup_copy, sanitise_and_upload_letter-passed,
}
use notifications_template_p.Tasks.Frame.{IsKept, MayPut}
use notifications_template_p.System.Buckets.{AreReserved, are_different-AreReserved}
use notifications_template_p.System.{
  Event, requested, sanitise, create, recreate, recreate_attachment, after, MayDo, after-Keeps,
}

-- A letter has one file in the scan bucket: no event brings in another one under its id.
abbrev pub KeepsFile : String → String → Event → Type 0
KeepsFile nid filename (sanitise group nid' filename' allow) = nid' ≡ nid → filename' ≡ filename
KeepsFile nid filename _ = Unit

module _ (lib : Libraries) (V : Services) where
  open V use {S3, config}

  -- A letter's original is in the scan bucket, and in the backup bucket under the letter's id.
  pub record IsSafe (nid filename : String) (pdf : Bytes) (w : World S3) : Type 0 where
    pub original : V.s3download w.s3 config.letters_scan_bucket_name filename ≡ ok pdf
    pub backup :
        V.s3download w.s3 config.precompiled_originals_backup_letter_bucket_name (nid <> ".pdf")
        ≡ ok pdf

  module _ (lawful : IsLawful V) (different : are_different (bucket_names config) ≡ true)
      (nid filename : String) (pdf : Bytes) where
    -- A step does not lose the original.
    abbrev Safe : World S3 → World S3 → Type 0
    Safe w v = IsSafe nid filename pdf w → IsSafe nid filename pdf v

    -- Neither of the two buckets is the bucket of a name.
    abbrev IsOther : String → Type 0
    IsOther bucket =
        (eq_str config.letters_scan_bucket_name bucket ≡ false)
        × (eq_str config.precompiled_originals_backup_letter_bucket_name bucket ≡ false)

    upload-Safe : (bucket : String) → IsOther bucket → MayPut V Safe bucket
    upload-Safe bucket (h, k) u e w safe = elim (Result-cases (V.s3upload w.s3 u)) [
      | inl (s, r) ↦
          rw (r, upload)
            (record {
              original = lawful.download-upload w.s3 s u _ _ r ∙ rw (e, h) safe.original;
              backup = lawful.download-upload w.s3 s u _ _ r ∙ rw (e, k) safe.backup;
            })
      | inr (x, r) ↦ rw (r, upload) safe
    ]

    reserved : AreReserved config
    reserved = are_different-AreReserved config different

    same_id : (nid' : String) → eq_str (nid <> ".pdf") (nid' <> ".pdf") ≡ true → nid' ≡ nid
    same_id nid' e = sym (append_cancel_right nid nid' ".pdf" ((eq_iff _ _).0 e))

    copy-Safe :
        (nid' filename' : String)
        → (nid' ≡ nid → filename' ≡ filename)
        → Keeps Safe (copy_s3_object V (backup_copy lib V nid' filename'))
    unfolding copy_s3_object
    copy-Safe nid' filename' one w safe =
        let c : Copy = backup_copy lib V nid' filename' in
        elim (Result-cases (V.copy_object w.s3 c)) [
          | inr (x, r) ↦ rw (r, copy_s3_object) safe
          | inl (s, r) ↦
              let backup_bucket : String = config.precompiled_originals_backup_letter_bucket_name in
              let original =
                lawful.download-copy w.s3 s c _ filename r ∙ rw reserved.2 safe.original in
              rw (r, copy_s3_object)
                (record {
                  original = original;
                  backup =
                      lawful.download-copy w.s3 s c _ (nid <> ".pdf") r
                      ∙ elim (Bool-cases (eq_str (nid <> ".pdf") (nid' <> ".pdf"))) [
                        | inl same ↦
                            rw (eq_refl backup_bucket, same, one (same_id nid' same)) safe.original
                        | inr other ↦ rw (eq_refl backup_bucket, other) safe.backup
                      ];
                })
        ]

    Safe-IsKept : IsKept V Safe
    Safe-IsKept = record {
      preorder = record { same = λ w h. h; chain = λ u v w h k x. k (h x) };
      told = λ m addressed w h. record { original = h.original; backup = h.backup };
      cached = λ w v frame h. record {
        original = frame.others_same _ _ reserved.0.cache ∙ h.original;
        backup = frame.others_same _ _ reserved.1.cache ∙ h.backup;
      };
    }

    may_do :
        (web : Web) (e : Event) → KeepsFile nid filename e → MayDo web lib V lawful Safe-IsKept e
    may_do web (requested endpoint request) h = tt
    may_do web (sanitise group nid' filename' allow) h =
        (upload-Safe _ (reserved.0.sanitised, reserved.1.sanitised), copy-Safe nid' filename' h)
    may_do web (create group encoded) h = (
      upload-Safe _ (reserved.0.final, reserved.1.final),
      upload-Safe _ (reserved.0.tested, reserved.1.tested),
      upload-Safe _ (reserved.0.invalid, reserved.1.invalid),
    )
    may_do web (recreate nid' file_location allow) h =
        upload-Safe _ (reserved.0.final, reserved.1.final)
    may_do web (recreate_attachment service_id attachment_id original_filename) h =
        upload-Safe _ (reserved.0.attachments, reserved.1.attachments)

    -- An event that does not sanitise another file under a letter's id keeps its original.
    pub after-IsSafe :
        (web : Web) (e : Event) (w : World S3)
        → KeepsFile nid filename e
        → IsSafe nid filename pdf w
        → IsSafe nid filename pdf (after web lib V e w)
    after-IsSafe web e w h safe = after-Keeps web lib V lawful Safe-IsKept e (may_do web e h) w safe

    -- A letter that passed has its original in both buckets.
    pub passed-IsSafe :
        (group : String) (allow : Bool) (bytes : Bytes) (w : World S3) (s t : S3)
        → V.s3download w.s3 config.letters_scan_bucket_name filename ≡ ok pdf
        → (sanitise_file_contents lib pdf allow false).message ≡ none
        → (sanitise_file_contents lib pdf allow false).file ≡ some (b64encode bytes)
        → All IsByte bytes
        → V.s3upload w.s3 (sanitised_upload lib V filename bytes) ≡ ok s
        → V.copy_object s (backup_copy lib V nid filename) ≡ ok t
        → IsSafe nid filename pdf (sanitise_and_upload_letter lib V group nid filename allow w).1
    passed-IsSafe group allow bytes w s t d m f h up c =
        let kept : V.s3download s config.letters_scan_bucket_name filename ≡ ok pdf =
          lawful.download-upload w.s3 s _ _ filename up ∙ rw reserved.0.sanitised d in
        rw
          (sanitise_and_upload_letter-passed lib V group nid filename allow pdf bytes w s t d m f h
            up c)
          (record {
            original = lawful.download-copy s t _ _ filename c ∙ rw reserved.2 kept;
            backup =
                lawful.download-copy s t (backup_copy lib V nid filename) _ (nid <> ".pdf") c
                ∙ rw
                    (
                      eq_refl config.precompiled_originals_backup_letter_bucket_name,
                      eq_refl (nid <> ".pdf"),
                    )
                    kept;
          })
