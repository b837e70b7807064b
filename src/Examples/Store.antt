-- ===== src/Examples/Store.antt =====
-- Runs of the caches and the tasks on a small store.
use Prim.Native.String.{◌++◌ as ◌<>◌}
use notifications_template_p.Prelude.{
  All, ◌≡◌, refl, ap, ◌⊎◌, String, true, false, [], ◌∷◌, ◌++◌, Option, none, some, arith,
  if◌then◌else◌,
}
use notifications_template_p.Python.Errors.{ok}
use notifications_template_p.Python.Stream.{Bytes}
use notifications_template_p.Python.Base64.{b64encode, IsByte}
use notifications_template_p.Storage.{World}
use notifications_template_p.Precompiled.Sanitise.{
  SanitisationDetails, has_message, sanitise_file_contents,
}
use notifications_template_p.Tasks.{sanitise_and_upload_letter, sanitised_message}
use notifications_template_p.Tasks.Precompiled.{
  sanitise_and_upload_letter-stores, sanitise_and_upload_letter-messages,
}
use notifications_template_p.Examples.{toy, services, services-IsLawful, Files, no_files, put_file}
use notifications_template_p.Examples.Letters.{good_letter, good_sanitised}
use notifications_template_p.Examples.Refused.{anonymous, anonymous_refused}

abbrev pub world : Files → World Files
world files = record { s3 = files; sent = []; cached = [] }

-- A letter that was uploaded, in S3.
abbrev pub scanned : Bytes → Files
scanned letter = put_file "scan" "A.PDF" (ok letter) no_files

abbrev pub after_upload : Files
after_upload = put_file "sanitised" "A.PDF" (ok (23 ∷ 4 ∷ [])) (scanned good_letter)

abbrev pub after_copy : Files
after_copy = put_file "backup" ("n1" <> ".pdf") (after_upload "scan" "A.PDF") after_upload

abbrev message_of : SanitisationDetails → Option String
message_of d = d.message

abbrev file_in : SanitisationDetails → Option Bytes
file_in d = d.file

pub good_message : (sanitise_file_contents toy good_letter false false).message ≡ none
good_message = ap message_of good_sanitised

pub good_file :
    (sanitise_file_contents toy good_letter false false).file ≡ some (b64encode (23 ∷ 4 ∷ []))
good_file = ap file_in good_sanitised

pub good_bytes : All IsByte (23 ∷ 4 ∷ [])
good_bytes = (omega arith, (omega arith, tt))

sanitise_and_upload_letter-stores_example :
    let (result, after) =
      sanitise_and_upload_letter toy
        (services true)
        "s1"
        "n1"
        "A.PDF"
        false
        (world (scanned good_letter)) in
    (result ≡ ok tt)
    × (after.s3 "sanitised" "A.PDF" ≡ ok (23 ∷ 4 ∷ []))
    × (after.s3 "backup" ("n1" <> ".pdf") ≡ ok good_letter)
    × (after.sent
        ≡ []
          ++ (sanitised_message toy
                (services true)
                "s1"
                "n1"
                "A.PDF"
                (sanitise_file_contents toy good_letter false false)
                "passed"
              ∷ []))
sanitise_and_upload_letter-stores_example =
    sanitise_and_upload_letter-stores toy (services true) (services-IsLawful true) refl refl "s1"
      "n1" "A.PDF" false good_letter (23 ∷ 4 ∷ []) (world (scanned good_letter)) after_upload
      after_copy refl good_message good_file good_bytes refl refl

anonymous_failed : has_message (sanitise_file_contents toy anonymous true false) ≡ true
anonymous_failed = ap has_message anonymous_refused

sanitise_and_upload_letter-messages_example :
    let (result, after) =
      sanitise_and_upload_letter toy (services true) "s1" "n1" "A.PDF" true (world no_files) in
    (after.sent ≡ (world no_files).sent)
    ⊎ ((pdf : Bytes) × (no_files "scan" "A.PDF" ≡ ok pdf)
        × (result ≡ ok tt)
        × (after.sent
            ≡ (world no_files).sent
              ++ (sanitised_message toy
                    (services true)
                    "s1"
                    "n1"
                    "A.PDF"
                    (sanitise_file_contents toy pdf true false)
                    (if has_message (sanitise_file_contents toy pdf true false)
                      then "failed"
                      else "passed")
                  ∷ [])))
sanitise_and_upload_letter-messages_example =
    sanitise_and_upload_letter-messages toy (services true) "s1" "n1" "A.PDF" true (world no_files)
