-- ===== src/System/Workers.antt =====
-- The processes of the service, which share S3 and the queue and have a cache each. Their events
-- come in any order, one after the other.
use notifications_template_p.Prelude.{
  ℕ, ◌==◌, ◌≡◌, String, Bool, true, false, List, [], ◌∷◌, All, none, some, if◌then◌else◌,
}
use notifications_template_p.Python.Errors.{ok}
use notifications_template_p.Python.Stream.{Bytes}
use notifications_template_p.Python.Base64.{b64encode, IsByte}
use notifications_template_p.External.{Libraries}
use notifications_template_p.Storage.{Services, IsLawful, World, Message, Cached}
use notifications_template_p.App.Config.Laws.{bucket_names, are_different}
use notifications_template_p.App.Serve.{Web}
use notifications_template_p.Precompiled.Sanitise.{sanitise_file_contents}
use notifications_template_p.Tasks.{recreate_pdf_for_precompiled_letter}
use notifications_template_p.Tasks.Precompiled.{sanitised_upload, backup_copy}
use notifications_template_p.Tasks.Precompiled.Recreated.{
  recreate_pdf_for_precompiled_letter-stores,
}
use notifications_template_p.System.{Event, sanitise, after}
use notifications_template_p.System.Durable.{KeepsFile, IsSafe, after-IsSafe, passed-IsSafe}

-- What all processes share, and the cache of each of them.
pub record Service (S : Type 0) : Type 0 where
  pub s3 : S
  pub sent : List Message
  pub caches : ℕ → List Cached

-- What a process sees.
abbrev pub seen_by : {S : Type 0} → ℕ → Service S → World S
seen_by worker service = record {
  s3 = service.s3;
  sent = service.sent;
  cached = service.caches worker;
}

-- The same with what a process leaves behind.
abbrev pub left_by : {S : Type 0} → ℕ → World S → Service S → Service S
left_by worker w service = record {
  s3 = w.s3;
  sent = w.sent;
  caches = λ other. if other == worker then w.cached else service.caches other;
}

module _ (web : Web) (lib : Libraries) (V : Services) where
  open V use {S3, config}

  -- The events of a run with the process of each, the first of the list first.
  unfoldable pub run : List (ℕ × Event) → Service S3 → Service S3
  run [] service = service
  run ((worker, e) ∷ es) service =
      run es (left_by worker (after web lib V e (seen_by worker service)) service)

  module _ (lawful : IsLawful V) (different : are_different (bucket_names config) ≡ true)
      (nid filename : String) (pdf : Bytes) where
    run-IsSafe :
        (es : List (ℕ × Event)) (service : Service S3) (first last : ℕ)
        → All (λ (worker, e). KeepsFile nid filename e) es
        → IsSafe lib V nid filename pdf (seen_by first service)
        → IsSafe lib V nid filename pdf (seen_by last (run es service))
    unfolding run
    run-IsSafe [] service first last h safe = record {
      original = safe.original;
      backup = safe.backup;
    }
    run-IsSafe ((worker, e) ∷ es) service first last (h, hs) safe =
        let here : IsSafe lib V nid filename pdf (seen_by worker service) = record {
          original = safe.original;
          backup = safe.backup;
        } in
        let next =
          after-IsSafe lib V lawful different nid filename pdf web e (seen_by worker service) h
            here in
        run-IsSafe es _ worker last hs (record { original = next.original; backup = next.backup })

    -- One process sanitised a letter, which passed, and S3 took its bytes and the copy of its
    -- original. Then any requests and tasks followed in any of the processes, one after the other, in
    -- any order and with any failures, none of which sanitised another file under the letter's id, and
    -- meanwhile S3 itself let no file expire. If a process then makes the letter again, the original
    -- passes once more, with whatever bytes that gives now, and S3 accepts the upload, the task ends
    -- without an exception, and these bytes are those of the final letter, under the given name. S3
    -- keeps its promises, and the eight buckets have different names.
    pub recreated_after_run :
        (group file_location : String) (allow allow' : Bool) (bytes bytes' : Bytes)
        (service : Service S3) (first last : ℕ) (s t u : S3) (es : List (ℕ × Event))
        → V.s3download service.s3 config.letters_scan_bucket_name filename ≡ ok pdf
        → (sanitise_file_contents lib pdf allow false).message ≡ none
        → (sanitise_file_contents lib pdf allow false).file ≡ some (b64encode bytes)
        → All IsByte bytes
        → V.s3upload service.s3 (sanitised_upload lib V filename bytes) ≡ ok s
        → V.copy_object s (backup_copy lib V nid filename) ≡ ok t
        → All (λ (worker, e). KeepsFile nid filename e) es
        → (sanitise_file_contents lib pdf allow' false).message ≡ none
        → (sanitise_file_contents lib pdf allow' false).file ≡ some (b64encode bytes')
        → All IsByte bytes'
        → V.s3upload (run ((first, sanitise group nid filename allow) ∷ es) service).s3 (record {
          bucket_name = config.letters_pdf_bucket_name;
          file_location = file_location;
          filedata = bytes';
          metadata = [];
        })
          ≡ ok u
        → let later : World S3 =
            seen_by last (run ((first, sanitise group nid filename allow) ∷ es) service) in
          (recreate_pdf_for_precompiled_letter lib V nid file_location allow' later
            ≡ (ok tt, record later { s3 = u }))
          × (V.s3download u config.letters_pdf_bucket_name file_location ≡ ok bytes')
    unfolding run after
    recreated_after_run group file_location allow allow' bytes bytes' service first last s t u es d
          m f h up c hs m' f' h' up' =
        let passed =
          passed-IsSafe lib V lawful different nid filename pdf group allow bytes
            (seen_by first service) s t d m f h up c in
        let safe =
          run-IsSafe es _ first last hs
            (record { original = passed.original; backup = passed.backup }) in
        recreate_pdf_for_precompiled_letter-stores lib V lawful nid file_location allow' pdf bytes'
          _ u safe.backup m' f' h' up'
