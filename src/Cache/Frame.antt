-- ===== src/Cache/Frame.antt =====
-- What the caches leave alone: the messages, every bucket but that of the cache, and the order in
-- the process's cache.
use text.Mathlib.Text.{◌==◌ as eq_str}
use notifications_template_p.Prelude.{◌≡◌, refl, ◌∙◌, inl, inr, String, false, [], Option-cases}
use notifications_template_p.Python.Errors.{Exn, Result, ok, raised, Result-cases}
use notifications_template_p.Python.Stream.{BytesIo, read, bytes_io}
use notifications_template_p.Storage.{
  Services, IsLawful, World, Action, Upload, upload, pure, lift, ◌>>◌,
}
use notifications_template_p.Storage.Steps.{Keeps, IsPreorder, Keeps-lift, Keeps->>=}
use notifications_template_p.Cache.{
  find_cached, cached_s3_download, decoded_stream, caching_s3download, generate_and_store,
  cached_call,
}
use notifications_template_p.Cache.Entries.{IsValid, remember-IsValid}

-- No message is sent, no file outside of the bucket of the cache changes, and a valid cache of the
-- process stays valid.
pub record Frame (V : Services) (w w' : World V.S3) : Type 0 where
  pub sent_same : w'.sent ≡ w.sent
  pub others_same :
      (bucket key : String)
      → eq_str bucket V.config.letter_cache_bucket_name ≡ false
      → V.s3download w'.s3 bucket key ≡ V.s3download w.s3 bucket key
  pub valid : IsValid w.cached → IsValid w'.cached

module _ (V : Services) where
  open V use {S3, config}

  pub Frame-IsPreorder : IsPreorder (Frame V)
  Frame-IsPreorder = record {
    same = λ w. record { sent_same = refl; others_same = λ b k h. refl; valid = λ h. h };
    chain = λ u v w h k. record {
      sent_same = k.sent_same ∙ h.sent_same;
      others_same = λ b key e. k.others_same b key e ∙ h.others_same b key e;
      valid = λ x. k.valid (h.valid x);
    };
  }

  cached_s3_download-Keeps :
      (bucket filename : String) → Keeps (Frame V) (cached_s3_download V bucket filename)
  unfolding cached_s3_download
  cached_s3_download-Keeps bucket filename w =
      elim (Option-cases (find_cached bucket filename w.cached)) [
        | inr (encoded, hit) ↦
            rw (hit, cached_s3_download)
              (record {
                sent_same = refl;
                others_same = λ b k h. refl;
                valid = remember-IsValid _ w.cached;
              })
        | inl miss ↦ elim (Result-cases (V.s3download w.s3 bucket filename)) [
          | inl (bytes, r) ↦
              rw (miss, r, cached_s3_download)
                (record {
                  sent_same = refl;
                  others_same = λ b k h. refl;
                  valid = remember-IsValid _ w.cached;
                })
          | inr (e, r) ↦ rw (miss, r, cached_s3_download) ((Frame-IsPreorder).same w)
        ]
      ]

  pub caching_s3download-Keeps :
      (bucket filename : String) → Keeps (Frame V) (caching_s3download V bucket filename)
  unfolding caching_s3download
  caching_s3download-Keeps bucket filename =
      Keeps->>= Frame-IsPreorder (cached_s3_download V bucket filename)
        (λ cached. lift (decoded_stream cached)) (cached_s3_download-Keeps bucket filename)
        (λ cached. Keeps-lift Frame-IsPreorder (decoded_stream cached))

  -- What is put into the bucket of the cache.
  abbrev pub cache_upload : String → BytesIo → Upload
  cache_upload key file = record {
    bucket_name = config.letter_cache_bucket_name;
    file_location = key;
    filedata = (read file).0;
    metadata = [];
  }

  cache_upload-Keeps :
      IsLawful V
      → (key : String) (file : BytesIo) → Keeps (Frame V) (upload V (cache_upload key file))
  cache_upload-Keeps lawful key file w =
      elim (Result-cases (V.s3upload w.s3 (cache_upload key file))) [
        | inr (e, r) ↦ rw (r, upload) ((Frame-IsPreorder).same w)
        | inl (s, r) ↦
            rw (r, upload)
              (record {
                sent_same = refl;
                others_same =
                    λ b k h. lawful.download-upload w.s3 s (cache_upload key file) b k r ∙ rw h;
                valid = λ h. h;
              })
      ]

  generate_and_store-Keeps :
      IsLawful V
      → (key : String) (original : Action S3 BytesIo) → Keeps (Frame V) original
      → Keeps (Frame V) (generate_and_store V key original)
  unfolding generate_and_store
  generate_and_store-Keeps lawful key original h =
      Keeps->>= Frame-IsPreorder original
        (λ file. upload V (cache_upload key file) >> pure (bytes_io file.contents)) h
        (λ file.
          Keeps->>= Frame-IsPreorder (upload V (cache_upload key file))
            (λ _. pure (bytes_io file.contents)) (cache_upload-Keeps lawful key file)
            (λ _. Keeps-lift Frame-IsPreorder (ok (bytes_io file.contents))))

  -- A call through the cache keeps what the function behind it keeps.
  pub cached_call-Keeps :
      IsLawful V
      → (key : String) (original : Action S3 BytesIo) → Keeps (Frame V) original
      → Keeps (Frame V) (cached_call V key original)
  unfolding cached_call
  cached_call-Keeps lawful key original h w =
      let found = caching_s3download-Keeps config.letter_cache_bucket_name key w in
      after (caching_s3download V config.letter_cache_bucket_name key w).0 found
    where
      later : World S3
      later = (caching_s3download V config.letter_cache_bucket_name key w).1

      after :
          (r : Result BytesIo)
          → Frame V w later
          → Frame V w
              (elim r as (λ _. Result BytesIo × World S3) [
                | ok file ↦ (ok file, later)
                | raised Exn.s3_object_not_found ↦ generate_and_store V key original later
                | raised e ↦ (raised e, later)
              ]).1
      after (ok file) found = found
      after (raised Exn.s3_object_not_found) found =
          (Frame-IsPreorder).chain w later _ found
            (generate_and_store-Keeps lawful key original h later)
      after (raised e) found = found
