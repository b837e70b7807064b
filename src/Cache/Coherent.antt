-- ===== src/Cache/Coherent.antt =====
-- The cache of generated files against the functions behind it: a cached call is a call.
use text.Mathlib.Text.{◌==◌ as eq_str}
use text.Mathlib.TextPositions.{eq_refl}
use text.Mathlib.TextEquality.{eq_iff}
use notifications_template_p.Prelude.{
  ◌≡◌, refl, sym, ◌∙◌, ap, subst, ◌⊎◌, inl, inr, String, none, some, All, arith, Option-cases,
  Bool-cases,
}
use notifications_template_p.Python.Errors.{Exn, Result, ok, raised, Result-cases}
use notifications_template_p.Python.Stream.{Bytes, BytesIo, bytes_io}
use notifications_template_p.Python.Base64.{b64encode, IsByte}
use notifications_template_p.Storage.{Services, IsLawful, World, Cached, Action, Upload, lift}
use notifications_template_p.Cache.{
  find_cached, remember, cached_s3_download, decoded_stream, caching_s3download, generate_and_store,
  cached_call,
}
use notifications_template_p.Cache.Laws.{decoded_stream-b64encode}
use notifications_template_p.Cache.Entries.{find_cached-remember_cases}
use notifications_template_p.Cache.Frame.{cache_upload}

-- S3 finds a file or says that there is none, and stores what it is given.
pub record IsAvailable (V : Services) : Type 0 where
  pub found :
      (s : V.S3) (bucket key : String)
      → ((bytes : Bytes) × (V.s3download s bucket key ≡ ok bytes))
        ⊎ (V.s3download s bucket key ≡ raised Exn.s3_object_not_found)
  pub stored : (s : V.S3) (u : Upload) → (t : V.S3) × (V.s3upload s u ≡ ok t)

-- What a generator gives is bytes, read from their start.
abbrev pub IsFresh : (String → Result BytesIo) → Type 0
IsFresh generated =
    (key : String) (f : BytesIo)
    → generated key ≡ ok f
    → (f ≡ bytes_io f.contents) × All IsByte f.contents

module _ (V : Services) (generated : String → Result BytesIo) where
  open V use {S3, config}

  -- Base64 of what is generated for a key.
  abbrev IsKept : String → Bytes → Type 0
  IsKept key encoded = (f : BytesIo) × (generated key ≡ ok f) × (encoded ≡ b64encode f.contents)

  -- Whatever is cached for a key, in S3 or by the process, is what is generated for it.
  pub record IsCoherent (w : World S3) : Type 0 where
    pub in_s3 :
        (key : String) (bytes : Bytes)
        → V.s3download w.s3 config.letter_cache_bucket_name key ≡ ok bytes
        → generated key ≡ ok (bytes_io bytes)
    pub in_process :
        (key : String) (encoded : Bytes)
        → find_cached config.letter_cache_bucket_name key w.cached ≡ some encoded
        → IsKept key encoded

  module _ (lawful : IsLawful V) (available : IsAvailable V) (fresh : IsFresh generated) where
    abbrev entry : String → Bytes → Cached
    entry key encoded = record {
      bucket_name = config.letter_cache_bucket_name;
      filename = key;
      encoded = encoded;
    }

    remember-IsCoherent :
        (w : World S3) (key : String) (encoded : Bytes)
        → IsKept key encoded
        → IsCoherent w
        → IsCoherent (record w { cached = remember (entry key encoded) w.cached })
    remember-IsCoherent w key encoded kept h = record {
      in_s3 = h.in_s3;
      in_process = λ k e found.
          elim (find_cached-remember_cases config.letter_cache_bucket_name k (entry key encoded)
            w.cached e found) [
              | inl (_, same_key, same) ↦
                  subst (λ k. IsKept k e) (sym same_key) (subst (IsKept key) (sym same) kept)
              | inr before ↦ h.in_process k e before
            ];
    }

    upload-IsCoherent :
        (w : World S3) (key : String) (f : BytesIo) (t : S3)
        → generated key ≡ ok f
        → V.s3upload w.s3 (cache_upload V key f) ≡ ok t
        → IsCoherent w
        → IsCoherent (record w { s3 = t })
    upload-IsCoherent w key f t made put h = record {
      in_s3 = λ k bytes found. elim (Bool-cases (eq_str k key)) [
        | inl same ↦ ground (
          arith,
          lawful.download-upload w.s3 t (cache_upload V key f) config.letter_cache_bucket_name k
              put,
          eq_refl config.letter_cache_bucket_name,
          (eq_iff k key).0 same,
          (fresh key f made).0,
          made,
        )
        | inr other ↦ h.in_s3 k bytes (
            ground (
              arith,
              lawful.download-upload w.s3 t (cache_upload V key f) config.letter_cache_bucket_name k
                  put,
            ))
      ];
      in_process = h.in_process;
    }

    call-kept :
        (key : String) (m : Action S3 BytesIo) (w : World S3) (encoded : Bytes) (f : BytesIo)
        → find_cached config.letter_cache_bucket_name key w.cached ≡ some encoded
        → decoded_stream encoded ≡ ok f
        → cached_call V key m w
          ≡ (ok f, record w { cached = remember (entry key encoded) w.cached })
    unfolding cached_call caching_s3download cached_s3_download
    call-kept key m w encoded f hit d = ground arith

    call-found :
        (key : String) (m : Action S3 BytesIo) (w : World S3) (bytes : Bytes) (f : BytesIo)
        → find_cached config.letter_cache_bucket_name key w.cached ≡ none
        → V.s3download w.s3 config.letter_cache_bucket_name key ≡ ok bytes
        → decoded_stream (b64encode bytes) ≡ ok f
        → cached_call V key m w
          ≡ (ok f, record w { cached = remember (entry key (b64encode bytes)) w.cached })
    unfolding cached_call caching_s3download cached_s3_download
    call-found key m w bytes f miss there d = ground arith

    call-absent :
        (key : String) (m : Action S3 BytesIo) (w : World S3)
        → find_cached config.letter_cache_bucket_name key w.cached ≡ none
        → V.s3download w.s3 config.letter_cache_bucket_name key ≡ raised Exn.s3_object_not_found
        → cached_call V key m w ≡ generate_and_store V key m w
    unfolding cached_call caching_s3download cached_s3_download
    call-absent key m w miss absent = ground arith

    store-ok :
        (key : String) (w : World S3) (f : BytesIo) (t : S3)
        → generated key ≡ ok f
        → V.s3upload w.s3 (cache_upload V key f) ≡ ok t
        → generate_and_store V key (lift (generated key)) w
          ≡ (ok (bytes_io f.contents), record w { s3 = t })
    unfolding generate_and_store
    store-ok key w f t made put = ground arith

    store-raised :
        (key : String) (w : World S3) (e : Exn)
        → generated key ≡ raised e
        → generate_and_store V key (lift (generated key)) w ≡ (raised e, w)
    unfolding generate_and_store
    store-raised key w e r = ground arith

    outcome :
        (key : String) (m : Action S3 BytesIo) (w w' : World S3) (r : Result BytesIo)
        → m w ≡ (r, w')
        → r ≡ generated key
        → IsCoherent w'
        → ((m w).0 ≡ generated key) × IsCoherent (m w).1
    outcome key m w w' r e same h =
        (ap (λ p. p.0) e ∙ same, subst IsCoherent (sym (ap (λ p. p.1) e)) h)

    whole :
        (key : String) (f : BytesIo)
        → generated key ≡ ok f
        → ok (bytes_io f.contents) ≡ generated key
    whole key f made = ap (λ g. ok g) (sym (fresh key f made).0) ∙ sym made

    -- Where what is cached for each key is what would be generated for it, a cached call gives
    -- what the function gives, its error included, and leaves what is cached so. S3 keeps its
    -- promises and answers, and what is generated are streams of bytes at their start.
    pub cached_call-refines :
        (key : String) (w : World S3)
        → IsCoherent w
        → ((cached_call V key (lift (generated key)) w).0 ≡ generated key)
          × IsCoherent (cached_call V key (lift (generated key)) w).1
    cached_call-refines key w h =
        let call = cached_call V key (lift (generated key)) in
        elim (Option-cases (find_cached config.letter_cache_bucket_name key w.cached)) [
          | inr (encoded, hit) ↦
              let (f, made, e) = h.in_process key encoded hit in
              outcome key call w _ _
                (call-kept key _ w encoded (bytes_io f.contents) hit
                  (ap decoded_stream e ∙ decoded_stream-b64encode f.contents (fresh key f made).1))
                (whole key f made) (remember-IsCoherent w key encoded (f, made, e) h)
          | inl miss ↦ elim (available.found w.s3 config.letter_cache_bucket_name key) [
            | inl (bytes, there) ↦
                let made = h.in_s3 key bytes there in
                outcome key call w _ _
                  (call-found key _ w bytes (bytes_io bytes) miss there
                    (decoded_stream-b64encode bytes (fresh key (bytes_io bytes) made).1))
                  (sym made)
                  (remember-IsCoherent w key (b64encode bytes) (bytes_io bytes, made, refl) h)
            | inr absent ↦ elim (Result-cases (generated key)) [
              | inr (e, r) ↦
                  outcome key call w w _ (call-absent key _ w miss absent ∙ store-raised key w e r)
                    (sym r) h
              | inl (f, r) ↦
                  let (t, put) = available.stored w.s3 (cache_upload V key f) in
                  outcome key call w _ _
                    (call-absent key _ w miss absent ∙ store-ok key w f t r put) (whole key f r)
                    (upload-IsCoherent w key f t r put h)
            ]
          ]
        ]
