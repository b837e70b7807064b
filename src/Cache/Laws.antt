-- ===== src/Cache/Laws.antt =====
-- What the caches of app/utils.py and app/__init__.py promise.
use text.Mathlib.TextPositions.{eq_refl}
use notifications_template_p.Prelude.{
  ℕ, zero, suc, ◌≤◌, ◌≡◌, String, List, [], ◌∷◌, none, some, length, drop, ◌∙◌, All, arith,
  Option-cases, inl, inr,
}
use notifications_template_p.Python.Errors.{Exn, ok, raised, Result-cases}
use notifications_template_p.Python.Stream.{Bytes, BytesIo, bytes_io}
use notifications_template_p.Python.Base64.{b64encode, b64decode-b64encode, IsByte}
use notifications_template_p.Storage.{Services, IsLawful, Cached, World, Action}
use notifications_template_p.Cache.{
  find_cached, take_cached, maxsize, remember, cached_s3_download, decoded_stream,
  caching_s3download, generate_and_store, cached_call,
}

abbrev entry : String → String → Bytes → Cached
entry bucket filename encoded = record {
  bucket_name = bucket;
  filename = filename;
  encoded = encoded;
}

length-take_cached : (n : ℕ) (cs : List Cached) → length (take_cached n cs) ≤ n
unfolding take_cached
length-take_cached zero cs = omega arith
length-take_cached (suc n) [] = omega arith
length-take_cached (suc n) (c ∷ cs) = omega (arith, length-take_cached n cs)

find_cached-remember :
    (c : Cached) (cs : List Cached)
    → find_cached c.bucket_name c.filename (remember c cs) ≡ some c.encoded
unfolding find_cached remember take_cached
find_cached-remember c cs = rw (eq_refl c.bucket_name, eq_refl c.filename)

pub length-remember : (c : Cached) (cs : List Cached) → length (remember c cs) ≤ maxsize
unfolding remember
length-remember c cs = length-take_cached maxsize _

pub decoded_stream-b64encode :
    (bytes : Bytes) → All IsByte bytes → decoded_stream (b64encode bytes) ≡ ok (bytes_io bytes)
unfolding decoded_stream
decoded_stream-b64encode bytes h = rw (b64decode-b64encode bytes h, decoded_stream)

module _ (V : Services) where
  open V use {S3}

  -- The process's cache never holds more than 2000 files, whatever it is asked for.
  pub caching_s3download-bounded :
      (bucket filename : String) (w : World S3)
      → length w.cached ≤ maxsize
      → length (caching_s3download V bucket filename w).1.cached ≤ maxsize
  unfolding caching_s3download cached_s3_download
  caching_s3download-bounded bucket filename w h =
      elim (Option-cases (find_cached bucket filename w.cached)) [
        | inr (encoded, hit) ↦
            ground (arith, length-remember (entry bucket filename encoded) w.cached)
        | inl miss ↦ elim (Result-cases (V.s3download w.s3 bucket filename)) [
          | inr (e, r) ↦ ground arith
          | inl (bytes, r) ↦
              ground (arith, length-remember (entry bucket filename (b64encode bytes)) w.cached)
        ]
      ]

  -- Once a file was read, reading it again gives the same bytes, even if S3 holds another file, or none, by then.
  pub caching_s3download-again :
      (bucket filename : String) (w w' : World S3) (f : BytesIo) (later : S3)
      → caching_s3download V bucket filename w ≡ (ok f, w')
      → (caching_s3download V bucket filename (record w' { s3 = later })).0 ≡ ok f
  unfolding caching_s3download cached_s3_download
  caching_s3download-again bucket filename w w' f later h =
      elim (Option-cases (find_cached bucket filename w.cached)) [
        | inr (encoded, hit) ↦
            ground (arith, find_cached-remember (entry bucket filename encoded) w.cached)
        | inl miss ↦ elim (Result-cases (V.s3download w.s3 bucket filename)) [
          | inr (e, r) ↦ absurd (ground arith)
          | inl (bytes, r) ↦
              ground
                (arith, find_cached-remember (entry bucket filename (b64encode bytes)) w.cached)
        ]
      ]

  -- A process that has not read a file yet reads what S3 has under its name.
  pub caching_s3download-miss :
      (bucket filename : String) (w : World S3) (bytes : Bytes)
      → find_cached bucket filename w.cached ≡ none
      → V.s3download w.s3 bucket filename ≡ ok bytes
      → All IsByte bytes
      → (caching_s3download V bucket filename w).0 ≡ ok (bytes_io bytes)
  unfolding caching_s3download cached_s3_download
  caching_s3download-miss bucket filename w bytes miss found h =
      ground (arith, decoded_stream-b64encode bytes h)

  pub caching_s3download-not_found :
      (bucket filename : String) (w : World S3) (e : Exn)
      → find_cached bucket filename w.cached ≡ none
      → V.s3download w.s3 bucket filename ≡ raised e
      → caching_s3download V bucket filename w ≡ (raised e, w)
  unfolding caching_s3download cached_s3_download
  caching_s3download-not_found bucket filename w e miss gone = ground arith

  -- If nothing is cached for a key, and what is generated is a stream of bytes that stands at its start, and S3 accepts its upload, the file is returned whole and stored; a later call for the key, in a process that has not read it yet, returns the same bytes without generating anything, if S3 then gives for the key what it gave after the upload, whatever else changed in it. S3 keeps its promises.
  pub cached_call-stores :
      IsLawful V
      → (key : String) (original : Action S3 BytesIo) (w w1 : World S3) (data_file : BytesIo)
        (s : S3) (other : Action S3 BytesIo) (later : World S3)
      → find_cached V.config.letter_cache_bucket_name key w.cached ≡ none
      → V.s3download w.s3 V.config.letter_cache_bucket_name key ≡ raised Exn.s3_object_not_found
      → original w ≡ (ok data_file, w1)
      → data_file.position ≡ 0
      → All IsByte data_file.contents
      → V.s3upload w1.s3 (record {
        bucket_name = V.config.letter_cache_bucket_name;
        file_location = key;
        filedata = data_file.contents;
        metadata = [];
      })
        ≡ ok s
      → V.s3download later.s3 V.config.letter_cache_bucket_name key
        ≡ V.s3download s V.config.letter_cache_bucket_name key
      → find_cached V.config.letter_cache_bucket_name key later.cached ≡ none
      → (cached_call V key original w ≡ (ok (bytes_io data_file.contents), record w1 { s3 = s }))
        × ((cached_call V key other later).0 ≡ ok (bytes_io data_file.contents))
  unfolding cached_call generate_and_store
  cached_call-stores lawful key original w w1 data_file s other later miss gone run start bytes put
        same fresh =
      let bucket : String = V.config.letter_cache_bucket_name in
      let whole : drop data_file.position data_file.contents ≡ data_file.contents = rw start in
      let stored : V.s3download s bucket key ≡ ok data_file.contents =
        lawful.download-upload w1.s3 s _ bucket key put ∙ rw (eq_refl bucket, eq_refl key) in
      (
        ground (arith, caching_s3download-not_found bucket key w Exn.s3_object_not_found miss gone),
        let served : (caching_s3download V bucket key later).0 ≡ ok (bytes_io data_file.contents) =
              caching_s3download-miss bucket key later data_file.contents fresh (same ∙ stored)
                bytes in
            ground arith,
      )
