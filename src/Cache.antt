-- ===== src/Cache.antt =====
-- The two caches before S3: `lru_cache` in app/utils.py, kept by each process, and the cache of
-- generated files in app/__init__.py, kept in a bucket.
pub mod Laws
pub mod Entries
pub mod Frame
pub mod Coherent
use Prim.Native.String.{◌++◌ as ◌<>◌}
use text.Mathlib.Text.{◌==◌ as eq_str}
use notifications_template_p.Prelude.{
  ℕ, zero, suc, String, Bool, true, false, ◌&&◌, List, [], ◌∷◌, Option, none, some, if◌then◌else◌,
}
use notifications_template_p.Python.Errors.{Exn, Result, ok, raised}
use notifications_template_p.Python.Stream.{Bytes, BytesIo, bytes_io, read}
use notifications_template_p.Python.Base64.{b64encode, b64decode}
use notifications_template_p.Storage.{
  Services, Cached, World, Action, ◌>>=◌, ◌>>◌, pure, lift, download, upload,
}

abbrev pub is_entry : String → String → Cached → Bool
is_entry bucket filename c = eq_str bucket c.bucket_name && eq_str filename c.filename

unfoldable pub find_cached : String → String → List Cached → Option Bytes
find_cached bucket filename [] = none
find_cached bucket filename (c ∷ cs) =
    if is_entry bucket filename c then some c.encoded else find_cached bucket filename cs

unfoldable pub drop_cached : String → String → List Cached → List Cached
drop_cached bucket filename [] = []
drop_cached bucket filename (c ∷ cs) =
    if is_entry bucket filename c then cs else c ∷ drop_cached bucket filename cs

-- The first `n` entries: `maxsize` of the cache, which forgets what was used longest ago.
unfoldable pub take_cached : ℕ → List Cached → List Cached
take_cached zero cs = []
take_cached (suc n) [] = []
take_cached (suc n) (c ∷ cs) = c ∷ take_cached n cs

abbrev pub maxsize : ℕ
maxsize = 2000

-- An entry moved, or put, to the front.
unfoldable pub remember : Cached → List Cached → List Cached
remember c cs = take_cached maxsize (c ∷ drop_cached c.bucket_name c.filename cs)

-- `BytesIO(b64decode(cached))`
unfoldable pub decoded_stream : Bytes → Result BytesIo
decoded_stream cached = elim (b64decode cached) [
  | none ↦ raised Exn.value_error
  | some bytes ↦ ok (bytes_io bytes)
]

module _ (V : Services) where
  open V use {S3, config, sha1_hexdigest}

  -- `_cached_s3_download` under `lru_cache`: an exception is not cached.
  unfoldable pub cached_s3_download : String → String → Action S3 Bytes
  cached_s3_download bucket filename w = elim (find_cached bucket filename w.cached) [
    | some encoded ↦ (
      ok encoded,
      record w {
        cached =
            remember (record { bucket_name = bucket; filename = filename; encoded = encoded })
              w.cached;
      },
    )
    | none ↦ elim (V.s3download w.s3 bucket filename) [
      | ok bytes ↦ (
        ok (b64encode bytes),
        record w {
          cached =
              remember
                (record { bucket_name = bucket; filename = filename; encoded = b64encode bytes })
                w.cached;
        },
      )
      | raised e ↦ (raised e, w)
    ]
  ]

  -- `caching_s3download`
  unfoldable pub caching_s3download : String → String → Action S3 BytesIo
  caching_s3download bucket filename = do
    cached ← cached_s3_download bucket filename
    lift (decoded_stream cached)

  -- The key of `cache(*args, folder, extension)`, from the joined texts of the arguments.
  unfoldable pub cache_key : String → String → String → String
  cache_key folder extension joined_args =
      folder <> ("/" <> (sha1_hexdigest joined_args <> ("." <> extension)))

  -- What `new_function` does after the download was not found.
  unfoldable pub generate_and_store : String → Action S3 BytesIo → Action S3 BytesIo
  generate_and_store key original_function = do
    file ← original_function
    upload V (record {
      bucket_name = config.letter_cache_bucket_name;
      file_location = key;
      filedata = (read file).0;
      metadata = [];
    })
    pure (bytes_io file.contents)

  -- `new_function` of `init_cache`, with `suppress(S3ObjectNotFound)` round the download.
  unfoldable pub cached_call : String → Action S3 BytesIo → Action S3 BytesIo
  cached_call key original_function w =
      let (r, w') = caching_s3download config.letter_cache_bucket_name key w in
      elim r [
        | ok file ↦ (ok file, w')
        | raised Exn.s3_object_not_found ↦ generate_and_store key original_function w'
        | raised e ↦ (raised e, w')
      ]
