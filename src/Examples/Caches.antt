-- ===== src/Examples/Caches.antt =====
-- Runs of the two caches on a small store.
use notifications_template_p.Prelude.{All, ◌≡◌, refl, true, [], ◌∷◌, arith}
use notifications_template_p.Python.Errors.{Exn, ok, raised}
use notifications_template_p.Python.Stream.{Bytes, BytesIo, bytes_io}
use notifications_template_p.Python.Base64.{IsByte, b64encode, b64decode, letter}
use notifications_template_p.Storage.{World, Action, pure}
use notifications_template_p.Cache.{
  find_cached, remember, drop_cached, take_cached, cached_s3_download, caching_s3download,
  decoded_stream, cached_call,
}
use notifications_template_p.Cache.Laws.{cached_call-stores}
use notifications_template_p.Examples.{services, services-IsLawful, Files, no_files, put_file}
use notifications_template_p.Examples.Store.{world}

-- S3 with one attachment, before and after it was replaced.
abbrev attached : Bytes → Files
attached bytes = put_file "attachments" "k" (ok bytes) no_files

two_bytes : All IsByte (4 ∷ 2 ∷ [])
two_bytes = (omega arith, (omega arith, tt))

-- The process after it read the attachment.
abbrev warm : World Files
warm = record {
  s3 = attached (4 ∷ 2 ∷ []);
  sent = [];
  cached =
      record { bucket_name = "attachments"; filename = "k"; encoded = b64encode (4 ∷ 2 ∷ []) } ∷ [];
}

first_read :
    caching_s3download (services true) "attachments" "k" (world (attached (4 ∷ 2 ∷ [])))
    ≡ (ok (bytes_io (4 ∷ 2 ∷ [])), warm)
unfolding caching_s3download cached_s3_download find_cached remember drop_cached take_cached
    decoded_stream b64decode b64encode letter
first_read = refl

-- A preview that was generated, and stored.
abbrev preview : Action Files BytesIo
preview = pure (bytes_io (4 ∷ 2 ∷ []))

abbrev failing : Action Files BytesIo
failing w = (raised Exn.other, w)

abbrev with_preview : Files
with_preview = put_file "cache" "templated/x" (ok (4 ∷ 2 ∷ [])) no_files

cached_call-stores_example :
    (cached_call (services true) "templated/x" preview (world no_files)
      ≡ (ok (bytes_io (4 ∷ 2 ∷ [])), record (world no_files) { s3 = with_preview }))
    × ((cached_call (services true) "templated/x" failing (world with_preview)).0
        ≡ ok (bytes_io (4 ∷ 2 ∷ [])))
unfolding find_cached
cached_call-stores_example =
    cached_call-stores (services true) (services-IsLawful true) "templated/x" preview
      (world no_files) (world no_files) (bytes_io (4 ∷ 2 ∷ [])) with_preview failing
      (world with_preview) refl refl refl refl two_bytes refl refl refl
