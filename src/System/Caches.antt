-- ===== src/System/Caches.antt =====
-- The cache of generated files under several processes, which share its bucket and have an
-- `lru_cache` each.
use notifications_template_p.Prelude.{
  ℕ, ◌==◌, ◌≡◌, refl, ap, ◌∙◌, inl, inr, String, List, [], ◌∷◌, map, Bool-cases,
}
use notifications_template_p.Python.Errors.{Result}
use notifications_template_p.Python.Stream.{BytesIo}
use notifications_template_p.Storage.{Services, IsLawful, World, lift}
use notifications_template_p.Cache.{cached_call}
use notifications_template_p.Cache.Coherent.{IsAvailable, IsFresh, IsCoherent, cached_call-refines}
use notifications_template_p.System.Workers.{Service, seen_by, left_by}

module _ (V : Services) (generated : String → Result BytesIo) where
  open V use {S3}

  -- Cached calls of processes, one after the other: the results, and what is left behind.
  pub calls : List (ℕ × String) → Service S3 → List (Result BytesIo) × Service S3
  calls [] service = ([], service)
  calls ((worker, key) ∷ cs) service =
      let (result, w) = cached_call V key (lift (generated key)) (seen_by worker service) in
      let (results, last) = calls cs (left_by worker w service) in (result ∷ results, last)

  -- Whatever is cached, in S3 or by one of the processes, is what is generated.
  abbrev pub AreCoherent : Service S3 → Type 0
  AreCoherent service = (worker : ℕ) → IsCoherent V generated (seen_by worker service)

  left_by-AreCoherent :
      (service : Service S3) (i : ℕ) (w : World S3)
      → AreCoherent service
      → IsCoherent V generated w
      → AreCoherent (left_by i w service)
  left_by-AreCoherent service i w h coherent j = record {
    in_s3 = coherent.in_s3;
    in_process = λ key encoded found. elim (Bool-cases (j == i)) [
      | inl e ↦ coherent.in_process key encoded (rw e at found)
      | inr e ↦ (h j).in_process key encoded (rw e at found)
    ];
  }

  -- However the cached calls of several processes follow one another, each gives what the function
  -- behind it gives, its error included, and in the end what is cached, in S3 or by a process, is
  -- what is generated, if it was so before. S3 keeps its promises and answers, and what is generated
  -- are streams of bytes at their start.
  pub calls-refine :
      IsLawful V
      → IsAvailable V
      → IsFresh generated
      → (cs : List (ℕ × String)) (service : Service S3) → AreCoherent service
      → ((calls cs service).0 ≡ map (λ (worker, key). generated key) cs)
        × AreCoherent (calls cs service).1
  unfolding calls
  calls-refine lawful available fresh [] service h = (refl, h)
  calls-refine lawful available fresh ((i, key) ∷ cs) service h =
      let (same, coherent) =
        cached_call-refines V generated lawful available fresh key (seen_by i service) (h i) in
      let next : Service S3 =
        left_by i (cached_call V key (lift (generated key)) (seen_by i service)).1 service in
      let (rest, last) =
        calls-refine lawful available fresh cs next (left_by-AreCoherent service i _ h coherent) in
      (ap (λ r. r ∷ (calls cs next).0) same ∙ ap (λ rs. generated key ∷ rs) rest, last)
