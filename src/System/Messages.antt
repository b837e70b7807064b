-- ===== src/System/Messages.antt =====
-- What the processes of the service do to the messages and to their caches.
use notifications_template_p.Prelude.{
  ℕ, ◌==◌, ◌≡◌, inl, inr, subst, List, [], ◌∷◌, arith, Bool-cases, if◌then◌else◌,
}
use notifications_template_p.External.{Libraries}
use notifications_template_p.Storage.{Services, IsLawful, World}
use notifications_template_p.Cache.Entries.{IsValid}
use notifications_template_p.Tasks.Ahead.{Ahead, Ahead-IsPreorder}
use notifications_template_p.App.Serve.{Web}
use notifications_template_p.System.{Event, after, after-Ahead}
use notifications_template_p.System.Workers.{Service, seen_by, left_by, run}

-- What one process did, as any process sees it.
left_by-Ahead :
    {S : Type 0} (service : Service S) (i j : ℕ) (w : World S)
    → Ahead (seen_by i service) w
    → Ahead (seen_by j service) (seen_by j (left_by i w service))
left_by-Ahead service i j w h = record { added = h.added; valid = λ valid. still valid }
  where
    still : IsValid (service.caches j) → IsValid (if j == i then w.cached else service.caches j)
    still valid = elim (Bool-cases (j == i)) [
      | inl e ↦
          let same : j ≡ i = ground arith in
          rw e (h.valid (subst (λ k. IsValid (service.caches k)) same valid))
      | inr e ↦ rw e valid
    ]

module _ (web : Web) (lib : Libraries) (V : Services) where
  open V use {S3}

  -- In every run of several processes, whatever requests they answer and whatever tasks they run, one
  -- after the other, in any order and with any failures, the messages after it are those from before,
  -- followed by new ones; each of these goes to the queue of letters under the name of one of the
  -- three tasks of the API, or is the task for templated letters that celery's retry sends again to
  -- the queue for sanitising; and every process whose cache was valid (at most 2000 entries, no name
  -- twice) still has a valid one. S3 keeps its promises.
  pub run-Ahead :
      IsLawful V
      → (es : List (ℕ × Event)) (service : Service S3) (worker : ℕ)
      → Ahead (seen_by worker service) (seen_by worker (run web lib V es service))
  unfolding run
  run-Ahead lawful [] service worker = (Ahead-IsPreorder).same (seen_by worker service)
  run-Ahead lawful ((i, e) ∷ es) service worker =
      let next : Service S3 = left_by i (after web lib V e (seen_by i service)) service in
      (Ahead-IsPreorder).chain (seen_by worker service) (seen_by worker next) _
        (left_by-Ahead service i worker _ (after-Ahead web lib V lawful e (seen_by i service)))
        (run-Ahead lawful es next worker)
