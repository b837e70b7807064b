-- ===== src/System.antt =====
-- A process of the service: it answers requests and runs tasks, in any order.
pub mod Buckets
pub mod Durable
pub mod Workers
pub mod Messages
pub mod Caches
use notifications_template_p.Prelude.{String, Bool, List, [], ◌∷◌}
use notifications_template_p.External.{Libraries}
use notifications_template_p.Storage.{Services, IsLawful, World}
use notifications_template_p.Tasks.{
  sanitise_and_upload_letter, recreate_pdf_for_precompiled_letter,
  recreate_pdf_for_template_letter_attachments,
}
use notifications_template_p.Tasks.Templated.{create_pdf_for_templated_letter}
use notifications_template_p.Storage.{copy_s3_object}
use notifications_template_p.Storage.Steps.{Keeps}
use notifications_template_p.Tasks.Precompiled.{backup_copy}
use notifications_template_p.Tasks.Frame.{
  IsKept, MayPut, sanitise_and_upload_letter-Keeps, recreate_pdf_for_precompiled_letter-Keeps,
  recreate_pdf_for_template_letter_attachments-Keeps,
}
use notifications_template_p.Tasks.Templated.Frame.{
  MayPutLetters, create_pdf_for_templated_letter-Keeps,
}
use notifications_template_p.Tasks.Ahead.{
  Ahead, Ahead-IsPreorder, Ahead-IsKept, upload-Ahead, copy_s3_object-Ahead,
}
use notifications_template_p.App.Http.{Request}
use notifications_template_p.App.Serve.{Web, Endpoint, serve}
use notifications_template_p.App.Serve.Laws.{serve-Frame}

-- A request to an endpoint, or a task with its arguments.
pub data Event : Type 0 where
  requested : Endpoint → Request → Event
  sanitise : String → String → String → Bool → Event
  create : String → String → Event
  recreate : String → String → Bool → Event
  recreate_attachment : String → String → String → Event

module _ (web : Web) (lib : Libraries) (V : Services) where
  open V use {S3, config}

  -- The world after an event, whatever it answers or raises.
  unfoldable pub after : Event → World S3 → World S3
  after (requested endpoint request) w = (serve web lib V endpoint request w).1
  after (sanitise group nid filename allow) w =
      (sanitise_and_upload_letter lib V group nid filename allow w).1
  after (create group encoded) w = (create_pdf_for_templated_letter lib V group encoded w).1
  after (recreate nid file_location allow) w =
      (recreate_pdf_for_precompiled_letter lib V nid file_location allow w).1
  after (recreate_attachment service_id attachment_id original_filename) w =
      (recreate_pdf_for_template_letter_attachments lib V service_id attachment_id original_filename
        w).1

  -- The worlds that a run of events leads to.
  pub data Leads : World S3 → World S3 → Type 0 where
    stay : (w : World S3) → Leads w w
    next : (w v : World S3) (e : Event) → Leads (after e w) v → Leads w v

  -- An event keeps a relation that what it does to S3 keeps.
  module _ (lawful : IsLawful V) {R : World S3 → World S3 → Type 0} (kept : IsKept V R) where
    -- What an event puts into S3 outside of the bucket of the cache keeps the relation.
    abbrev pub MayDo : Event → Type 0
    MayDo (requested endpoint request) = Unit
    MayDo (sanitise group nid filename allow) =
        MayPut V R config.sanitised_letter_bucket_name
        × Keeps R (copy_s3_object V (backup_copy lib V nid filename))
    MayDo (create group encoded) = MayPutLetters lib V kept
    MayDo (recreate nid file_location allow) = MayPut V R config.letters_pdf_bucket_name
    MayDo (recreate_attachment service_id attachment_id original_filename) =
        MayPut V R config.letter_attachment_bucket_name

    pub after-Keeps : (e : Event) → MayDo e → (w : World S3) → R w (after e w)
    unfolding after
    after-Keeps (requested endpoint request) h w =
        kept.cached w _ (serve-Frame web lib V lawful endpoint request w)
    after-Keeps (sanitise group nid filename allow) (put, copy) w =
        sanitise_and_upload_letter-Keeps lib V kept group nid filename allow put copy w
    after-Keeps (create group encoded) put w =
        create_pdf_for_templated_letter-Keeps lib V kept group encoded put w
    after-Keeps (recreate nid file_location allow) put w =
        recreate_pdf_for_precompiled_letter-Keeps lib V kept nid file_location allow put w
    after-Keeps (recreate_attachment service_id attachment_id original_filename) put w =
        recreate_pdf_for_template_letter_attachments-Keeps lib V kept service_id attachment_id
          original_filename put w

  module _ (lawful : IsLawful V) where
    pub after-Ahead : (e : Event) (w : World S3) → Ahead w (after e w)
    after-Ahead e = after-Keeps lawful (Ahead-IsKept V) e (may_do e)
      where
        put : (bucket : String) → MayPut V Ahead bucket
        put bucket u e = upload-Ahead V u

        may_do : (e : Event) → MayDo lawful (Ahead-IsKept V) e
        may_do (requested endpoint request) = tt
        may_do (sanitise group nid filename allow) = (put _, copy_s3_object-Ahead V _)
        may_do (create group encoded) = (put _, put _, put _)
        may_do (recreate nid file_location allow) = put _
        may_do (recreate_attachment service_id attachment_id original_filename) = put _

    -- In every world that requests and tasks, in any order and with any failures, lead to, the
    -- messages are those from before, followed by new ones, each of them to the queue of letters under
    -- the name of one of the three tasks of the API, or a task for templated letters that celery's
    -- retry sends again, and the process's cache, if it was valid (at most 2000 entries, no name
    -- twice), still is. S3 keeps its promises.
    pub Leads-Ahead : (w v : World S3) → Leads w v → Ahead w v
    Leads-Ahead w v (stay _) = (Ahead-IsPreorder).same w
    Leads-Ahead w v (next _ _ e run) =
        (Ahead-IsPreorder).chain w (after e w) v (after-Ahead e w) (Leads-Ahead (after e w) v run)
