-- ===== src/Tasks/Ahead.antt =====
-- The tasks only add messages, and keep the order in the process's cache.
use mathlib.Core.List.{append-nil, append_assoc}
use notifications_template_p.Prelude.{◌≡◌, refl, sym, ◌∙◌, ap, List, [], ◌∷◌, ◌++◌, inl, inr, All}
use notifications_template_p.Python.Errors.{Result-cases}
use notifications_template_p.Storage.{
  Services, World, Message, Upload, Copy, upload, copy_s3_object, send_task,
}
use notifications_template_p.Storage.Steps.{Keeps, IsPreorder}
use notifications_template_p.Cache.Entries.{IsValid}
use notifications_template_p.Cache.Frame.{Frame}
use notifications_template_p.Tasks.Frame.{IsKept, IsAddressed}

-- Only messages of the tasks were added, and a valid cache of the process stays valid.
pub record Ahead {S : Type 0} (w w' : World S) : Type 0 where
  pub added : (ms : List Message) × (w'.sent ≡ w.sent ++ ms) × All IsAddressed ms
  pub valid : IsValid w.cached → IsValid w'.cached

All-append :
    (ms ns : List Message) → All IsAddressed ms → All IsAddressed ns → All IsAddressed (ms ++ ns)
All-append [] ns h k = k
All-append (m ∷ ms) ns (p, h) k = (p, All-append ms ns h k)

pub Ahead-IsPreorder : {S : Type 0} → IsPreorder {S = S} Ahead
Ahead-IsPreorder = record {
  same = λ w. record { added = ([], sym (append-nil w.sent), tt); valid = λ h. h };
  chain = λ u v w h k. record {
    added = (
      h.added.0 ++ k.added.0,
      k.added.1 ∙ ap (λ t. t ++ k.added.0) h.added.1 ∙ append_assoc u.sent h.added.0 k.added.0,
      All-append h.added.0 k.added.0 h.added.2 k.added.2,
    );
    valid = λ x. k.valid (h.valid x);
  };
}

Frame-Ahead : (V : Services) (w w' : World V.S3) → Frame V w w' → Ahead w w'
Frame-Ahead V w w' h = record {
  added = ([], h.sent_same ∙ sym (append-nil w.sent), tt);
  valid = h.valid;
}

send_task-Ahead : {S : Type 0} (m : Message) → IsAddressed m → Keeps Ahead (send_task {S = S} m)
send_task-Ahead m h w = record { added = (m ∷ [], refl, (h, tt)); valid = λ h. h }

module _ (V : Services) where
  open V use {S3}

  pub upload-Ahead : (u : Upload) → Keeps Ahead (upload V u)
  upload-Ahead u w = elim (Result-cases (V.s3upload w.s3 u)) [
    | inl (s, r) ↦
        rw (r, upload) (record { added = ([], sym (append-nil w.sent), tt); valid = λ h. h })
    | inr (e, r) ↦ rw (r, upload) ((Ahead-IsPreorder).same w)
  ]

  pub copy_s3_object-Ahead : (c : Copy) → Keeps Ahead (copy_s3_object V c)
  unfolding copy_s3_object
  copy_s3_object-Ahead c w = elim (Result-cases (V.copy_object w.s3 c)) [
    | inl (s, r) ↦
        rw (r, copy_s3_object)
          (record { added = ([], sym (append-nil w.sent), tt); valid = λ h. h })
    | inr (e, r) ↦ rw (r, copy_s3_object) ((Ahead-IsPreorder).same w)
  ]

  pub Ahead-IsKept : IsKept V Ahead
  Ahead-IsKept = record {
    preorder = Ahead-IsPreorder;
    told = send_task-Ahead;
    cached = Frame-Ahead V;
  }
