-- ===== src/Tasks/Templated/Frame.antt =====
-- What the task for templated letters keeps.
use notifications_template_p.Prelude.{
  ℕ, String, Bool, true, false, if◌then◌else◌, ◌≡◌, refl, ◌⊎◌, ltb, inl, inr, Bool-cases, arith,
}
use text.Mathlib.Text.{◌==◌ as eq_str}
use notifications_template_p.Python.Errors.{Exn, raised, Result-cases}
use notifications_template_p.Weasyprint.{write_pdf}
use notifications_template_p.Python.Stream.{BytesIo, read, rewind}
use notifications_template_p.External.{Libraries}
use notifications_template_p.Storage.{
  Services, World, ◌>>=◌, lift, Upload, upload, send_task, counted, LetterDetails, Language,
  QueuedLetter, Message, retry_task, again,
}
use notifications_template_p.Storage.Steps.{Keeps, Keeps-lift, Keeps->>=, Keeps-if}
use notifications_template_p.Templated.{get_datetime_from_json, print}
use notifications_template_p.Templated.Frame.{generate_templated_pdf-Keeps}
use notifications_template_p.Tasks.{
  letters_queue, sanitise_letters_queue, update_billable_units_for_letter,
  update_validation_failed_for_templated_letter,
}
use notifications_template_p.Tasks.Frame.{IsKept, MayPut, try_else-Keeps}
use notifications_template_p.Tasks.Templated.{
  template_arguments, write_or_retry, create_pdf_for_letter, prepare_pdf, get_page_count_for_pdf,
  is_weasyprint_error, templated_task, destination, upload_and_tell,
  create_pdf_for_templated_letter,
}

module _ (lib : Libraries) (V : Services) {R : World V.S3 → World V.S3 → Type 0}
    (kept : IsKept V R) where
  open V use {S3, config, decode, print_template}

  retry_task-Keeps :
      (group encoded : String) (e : Exn)
      → Keeps R (retry_task V {A = BytesIo} (templated_task group encoded) sanitise_letters_queue e)
  retry_task-Keeps group encoded e w = when (V.retry (templated_task group encoded) e).is_sent
    where
      message : Message
      message = again (templated_task group encoded) sanitise_letters_queue

      when : (b : Bool) → R w (if b then (send_task message w).1 else w)
      when true = kept.told message (inr (refl, refl)) w
      when false = kept.preorder.same w

  write_or_retry-Keeps :
      (group encoded html : String)
      → Keeps R (write_or_retry lib V (templated_task group encoded) html)
  unfolding write_or_retry
  write_or_retry-Keeps group encoded html w = elim (Result-cases (write_pdf V html)) [
    | inl (bytes, r) ↦ rw (r, write_or_retry) (kept.preorder.same w)
    | inr (e, r) ↦
        rw (r, write_or_retry)
          (Keeps-if kept.preorder (is_weasyprint_error e)
            (retry_task V (templated_task group encoded) sanitise_letters_queue e) (lift (raised e))
            (retry_task-Keeps group encoded e) (λ v. kept.preorder.same v) w)
  ]

  create_pdf_for_letter-Keeps :
      (group encoded : String) (d : LetterDetails) (language : Language) (first : Bool)
      → Keeps R (create_pdf_for_letter lib V (templated_task group encoded) d language first)
  unfolding create_pdf_for_letter
  create_pdf_for_letter-Keeps group encoded d language first =
      Keeps->>= kept.preorder (lift (get_datetime_from_json V d))
        (λ date.
          write_or_retry lib V (templated_task group encoded)
            (print_template (template_arguments lib V d language first date)))
        (Keeps-lift kept.preorder (get_datetime_from_json V d))
        (λ date. write_or_retry-Keeps group encoded _)

  prepare_pdf-Keeps :
      (group encoded : String) (d : LetterDetails)
      → Keeps R (prepare_pdf lib V (templated_task group encoded) d)
  unfolding prepare_pdf
  prepare_pdf-Keeps group encoded d =
      generate_templated_pdf-Keeps lib V kept.preorder kept.cached d
        (create_pdf_for_letter lib V (templated_task group encoded)) print
        (create_pdf_for_letter-Keeps group encoded d)

  -- A relation that uploads into each of the three buckets of letters keep.
  abbrev pub MayPutLetters : Type 0
  MayPutLetters =
      MayPut V R config.letters_pdf_bucket_name
      × MayPut V R config.test_letters_bucket_name
      × MayPut V R config.invalid_pdf_bucket_name

  destination-Keeps :
      (d : QueuedLetter) (n : ℕ) (u : Upload)
      → u.bucket_name ≡ (destination lib V d n).bucket_name
      → MayPutLetters
      → Keeps R (upload V u)
  unfolding destination
  destination-Keeps d n u e (final, tested, invalid) =
      elim (Bool-cases (ltb V.letter_max_page_count n)) [
        | inl p ↦ invalid u (ground arith)
        | inr p ↦ elim (Bool-cases (eq_str d.key_type "test")) [
          | inl q ↦ tested u (ground arith)
          | inr q ↦ final u (ground arith)
        ]
      ]

  named :
      (d : QueuedLetter) (n : ℕ)
      → ((destination lib V d n).task_name ≡ update_billable_units_for_letter)
        ⊎ ((destination lib V d n).task_name ≡ update_validation_failed_for_templated_letter)
  unfolding destination
  named d n = elim (Bool-cases (ltb V.letter_max_page_count n)) [
    | inl p ↦ inr (ground arith)
    | inr p ↦ inl (ground arith)
  ]

  upload_and_tell-Keeps :
      (group : String) (d : QueuedLetter) (n : ℕ) (pdf : BytesIo)
      → MayPutLetters
      → Keeps R (upload_and_tell lib V group d n pdf)
  unfolding upload_and_tell
  upload_and_tell-Keeps group d n pdf put =
      let place = destination lib V d n in
      let stored : Upload = record {
        bucket_name = place.bucket_name;
        file_location = place.filename;
        filedata = (read pdf).0;
        metadata = place.metadata;
      } in
      try_else-Keeps V kept (upload V stored)
        (λ _. send_task (record {
          name = place.task_name;
          payload = counted d.notification_id n;
          queue = letters_queue;
          message_group_id = group;
        }))
        (destination-Keeps d n stored refl put) (λ _. kept.told _ (inl (refl, inr (named d n))))

  pub create_pdf_for_templated_letter-Keeps :
      (group encoded : String)
      → MayPutLetters
      → Keeps R (create_pdf_for_templated_letter lib V group encoded)
  unfolding create_pdf_for_templated_letter
  create_pdf_for_templated_letter-Keeps group encoded put =
      let P = kept.preorder in
      Keeps->>= P (lift (decode encoded))
        (λ d. do
          pdf ← prepare_pdf lib V (templated_task group encoded) d.letter
          (n, f) ← lift (get_page_count_for_pdf lib V pdf)
          upload_and_tell lib V group d n (rewind f))
        (Keeps-lift P (decode encoded))
        (λ d.
          Keeps->>= P (prepare_pdf lib V (templated_task group encoded) d.letter)
            (λ pdf. do
              (n, f) ← lift (get_page_count_for_pdf lib V pdf)
              upload_and_tell lib V group d n (rewind f))
            (prepare_pdf-Keeps group encoded d.letter)
            (λ pdf.
              Keeps->>= P (lift (get_page_count_for_pdf lib V pdf))
                (λ (n, f). upload_and_tell lib V group d n (rewind f))
                (Keeps-lift P (get_page_count_for_pdf lib V pdf))
                (λ (n, f). upload_and_tell-Keeps group d n (rewind f) put)))
