-- ===== src/Examples/Durable.antt =====
-- A letter that passed, and events of other processes until it is made again: its file is sanitised
-- once more, another letter is refused, a letter is made, and a page is asked for.
use text.Mathlib.TextEquality.{eq_iff}
use notifications_template_p.Prelude.{ℕ, arith, ◌≡◌, refl, All, true, false, List, [], ◌∷◌}
use notifications_template_p.Python.Errors.{ok}
use notifications_template_p.Storage.{World}
use notifications_template_p.Tasks.{recreate_pdf_for_precompiled_letter}
use notifications_template_p.App.Serve.{preview_pdf}
use notifications_template_p.System.{Event, requested, sanitise, create}
use notifications_template_p.System.Workers.{Service, seen_by, run, recreated_after_run}
use notifications_template_p.System.Durable.{KeepsFile}
use notifications_template_p.Examples.{toy, services, services-IsLawful, Files, put_file}
use notifications_template_p.Examples.Letters.{good_letter}
use notifications_template_p.Examples.Store.{
  scanned, after_upload, after_copy, good_message, good_file, good_bytes,
}
use notifications_template_p.Examples.Steady.{web, request}

-- The process of each event, and the event.
abbrev events : List (ℕ × Event)
events =
    (2, sanitise "s1" "n1" "A.PDF" false)
    ∷ (1, sanitise "s1" "n2" "B.PDF" true)
    ∷ (3, create "s1" "short")
    ∷ (2, requested preview_pdf request)
    ∷ []

other_letter : false ≡ true → ⊥
other_letter e = ground arith

events_keep_file : All (λ (worker, e). KeepsFile "n1" "A.PDF" e) events
events_keep_file =
    ((λ same. refl), ((λ same. absurd (other_letter ((eq_iff "n2" "n1").1 same))), (tt, (tt, tt))))

abbrev service : Service Files
service = record { s3 = scanned good_letter; sent = []; caches = λ worker. [] }

abbrev at_last : Service Files
at_last = run web toy (services true) ((1, sanitise "s1" "n1" "A.PDF" false) ∷ events) service

recreated_after_run_example :
    let later : World Files = seen_by 4 at_last in
    let u : Files = put_file "pdf" "2024/A.PDF" (ok (23 ∷ 4 ∷ [])) later.s3 in
    (recreate_pdf_for_precompiled_letter toy (services true) "n1" "2024/A.PDF" false later
      ≡ (ok tt, record later { s3 = u }))
    × (u "pdf" "2024/A.PDF" ≡ ok (23 ∷ 4 ∷ []))
recreated_after_run_example =
    recreated_after_run web toy (services true) (services-IsLawful true) refl "n1" "A.PDF"
      good_letter "s1" "2024/A.PDF" false false (23 ∷ 4 ∷ []) (23 ∷ 4 ∷ []) service 1 4 after_upload
      after_copy (put_file "pdf" "2024/A.PDF" (ok (23 ∷ 4 ∷ [])) at_last.s3) events refl
      good_message good_file good_bytes refl refl events_keep_file good_message good_file good_bytes
      refl
