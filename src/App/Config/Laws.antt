-- ===== src/App/Config/Laws.antt =====
-- The buckets are told apart by their names.
use text.Mathlib.Text.{◌==◌ as eq_str}
use notifications_template_p.Prelude.{
  ◌≡◌, refl, inl, inr, String, Bool, true, false, not, ◌&&◌, ◌||◌, List, [], ◌∷◌, Bool-cases,
}
use notifications_template_p.Storage.{Config}
use notifications_template_p.App.Config.{configs, chosen_config}

abbrev pub bucket_names : Config → List String
bucket_names c =
    c.letters_scan_bucket_name ∷ c.letter_cache_bucket_name ∷ c.letters_pdf_bucket_name
    ∷ c.test_letters_bucket_name ∷ c.invalid_pdf_bucket_name ∷ c.sanitised_letter_bucket_name
    ∷ c.precompiled_originals_backup_letter_bucket_name ∷ c.letter_attachment_bucket_name ∷ []

-- Whether no two texts are the same.
abbrev pub is_in : String → List String → Bool
is_in s [] = false
is_in s (t ∷ ts) = eq_str s t || is_in s ts

abbrev pub are_different : List String → Bool
are_different [] = true
are_different (s ∷ ss) = not (is_in s ss) && are_different ss

-- The application has eight different buckets in every environment, if the process's environment names eight different ones.
pub chosen_config-are_different :
    (notify_environment : String) (deployed : Config)
    → are_different (bucket_names deployed) ≡ true
    → are_different (bucket_names (chosen_config notify_environment deployed)) ≡ true
unfolding chosen_config configs
chosen_config-are_different notify_environment deployed h =
    elim (Bool-cases (eq_str notify_environment "development")) [
      | inl dev ↦ rw (dev, chosen_config, configs) refl
      | inr other ↦ elim (Bool-cases (eq_str notify_environment "test")) [
        | inl testing ↦ rw (other, testing, chosen_config, configs) refl
        | inr unnamed ↦ rw (other, unnamed, chosen_config, configs) h
      ]
    ]
