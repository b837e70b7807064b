-- ===== src/System/Buckets.antt =====
-- Buckets with different names are told apart.
use text.Mathlib.Text.{◌==◌ as eq_str}
use text.Mathlib.TextEquality.{eq_iff}
use notifications_template_p.Prelude.{
  ◌≡◌, sym, ◌∙◌, String, true, false, List, [], ◌∷◌, inl, inr, All, arith, Bool-cases,
}
use notifications_template_p.Storage.{Config}
use notifications_template_p.App.Config.Laws.{bucket_names, is_in, are_different}

true_is_not_false : true ≡ false → ⊥
true_is_not_false e = ground arith

pub apart_symm : (a b : String) → eq_str a b ≡ false → eq_str b a ≡ false
apart_symm a b h = elim (Bool-cases (eq_str b a)) [
  | inl e ↦ absurd (true_is_not_false (sym ((eq_iff a b).1 (sym ((eq_iff b a).0 e))) ∙ h))
  | inr e ↦ e
]

-- A text is none of others.
abbrev IsApart : String → List String → Type 0
IsApart s = All (λ t. eq_str s t ≡ false)

is_in-IsApart : (s : String) (ts : List String) → is_in s ts ≡ false → IsApart s ts
is_in-IsApart s [] h = tt
is_in-IsApart s (t ∷ ts) h = (ground arith, is_in-IsApart s ts (ground arith))

abbrev AreApart : List String → Type 0
AreApart [] = Unit
AreApart (s ∷ ss) = IsApart s ss × AreApart ss

are_different-AreApart : (ss : List String) → are_different ss ≡ true → AreApart ss
are_different-AreApart [] h = tt
are_different-AreApart (s ∷ ss) h =
    (is_in-IsApart s ss (ground arith), are_different-AreApart ss (ground arith))

-- What the buckets of originals are told apart from: each other and every bucket that is written to.
pub record IsReserved (c : Config) (bucket : String) : Type 0 where
  pub cache : eq_str bucket c.letter_cache_bucket_name ≡ false
  pub final : eq_str bucket c.letters_pdf_bucket_name ≡ false
  pub tested : eq_str bucket c.test_letters_bucket_name ≡ false
  pub invalid : eq_str bucket c.invalid_pdf_bucket_name ≡ false
  pub sanitised : eq_str bucket c.sanitised_letter_bucket_name ≡ false
  pub attachments : eq_str bucket c.letter_attachment_bucket_name ≡ false

abbrev pub AreReserved : Config → Type 0
AreReserved c =
    IsReserved c c.letters_scan_bucket_name
    × IsReserved c c.precompiled_originals_backup_letter_bucket_name
    × (eq_str c.letters_scan_bucket_name c.precompiled_originals_backup_letter_bucket_name ≡ false)

-- Of eight buckets with different names, the scan and the backup bucket are not written to by what
-- is stored in the six others.
pub are_different-AreReserved : (c : Config) → are_different (bucket_names c) ≡ true → AreReserved c
are_different-AreReserved c h = reserved (are_different-AreApart (bucket_names c) h)
  where
    reserved : AreApart (bucket_names c) → AreReserved c
    reserved a = (
      record {
        cache = a.0.0;
        final = a.0.1.0;
        tested = a.0.1.1.0;
        invalid = a.0.1.1.1.0;
        sanitised = a.0.1.1.1.1.0;
        attachments = a.0.1.1.1.1.1.1.0;
      },
      record {
        cache = apart_symm _ _ a.1.0.1.1.1.1.0;
        final = apart_symm _ _ a.1.1.0.1.1.1.0;
        tested = apart_symm _ _ a.1.1.1.0.1.1.0;
        invalid = apart_symm _ _ a.1.1.1.1.0.1.0;
        sanitised = apart_symm _ _ a.1.1.1.1.1.0.0;
        attachments = a.1.1.1.1.1.1.0.0;
      },
      a.0.1.1.1.1.1.0,
    )
