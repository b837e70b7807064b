-- ===== src/Python/Text.antt =====
-- Texts that the source takes apart are lists of code points; texts that it only compares and
-- passes on are native strings.
use Prim.Native.Char.{code}
use Prim.Native.String.{◌++◌ as ◌<>◌}
use notifications_template_p.Prelude.{
  ℕ, zero, suc, ◌/◌, ◌%◌, String, Bool, true, false, ◌&&◌, ◌||◌, List, [], ◌∷◌, ◌++◌, ◌==◌, ltb,
  if◌then◌else◌,
}

abbrev pub Text : Type 0
Text = List ℕ

-- The code points of a literal.
abbrev pub codes : String → Text
codes String.[] = []
codes (String.◌∷◌ c s) = code c ∷ codes s

unfoldable pub eq_text : Text → Text → Bool
eq_text [] [] = true
eq_text (a ∷ s) (b ∷ t) = (a == b) && eq_text s t
eq_text _ _ = false

-- `separator.join(parts)`
unfoldable pub join : Text → List Text → Text
join separator [] = []
join separator (p ∷ []) = p
join separator (p ∷ q ∷ ps) = p ++ separator ++ join separator (q ∷ ps)

unfoldable pub starts_with : Text → Text → Bool
starts_with [] t = true
starts_with (a ∷ s) [] = false
starts_with (a ∷ s) (b ∷ t) = (a == b) && starts_with s t

-- `part in whole`
unfoldable pub is_in : Text → Text → Bool
unfolding starts_with
is_in part [] = starts_with part []
is_in part (c ∷ whole) = starts_with part (c ∷ whole) || is_in part whole

-- `whole.count(c)` of one character.
unfoldable pub count : ℕ → Text → ℕ
count c [] = 0
count c (d ∷ t) = if c == d then suc (count c t) else count c t

digit : ℕ → String
digit zero = "0"
digit (suc zero) = "1"
digit (suc (suc zero)) = "2"
digit (suc (suc (suc zero))) = "3"
digit (suc (suc (suc (suc zero)))) = "4"
digit (suc (suc (suc (suc (suc zero))))) = "5"
digit (suc (suc (suc (suc (suc (suc zero)))))) = "6"
digit (suc (suc (suc (suc (suc (suc (suc zero))))))) = "7"
digit (suc (suc (suc (suc (suc (suc (suc (suc zero)))))))) = "8"
digit _ = "9"

str_from : ℕ → ℕ → String
str_from zero n = ""
str_from (suc f) n =
    let higher = str_from f (n / 10) <> digit (n % 10) in if ltb n 10 then digit n else higher

-- `str(n)`. A number has at most as many digits as it counts, and one.
unfoldable pub str : ℕ → String
unfolding str_from digit
str n = str_from (suc n) n
