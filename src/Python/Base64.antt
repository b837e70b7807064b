-- ===== src/Python/Base64.antt =====
-- `base64.b64encode` and `base64.b64decode`, after `binascii`.
use notifications_template_p.Prelude.{
  ℕ, ◌+◌, ◌-◌, ◌*◌, ◌/◌, ◌%◌, ◌<◌, ◌≡◌, refl, Bool, true, false, ◌&&◌, [], ◌∷◌, Option, none, some,
  arith, ltb, leb, ◌==◌, if◌then◌else◌, All,
}
use notifications_template_p.Python.Stream.{Bytes}
use mathlib.Core.Option

-- The letter of a number below 64.
unfoldable pub letter : ℕ → ℕ
letter v =
    if ltb v 26
    then v + 65
    else if ltb v 52
    then v + 71
    else if ltb v 62
    then v - 4
    else if v == 62
    then 43
    else 47

-- The number of a letter, and `none` for any other character.
sextet : ℕ → Option ℕ
sextet c =
    if leb 65 c && leb c 90
    then some (c - 65)
    else if leb 97 c && leb c 122
    then some (c - 71)
    else if leb 48 c && leb c 57
    then some (c + 4)
    else if c == 43
    then some 62
    else if c == 47
    then some 63
    else none

unfoldable pub b64encode : Bytes → Bytes
b64encode [] = []
b64encode (a ∷ []) = letter (a / 4) ∷ letter ((a % 4) * 16) ∷ 61 ∷ 61 ∷ []
b64encode (a ∷ b ∷ []) =
    letter (a / 4) ∷ letter ((a % 4) * 16 + b / 16) ∷ letter ((b % 16) * 4) ∷ 61 ∷ []
b64encode (a ∷ b ∷ c ∷ rest) =
    letter (a / 4)
    ∷ letter ((a % 4) * 16 + b / 16)
    ∷ letter ((b % 16) * 4 + c / 64)
    ∷ letter (c % 64)
    ∷ b64encode rest

-- What is kept of the letters read so far: 6, 4 or 2 bits.
pub data Pending : Type 0 where
  fresh : Pending
  six four two : ℕ → Pending

-- `leftchar` and the byte, if one is complete, after another letter.
take_in : Pending → ℕ → Pending × Option ℕ
take_in fresh v = (six v, none)
take_in (six l) v = (four (v % 16), some (l * 4 + v / 16))
take_in (four l) v = (two (v % 4), some (l * 16 + v / 4))
take_in (two l) v = (fresh, some (l * 64 + v))

-- Whether a padding character, after `pads` others, ends the text.
closes : Pending → ℕ → Bool
closes (four _) pads = leb 1 pads
closes (two _) pads = true
closes _ _ = false

abbrev put : Option ℕ → Option Bytes → Option Bytes
put none out = out
put (some b) out = Option.map (λ bs. b ∷ bs) out

-- What one more character leads to: the end of the text, or what is kept, the number of padding
-- characters in a row, and the byte that is complete.
pub data Progress : Type 0 where
  stop : Progress
  go : Pending → ℕ → Option ℕ → Progress

pad : Pending → ℕ → Progress
pad fresh pads = go fresh pads none
pad (six l) pads = go (six l) pads none
pad (four l) pads = if leb 1 pads then stop else go (four l) (pads + 1) none
pad (two l) pads = stop

step : Pending → ℕ → ℕ → Progress
unfolding take_in pad sextet
step p pads c =
    if c == 61
    then pad p pads
    else elim (sextet c) [ none ↦ go p pads none | some v ↦ go (take_in p v).0 0 (take_in p v).1 ]

-- `none`, for `binascii.Error`, where a group of four is not complete.
finish : Pending → Option Bytes
finish fresh = some []
finish _ = none

-- `binascii.a2b_base64` when it is not strict: characters outside the alphabet are passed over.
decode_from : Pending → ℕ → Bytes → Option Bytes
unfolding step finish
decode_from p pads [] = finish p
decode_from p pads (c ∷ cs) = elim (step p pads c) [
  | stop ↦ some []
  | go p' pads' out ↦ put out (decode_from p' pads' cs)
]

unfoldable pub b64decode : Bytes → Option Bytes
unfolding decode_from
b64decode cs = decode_from fresh 0 cs

sextet-letter : (v : ℕ) → v < 64 → sextet (letter v) ≡ some v
unfolding letter sextet
sextet-letter v h = ground arith

letter-ne_pad : (v : ℕ) → v < 64 → (letter v == 61) ≡ false
unfolding letter
letter-ne_pad v h = ground arith

step-letter :
    (p : Pending) (pads v : ℕ)
    → v < 64
    → step p pads (letter v) ≡ go (take_in p v).0 0 (take_in p v).1
unfolding step
step-letter p pads v h = rw (letter-ne_pad v h, sextet-letter v h, step)

decode_from-letter :
    (p : Pending) (pads v : ℕ) (cs : Bytes)
    → v < 64
    → decode_from p pads (letter v ∷ cs) ≡ put (take_in p v).1 (decode_from (take_in p v).0 0 cs)
unfolding decode_from
decode_from-letter p pads v cs h = rw (step-letter p pads v h, decode_from)

decode_from-two_pads : (l : ℕ) → decode_from (four l) 0 (61 ∷ 61 ∷ []) ≡ some []
unfolding decode_from
decode_from-two_pads l = refl

decode_from-one_pad : (l : ℕ) → decode_from (two l) 0 (61 ∷ []) ≡ some []
unfolding decode_from
decode_from-one_pad l = refl

abbrev pub IsByte : ℕ → Type 0
IsByte b = b < 256

decode_from-encode :
    (pads : ℕ) (bs : Bytes) → All IsByte bs → decode_from fresh pads (b64encode bs) ≡ some bs
unfolding b64encode take_in
decode_from-encode pads [] h = unfold decode_from in refl
decode_from-encode pads (a ∷ []) h =
    rw
      (
        decode_from-letter fresh pads (a / 4) _ (omega arith),
        decode_from-letter (six (a / 4)) 0 (a % 4 * 16) _ (omega arith),
        decode_from-two_pads,
      )
      (ground arith)
decode_from-encode pads (a ∷ b ∷ []) h =
    rw
      (
        decode_from-letter fresh pads (a / 4) _ (omega arith),
        decode_from-letter (six (a / 4)) 0 (a % 4 * 16 + b / 16) _ (omega arith),
        decode_from-letter (four ((a % 4 * 16 + b / 16) % 16)) 0 (b % 16 * 4) _ (omega arith),
        decode_from-one_pad,
      )
      (ground arith)
decode_from-encode pads (a ∷ b ∷ c ∷ rest) h =
    rw
      (
        decode_from-letter fresh pads (a / 4) _ (omega arith),
        decode_from-letter (six (a / 4)) 0 (a % 4 * 16 + b / 16) _ (omega arith),
        decode_from-letter (four ((a % 4 * 16 + b / 16) % 16)) 0 (b % 16 * 4 + c / 64) _
            (omega arith),
        decode_from-letter (two ((b % 16 * 4 + c / 64) % 4)) 0 (c % 64) _ (omega arith),
        decode_from-encode 0 rest h.1.1.1,
      )
      (ground arith)

-- Bytes that are encoded and decoded again are the same bytes.
pub b64decode-b64encode : (bs : Bytes) → All IsByte bs → b64decode (b64encode bs) ≡ some bs
unfolding b64decode
b64decode-b64encode bs h = decode_from-encode 0 bs h
