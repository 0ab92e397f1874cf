-- ===== src/RawDpt/Encode.antt =====
-- Payloads as a bus device writes them, and that frontend/src/utils/rawDpt.ts reads them back.
use spectrum_knx.Prelude.{
  ℕ, ◌+◌, ◌-◌, ◌*◌, ◌/◌, ◌%◌, ◌^◌, ◌<◌, ◌≡◌, true, false, some, List, [], ◌∷◌, arith, Text, codes,
  text_eq, ltb, ◌==◌, ap,
}
use spectrum_knx.Telegram.{ℤ, pos, negsuc}
use spectrum_knx.RawDpt.{integer, hundredths, decode_raw_dpt, times_power, decode_knx_float16}

-- the datatypes whose values are integers
pub data IntegerFormat : Type 0 where
  unsigned8 percent255 signed8 unsigned16 signed16 unsigned32 signed32 : IntegerFormat

abbrev pub key_of : IntegerFormat → Text
key_of unsigned8 = codes "5"
key_of percent255 = codes "5.004"
key_of signed8 = codes "6"
key_of unsigned16 = codes "7"
key_of signed16 = codes "8"
key_of unsigned32 = codes "12"
key_of signed32 = codes "13"

abbrev IsBelow : ℕ → ℤ → Type 0
IsBelow limit (pos n) = n < limit
IsBelow limit (negsuc n) = ⊥

-- from -limit up to limit - 1
abbrev IsWithin : ℕ → ℤ → Type 0
IsWithin limit (pos n) = n < limit
IsWithin limit (negsuc n) = n < limit

-- a value between the least and the greatest of its format
abbrev pub Fits : IntegerFormat → ℤ → Type 0
Fits unsigned8 z = IsBelow 256 z
Fits percent255 z = IsBelow 256 z
Fits signed8 z = IsWithin (2 ^ 7) z
Fits unsigned16 z = IsBelow (2 ^ 16) z
Fits signed16 z = IsWithin (2 ^ 15) z
Fits unsigned32 z = IsBelow (2 ^ 32) z
Fits signed32 z = IsWithin (2 ^ 31) z

-- the bit pattern of a number, in a word of `modulus` values
abbrev pub pattern_of : ℕ → ℤ → ℕ
pattern_of modulus (pos n) = n
pattern_of modulus (negsuc n) = modulus - (n + 1)

abbrev pub one_byte : ℕ → List ℕ
one_byte w = w ∷ []

abbrev pub two_bytes : ℕ → List ℕ
two_bytes w = w / 256 ∷ w % 256 ∷ []

abbrev pub four_bytes : ℕ → List ℕ
four_bytes w = w / 2 ^ 24 ∷ w / 2 ^ 16 % 256 ∷ w / 256 % 256 ∷ w % 256 ∷ []

abbrev pub encode : IntegerFormat → ℤ → List ℕ
encode unsigned8 z = one_byte (pattern_of 256 z)
encode percent255 z = one_byte (pattern_of 256 z)
encode signed8 z = one_byte (pattern_of 256 z)
encode unsigned16 z = two_bytes (pattern_of (2 ^ 16) z)
encode signed16 z = two_bytes (pattern_of (2 ^ 16) z)
encode unsigned32 z = four_bytes (pattern_of (2 ^ 32) z)
encode signed32 z = four_bytes (pattern_of (2 ^ 32) z)

-- Every integer that fits its datatype is read back from the bytes that stand for it, the most
-- significant first and a negative one in two's complement.
pub decode-encode :
    (f : IntegerFormat) (z : ℤ)
    → Fits f z
    → decode_raw_dpt (encode f z) (key_of f) ≡ some (integer z)
unfolding decode_raw_dpt text_eq
decode-encode unsigned8 (pos n) h = ground arith
decode-encode unsigned8 (negsuc n) h = absurd h
decode-encode percent255 (pos n) h = ground arith
decode-encode percent255 (negsuc n) h = absurd h
decode-encode signed8 (pos n) h = ground arith
decode-encode signed8 (negsuc n) h = ground arith
decode-encode unsigned16 (pos n) h = ground arith
decode-encode unsigned16 (negsuc n) h = absurd h
decode-encode signed16 (pos n) h = ground arith
decode-encode signed16 (negsuc n) h = ground arith
decode-encode unsigned32 (pos n) h = ground arith
decode-encode unsigned32 (negsuc n) h = absurd h
decode-encode signed32 (pos n) h = ground arith
decode-encode signed32 (negsuc n) h = ground arith

-- A 2-byte float: its sign, an exponent and eleven bits of the mantissa, which is between -2048 and
-- 2047.
abbrev pub encode_float16 : ℕ → ℤ → List ℕ
encode_float16 exponent (pos m) = two_bytes (exponent * 2 ^ 11 + m)
encode_float16 exponent (negsuc m) = two_bytes (2 ^ 15 + exponent * 2 ^ 11 + (2048 - (m + 1)))

module _ (b0 b1 exponent m : ℕ) where
  float16_pos :
      b0 * 256 + b1 ≡ exponent * 2 ^ 11 + m
      → exponent < 16
      → m < 2048
      → decode_knx_float16 b0 b1 ≡ hundredths (pos (m * 2 ^ exponent))
  unfolding decode_knx_float16
  float16_pos w e h =
      let x : ℕ = exponent * 2 ^ 11 + m in
      let power : x % 2 ^ 16 / 2 ^ 11 % 2 ^ 4 ≡ exponent = omega arith in
      let magnitude : x % 2 ^ 16 % 2 ^ 11 ≡ m = omega arith in
      let sign : (x % 2 ^ 16 / 2 ^ 15 == 1) ≡ false = ground arith in
      rw w (rw (power, magnitude, sign))

  float16_negsuc :
      b0 * 256 + b1 ≡ 2 ^ 15 + exponent * 2 ^ 11 + (2048 - (m + 1))
      → exponent < 16
      → m < 2048
      → decode_knx_float16 b0 b1 ≡ hundredths (negsuc ((m + 1) * 2 ^ exponent - 1))
  unfolding decode_knx_float16
  float16_negsuc w e h =
      let x : ℕ = 2 ^ 15 + exponent * 2 ^ 11 + (2048 - (m + 1)) in
      let power : x % 2 ^ 16 / 2 ^ 11 % 2 ^ 4 ≡ exponent = omega arith in
      let magnitude : 2048 - x % 2 ^ 16 % 2 ^ 11 - 1 ≡ m = omega arith in
      let sign : (x % 2 ^ 16 / 2 ^ 15 == 1) ≡ true = ground arith in
      rw w (rw (power, magnitude, sign))

-- A 2-byte float reads as a hundredth of its mantissa times two to its exponent, for every exponent
-- of four bits and every mantissa that fits.
pub decode-encode_float16 :
    (exponent : ℕ) (mantissa : ℤ)
    → exponent < 16
    → IsWithin 2048 mantissa
    → decode_raw_dpt (encode_float16 exponent mantissa) (codes "9")
      ≡ some (hundredths (times_power mantissa exponent))
unfolding decode_raw_dpt text_eq decode_knx_float16
decode-encode_float16 exponent (pos m) e h =
    let w : ℕ = exponent * 2 ^ 11 + m in
    let small : ltb 255 (w / 256) ≡ false = ground arith in
    let small' : ltb 255 (w % 256) ≡ false = ground arith in
    rw (small, small') (ap some (float16_pos (w / 256) (w % 256) exponent m (omega arith) e h))
decode-encode_float16 exponent (negsuc m) e h =
    let w : ℕ = 2 ^ 15 + exponent * 2 ^ 11 + (2048 - (m + 1)) in
    let small : ltb 255 (w / 256) ≡ false = ground arith in
    let small' : ltb 255 (w % 256) ≡ false = ground arith in
    rw (small, small') (ap some (float16_negsuc (w / 256) (w % 256) exponent m (omega arith) e h))
