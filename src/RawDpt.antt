-- ===== src/RawDpt.antt =====
-- Decoding raw payloads by a chosen datatype: frontend/src/utils/rawDpt.ts. Payload bytes are natural
-- numbers. Shifts and masks are written by powers of two. A value that is no integer is kept exact:
-- the hundredths of a 2-byte float, the byte of a percentage, the bits of an IEEE float. The labels
-- of the options are left.
pub mod Accepts
pub mod Encode
mod Tests
use spectrum_knx.Prelude.{
  ℕ, ◌+◌, ◌-◌, ◌*◌, ◌/◌, ◌%◌, ◌^◌, Bool, true, false, ◌||◌, Option, none, some, List, [], ◌∷◌, ltb,
  ◌==◌, if◌then◌else◌, length, any, Text, codes, text_eq,
}
use spectrum_knx.Telegram.{ℤ, pos, negsuc}

pub data Decoded : Type 0 where
  integer : ℤ → Decoded
  -- a byte times 100 / 255
  percent : ℕ → Decoded
  -- a number of hundredths
  hundredths : ℤ → Decoded
  -- the bits of an IEEE 754 number
  float_bits : ℕ → Decoded

pub record RawDptOption : Type 0 where
  pub key : Text
  pub unit : Text
  pub bytes : ℕ

abbrev pub raw_dpt_options : List RawDptOption
raw_dpt_options =
    record { key = codes "5"; unit = []; bytes = 1 }
    ∷ record { key = codes "5.001"; unit = codes "%"; bytes = 1 }
    ∷ record { key = codes "5.004"; unit = codes "%"; bytes = 1 }
    ∷ record { key = codes "6"; unit = []; bytes = 1 }
    ∷ record { key = codes "7"; unit = []; bytes = 2 }
    ∷ record { key = codes "8"; unit = []; bytes = 2 }
    ∷ record { key = codes "9"; unit = []; bytes = 2 }
    ∷ record { key = codes "12"; unit = []; bytes = 4 }
    ∷ record { key = codes "13"; unit = []; bytes = 4 }
    ∷ record { key = codes "14"; unit = []; bytes = 4 }
    ∷ []

unfoldable pub find_option : Text → List RawDptOption → Option RawDptOption
find_option key [] = none
find_option key (o ∷ rest) = if text_eq o.key key then some o else find_option key rest

-- `OPTION_BY_KEY.get`; the keys differ
unfoldable pub option_by_key : Text → Option RawDptOption
unfolding find_option
option_by_key key = find_option key raw_dpt_options

unit_of : Option RawDptOption → Text
unit_of none = []
unit_of (some o) = o.unit

unfoldable pub raw_dpt_unit : Text → Text
unfolding unit_of option_by_key
raw_dpt_unit key = unit_of (option_by_key key)

-- A word of `bits + 1` bits in two's complement.
unfoldable pub signed : ℕ → ℕ → ℤ
signed bits w = if ltb w (2 ^ bits) then pos w else negsuc (2 ^ (bits + 1) - w - 1)

unfoldable pub times_power : ℤ → ℕ → ℤ
times_power (pos m) exponent = pos (m * 2 ^ exponent)
times_power (negsuc m) exponent = negsuc ((m + 1) * 2 ^ exponent - 1)

-- `decodeKnxFloat16`: sign, four bits of exponent, eleven bits of mantissa
unfoldable pub decode_knx_float16 : ℕ → ℕ → Decoded
unfolding times_power
decode_knx_float16 b0 b1 =
    let bits = (b0 * 256 + b1) % 2 ^ 16 in
    let exponent = bits / 2 ^ 11 % 2 ^ 4 in
    let magnitude = bits % 2 ^ 11 in
    let mantissa = if bits / 2 ^ 15 == 1 then negsuc (2048 - magnitude - 1) else pos magnitude in
    hundredths (times_power mantissa exponent)

-- `DataView` reads at offset 0, most significant byte first
uint8 : List ℕ → ℕ
uint8 (a ∷ _) = a
uint8 [] = 0

uint16 : List ℕ → ℕ
uint16 (a ∷ b ∷ _) = a * 256 + b
uint16 _ = 0

uint32 : List ℕ → ℕ
uint32 (a ∷ b ∷ c ∷ d ∷ _) = ((a * 256 + b) * 256 + c) * 256 + d
uint32 _ = 0

float16 : List ℕ → Decoded
unfolding decode_knx_float16
float16 (a ∷ b ∷ _) = decode_knx_float16 a b
float16 _ = hundredths (pos 0)

-- the `switch` on the key
unfoldable pub read_payload : List ℕ → Text → Option Decoded
unfolding uint8 uint16 uint32 float16 signed
read_payload bytes key =
    if text_eq key (codes "5")
    then some (integer (pos (uint8 bytes)))
    else if text_eq key (codes "5.001")
    then some (percent (uint8 bytes))
    else if text_eq key (codes "5.004")
    then some (integer (pos (uint8 bytes)))
    else if text_eq key (codes "6")
    then some (integer (signed 7 (uint8 bytes)))
    else if text_eq key (codes "7")
    then some (integer (pos (uint16 bytes)))
    else if text_eq key (codes "8")
    then some (integer (signed 15 (uint16 bytes)))
    else if text_eq key (codes "9")
    then some (float16 bytes)
    else if text_eq key (codes "12")
    then some (integer (pos (uint32 bytes)))
    else if text_eq key (codes "13")
    then some (integer (signed 31 (uint32 bytes)))
    else if text_eq key (codes "14")
    then some (float_bits (uint32 bytes))
    else none

decode_with : Option RawDptOption → List ℕ → Text → Option Decoded
unfolding read_payload
decode_with none bytes key = none
decode_with (some o) bytes key =
    if length bytes == o.bytes
    then if any (λ b. ltb 255 b) bytes then none else read_payload bytes key
    else none

unfoldable pub decode_raw_dpt : List ℕ → Text → Option Decoded
unfolding decode_with option_by_key
decode_raw_dpt bytes key = decode_with (option_by_key key) bytes key
