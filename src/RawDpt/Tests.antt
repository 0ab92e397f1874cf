-- ===== src/RawDpt/Tests.antt =====
-- Raw payloads at concrete bytes.
use spectrum_knx.Prelude.{◌≡◌, refl, some, none, [], ◌∷◌, codes, text_eq, arith}
use spectrum_knx.Telegram.{pos, negsuc}
use spectrum_knx.RawDpt.{integer, hundredths, decode_raw_dpt, option_by_key}
use spectrum_knx.RawDpt.Accepts.{is_decoded, has_width, is_decoded-decode_raw_dpt}
use spectrum_knx.RawDpt.Encode.{signed16, key_of, encode, decode-encode}

-- 0x0c1a is 21.00
temperature : decode_raw_dpt (0x0c ∷ 0x1a ∷ []) (codes "9") ≡ some (hundredths (pos 2100))
unfolding decode_raw_dpt text_eq
temperature = refl

too_long : decode_raw_dpt (1 ∷ 2 ∷ 3 ∷ []) (codes "8") ≡ none
unfolding decode_raw_dpt text_eq
too_long = refl

decode-encode_example :
    decode_raw_dpt (encode signed16 (negsuc 299)) (key_of signed16) ≡ some (integer (negsuc 299))
decode-encode_example = decode-encode signed16 (negsuc 299) (omega arith)

is_decoded-decode_raw_dpt_example :
    is_decoded (decode_raw_dpt (300 ∷ []) (codes "5"))
    ≡ has_width (option_by_key (codes "5")) (300 ∷ [])
is_decoded-decode_raw_dpt_example = is_decoded-decode_raw_dpt (300 ∷ []) (codes "5")
