-- ===== src/RawDpt/Accepts.antt =====
-- Which payloads frontend/src/utils/rawDpt.ts decodes.
use spectrum_knx.Prelude.{
  ℕ, ◌≡◌, refl, Bool, true, false, not, ◌&&◌, Option, none, some, List, [], ◌∷◌, arith, ltb, ◌==◌,
  length, any, Text, text_eq, text_eq_iff, Option-cases, All, ap, sym, ◌∙◌, Bool-cases, inl, inr,
}
use spectrum_knx.RawDpt.{
  RawDptOption, Decoded, raw_dpt_options, find_option, option_by_key, read_payload, decode_raw_dpt,
}

abbrev pub is_decoded : Option Decoded → Bool
is_decoded none = false
is_decoded (some d) = true

-- the payload has the width of the datatype, which is offered, and its numbers are bytes
abbrev pub has_width : Option RawDptOption → List ℕ → Bool
has_width none bytes = false
has_width (some o) bytes = length bytes == o.bytes && not (any (λ b. ltb 255 b) bytes)

-- each option of a list has a branch of the switch
abbrev HaveBranches : List ℕ → List RawDptOption → Type 0
HaveBranches bytes = All (λ o. is_decoded (read_payload bytes o.key) ≡ true)

find_option-decoded :
    (bytes : List ℕ) (key : Text) (options : List RawDptOption)
    → HaveBranches bytes options
    → (o : RawDptOption) → find_option key options ≡ some o
    → is_decoded (read_payload bytes key) ≡ true
unfolding find_option
find_option-decoded bytes key [] all o h = cc
find_option-decoded bytes key (x ∷ rest) all o h = elim (Bool-cases (text_eq x.key key)) [
  | inl e ↦ ap (λ k. is_decoded (read_payload bytes k)) (sym ((text_eq_iff x.key key).0 e)) ∙ all.0
  | inr e ↦
      let later : find_option key rest ≡ some o = ground (arith, h, e) in
      find_option-decoded bytes key rest all.1 o later
]

offered-HaveBranches : (bytes : List ℕ) → HaveBranches bytes raw_dpt_options
unfolding read_payload text_eq
offered-HaveBranches bytes =
    (refl, (refl, (refl, (refl, (refl, (refl, (refl, (refl, (refl, (refl, tt))))))))))

-- A payload is decoded exactly when its datatype is offered, it is as long as the datatype says, and
-- its numbers are bytes: each offered datatype has a branch of the switch, and every other payload
-- gives none.
pub is_decoded-decode_raw_dpt :
    (bytes : List ℕ) (key : Text)
    → is_decoded (decode_raw_dpt bytes key) ≡ has_width (option_by_key key) bytes
unfolding decode_raw_dpt option_by_key
is_decoded-decode_raw_dpt bytes key = elim (Option-cases (find_option key raw_dpt_options)) [
  | inl e ↦ rw e
  | inr (o, e) ↦
      let branch = find_option-decoded bytes key raw_dpt_options (offered-HaveBranches bytes) o e in
      rw e (ground (arith, branch))
]
