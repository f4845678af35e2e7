-- ===== src/Codec/Tests.antt =====
-- Runs of the decoders.
use drum_firmware.Codec.Grouped.{decode_8-encode, IsByte, encode_groups}
use drum_firmware.Base.{arith, ℕ, List, All, [], ◌∷◌, ◌≡◌, refl}
use drum_firmware.Codec.{decode_8_to_7, ungroup}

cut :
    decode_8_to_7 (1 ∷ 2 ∷ 3 ∷ 4 ∷ 5 ∷ 6 ∷ 7 ∷ 0x41 ∷ 9 ∷ []) 9
    ≡ (8, 129 ∷ 2 ∷ 3 ∷ 4 ∷ 5 ∷ 6 ∷ 135 ∷ [])
unfolding decode_8_to_7 ungroup
cut = refl

abbrev two_words : List ℕ
two_words = 0x1234 ∷ 0xffff ∷ []

abbrev a_group : List ℕ
a_group = 0x80 ∷ 1 ∷ 2 ∷ 0xff ∷ 4 ∷ 5 ∷ 6 ∷ []

a_group_lem : All IsByte a_group
a_group_lem = (
  omega arith,
  (omega arith, (omega arith, (omega arith, (omega arith, (omega arith, (omega arith, tt)))))),
)

decode_8-encode_example : decode_8_to_7 (encode_groups a_group) 10 ≡ (8, a_group)
decode_8-encode_example = decode_8-encode 1 10 a_group refl a_group_lem (omega arith)

abbrev loose_bytes : List ℕ
loose_bytes = 1 ∷ 2 ∷ 3 ∷ []
