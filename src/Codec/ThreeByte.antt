-- ===== src/Codec/ThreeByte.antt =====
-- `decode_3_to_16bit` undoes the host's encoding of a 16-bit value in three seven-bit bytes.
use drum_firmware.Base.{
  min, ℕ, zero, suc, ◌*◌, ◌/◌, ◌%◌, ◌^◌, ◌<◌, ◌≡◌, refl, ap, ap₂, List, [], ◌∷◌, take, length, All,
  u16, bit_or, bit_or-shifted, arith,
}
use drum_firmware.Codec.{decode_3_from, decode_3_to_16bit}

-- What a host sends for the values: two bits, seven bits, seven bits.
unfoldable pub encode_16bit : List ℕ → List ℕ
encode_16bit [] = []
encode_16bit (v ∷ vs) = (v / 2 ^ 14) ∷ (v / 2 ^ 7 % 128) ∷ (v % 128) ∷ encode_16bit vs

abbrev pub IsWord : ℕ → Type 0
IsWord v = v < 65536

pub three_bytes :
    (v : ℕ)
    → v < 65536
    → u16 (bit_or (bit_or (v / 2 ^ 14 * 2 ^ 14) (v / 2 ^ 7 % 128 * 2 ^ 7)) (v % 128)) ≡ v
three_bytes v h = omega (
  arith,
  bit_or-shifted 14 (v / 2 ^ 14) (v / 2 ^ 7 % 128 * 2 ^ 7) (omega arith),
  ap (λ (t : ℕ). bit_or t (v % 128)) fields,
  bit_or-shifted 7 (v / 2 ^ 7) (v % 128) (omega arith),
)
  where
    fields : bit_or (v / 2 ^ 14 * 2 ^ 14) (v / 2 ^ 7 % 128 * 2 ^ 7) ≡ v / 2 ^ 7 * 2 ^ 7
    fields = omega (arith, bit_or-shifted 14 (v / 2 ^ 14) (v / 2 ^ 7 % 128 * 2 ^ 7) (omega arith))

decode_from-encode :
    (b0 b1 room : ℕ) (vs : List ℕ)
    → All IsWord vs
    → decode_3_from 0 b0 b1 room (encode_16bit vs) ≡ take room vs
unfolding decode_3_from encode_16bit
decode_from-encode b0 b1 zero vs h = refl
decode_from-encode b0 b1 (suc room) [] h = refl
decode_from-encode b0 b1 (suc room) (v ∷ vs) h =
    ap₂ ◌∷◌ (three_bytes v h.0) (decode_from-encode (v / 2 ^ 14) (v / 2 ^ 7 % 128) room vs h.1)

-- Whatever 16-bit values the host encodes, the decoder gives them back in order, as many as its
-- output has room for.
pub decode_3-encode :
    (room : ℕ) (vs : List ℕ)
    → All IsWord vs
    → decode_3_to_16bit (encode_16bit vs) room ≡ take room vs
unfolding decode_3_to_16bit
decode_3-encode room vs h = decode_from-encode 0 0 room vs h

-- The number of values is a third of the bytes, cut off at the room.
count_from :
    (b0 b1 room : ℕ) (bytes : List ℕ)
    → length (decode_3_from 0 b0 b1 room bytes) ≡ min room (length bytes / 3)
unfolding decode_3_from
count_from b0 b1 zero bytes = omega arith
count_from b0 b1 (suc room) [] = omega arith
count_from b0 b1 (suc room) (_ ∷ []) = omega arith
count_from b0 b1 (suc room) (_ ∷ _ ∷ []) = omega arith
count_from b0 b1 (suc room) (x ∷ y ∷ z ∷ bytes) = omega (arith, count_from x y room bytes)

pub length-decode_3 :
    (bytes : List ℕ) (room : ℕ)
    → length (decode_3_to_16bit bytes room) ≡ min room (length bytes / 3)
unfolding decode_3_to_16bit
length-decode_3 bytes room = count_from 0 0 room bytes
