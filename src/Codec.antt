-- ===== src/Codec.antt =====
-- drum/sysex/codec.h: the two decoders of seven-bit SysEx bodies. A body is the list of its bytes;
-- the output range is the number of cells that it has room for, and the result is what is written.
pub mod ThreeByte
pub mod Grouped
mod Tests
use drum_firmware.Base.{
  ℕ, zero, suc, ◌+◌, ◌-◌, ◌*◌, ◌/◌, ◌%◌, ◌^◌, List, [], ◌∷◌, ◌++◌, take, bit_or, u16, leb, ◌==◌,
  if◌then◌else◌,
}

-- The loop of `decode_3_to_16bit`: `sysex_count`, the two bytes of `byte_buffer`, and the cells left.
decode_3_from : ℕ → ℕ → ℕ → ℕ → List ℕ → List ℕ
decode_3_from sysex_count b0 b1 zero bytes = []
decode_3_from sysex_count b0 b1 (suc room) [] = []
decode_3_from zero b0 b1 (suc room) (byte ∷ bytes) = decode_3_from 1 byte b1 (suc room) bytes
decode_3_from (suc zero) b0 b1 (suc room) (byte ∷ bytes) = decode_3_from 2 b0 byte (suc room) bytes
decode_3_from (suc (suc _)) b0 b1 (suc room) (byte ∷ bytes) =
    u16 (bit_or (bit_or (b0 * 2 ^ 14) (b1 * 2 ^ 7)) byte) ∷ decode_3_from 0 b0 b1 room bytes

unfoldable pub decode_3_to_16bit : List ℕ → ℕ → List ℕ
unfolding decode_3_from
decode_3_to_16bit bytes room = decode_3_from 0 0 0 room bytes

-- One output byte: the seven bits of the input, and bit `i` of the eighth byte as the top bit.
unfoldable pub with_msb : ℕ → ℕ → ℕ → ℕ
with_msb msbs i byte = bit_or byte (if msbs / 2 ^ i % 2 == 1 then 0x80 else 0)

-- The `for` loop over the seven bytes of one group.
unfoldable pub ungroup : ℕ → ℕ → ℕ → ℕ → ℕ → ℕ → ℕ → ℕ → List ℕ
unfolding with_msb
ungroup msbs a b c d e f g =
    with_msb msbs 0 a
    ∷ with_msb msbs 1 b
    ∷ with_msb msbs 2 c
    ∷ with_msb msbs 3 d
    ∷ with_msb msbs 4 e
    ∷ with_msb msbs 5 f
    ∷ with_msb msbs 6 g
    ∷ []

-- The result is the bytes read and the bytes written. A group that the room cuts short is written
-- in part and not counted as read.
unfoldable pub decode_8_to_7 : List ℕ → ℕ → ℕ × List ℕ
decode_8_to_7 (a ∷ b ∷ c ∷ d ∷ e ∷ f ∷ g ∷ msbs ∷ bytes) room =
    let rest = decode_8_to_7 bytes (room - 7) in
    if room == 0
    then (0, [])
    else if leb 7 room
    then (rest.0 + 8, ungroup msbs a b c d e f g ++ rest.1)
    else (0, take room (ungroup msbs a b c d e f g))
decode_8_to_7 _ room = (0, [])
