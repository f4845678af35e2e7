-- ===== src/Sds/Format.antt =====
-- The wire format that the receiver and the sender share. A signed sample is its 16-bit pattern.
use drum_firmware.Base.{◌++◌, ◌^◌, ◌/◌, ◌*◌, [], ◌∷◌, ◌+◌, ◌%◌, bit_xor, u16, bit_or, List, ℕ}

abbrev pub dump_header : ℕ
dump_header = 0x01

abbrev pub data_packet : ℕ
data_packet = 0x02

abbrev pub cancel : ℕ
cancel = 0x7d

pub data MessageType : Type 0 where
  ack nak wait cancelled unknown : MessageType

pub data Result : Type 0 where
  ok sample_complete transfer_cancelled invalid_message checksum_error file_error state_error :
      Result

unfoldable pub xor_all : ℕ → List ℕ → ℕ
xor_all checksum [] = checksum
xor_all checksum (byte ∷ bytes) = xor_all (bit_xor checksum byte) bytes

-- Over the identifiers 0x7E and 0x65, the type of a data packet, its number and its data.
unfoldable pub calculate_data_checksum : ℕ → List ℕ → ℕ
unfolding xor_all
calculate_data_checksum packet_num bytes =
    xor_all (bit_xor (bit_xor (bit_xor 0x7e 0x65) data_packet) packet_num) bytes % 128

unfoldable pub parse_14bit : ℕ → ℕ → ℕ
parse_14bit low high = bit_or (low % 128) (high % 128 * 2 ^ 7)

unfoldable pub parse_21bit : ℕ → ℕ → ℕ → ℕ
parse_21bit b0 b1 b2 = bit_or (bit_or (b0 % 128) (b1 % 128 * 2 ^ 7)) (b2 % 128 * 2 ^ 14)

unfoldable pub encode_21bit : ℕ → List ℕ
encode_21bit value = (value % 128) ∷ (value / 2 ^ 7 % 128) ∷ (value / 2 ^ 14 % 128) ∷ []

-- `int16_t(unsigned_sample - 0x8000)`
unfoldable pub unpack_16bit_sample : ℕ → ℕ → ℕ → ℕ
unpack_16bit_sample b0 b1 b2 =
    u16 (bit_or (bit_or (b0 % 128 * 2 ^ 9) (b1 % 128 * 2 ^ 2)) (b2 % 128 / 2 ^ 5) + 0x8000)

-- The loop over the samples of a packet: three bytes each, written as two, low byte first.
unfoldable pub unpack_samples : List ℕ → List ℕ
unpack_samples (b0 ∷ b1 ∷ b2 ∷ bytes) =
    (unpack_16bit_sample b0 b1 b2 % 256)
    ∷ (unpack_16bit_sample b0 b1 b2 / 256)
    ∷ unpack_samples bytes
unpack_samples _ = []

-- `uint16_t(int32_t(sample) + 0x8000)`, left-justified in three seven-bit bytes.
unfoldable pub pack_16bit_sample : ℕ → List ℕ
pack_16bit_sample sample =
    let unsigned_sample = u16 (sample + 0x8000) in
    (unsigned_sample / 2 ^ 9 % 128)
    ∷ (unsigned_sample / 2 ^ 2 % 128)
    ∷ (unsigned_sample * 2 ^ 5 % 128)
    ∷ []

unfoldable pub pack_samples : List ℕ → List ℕ
pack_samples (low ∷ high ∷ bytes) = pack_16bit_sample (low + high * 2 ^ 8) ++ pack_samples bytes
pack_samples _ = []
