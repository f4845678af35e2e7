-- ===== src/Sds/Received.antt =====
-- What the receiver does with the packets of the sender.
use drum_firmware.Sds.Samples.{unpack_samples-pack_samples, length-pack_samples}
use drum_firmware.Codec.Grouped.{IsByte}
use drum_firmware.Sds.Send.{make_packet, bytes_per_packet}
use drum_firmware.Sds.Format.{
  sample_complete, ok, pack_samples, ack, unpack_samples, calculate_data_checksum,
}
use drum_firmware.Sds.Receive.{
  idle, close_from, reset_file, reply, packet_taken, receiving_data, get_byte_length, write_from,
  take_packet, handle_data_packet, Receiver,
}
use drum_firmware.Protocol.Storage.{IsReliable, FileOps}
use drum_firmware.Base.{
  none, false, take_all, leb, ◌∙◌, ◌%◌, take_append, length-append, All, ◌<◌, length-take, u32, min,
  eq_self, take-min, sub_u32, refl, ◌≤◌, zero, true, arith, suc, some, [], ◌∷◌, ◌-◌, ◌++◌, drop,
  ◌≡◌, ◌+◌, take, get_or, length, List, ℕ,
}

get_or-append : (xs : List ℕ) (n v : ℕ) → length xs ≡ n → get_or (xs ++ (v ∷ [])) n 0 ≡ v
get_or-append [] zero v e = refl
get_or-append [] (suc n) v e = absurd (omega arith)
get_or-append (x ∷ xs) zero v e = absurd (omega arith)
get_or-append (x ∷ xs) (suc n) v e = get_or-append xs n v (omega arith)

module _ {W : Type 0} (ops : FileOps W) (file_name : ℕ → List ℕ) where
  pub expected_lem :
      (message samples : List ℕ) (n now : ℕ) (r : Receiver W)
      → get_or message 1 0 ≡ n
      → take 120 (drop 2 message) ≡ samples
      → length message ≡ 123
      → get_or message 122 0 ≡ calculate_data_checksum n samples
      → r.state ≡ receiving_data
      → r.expected_packet_num ≡ n
      → handle_data_packet ops file_name message now r
        ≡ take_packet ops file_name n samples (record r { last_activity = now })
  unfolding handle_data_packet
  expected_lem message samples n now r a b c d e f =
      rw (e, c, a, b, d, f, eq_self (calculate_data_checksum n samples), eq_self n) refl

  abbrev stored : List ℕ → Receiver W → List ℕ
  stored raw r = take (get_byte_length r.current_sample - r.bytes_received) raw

  -- The receiver after its file took the bytes.
  abbrev written : List ℕ → Receiver W → Receiver W
  written bytes r = record r {
    world = (ops.write_file bytes r.world).1;
    bytes_received = r.bytes_received + length bytes;
  }

  -- The receiver after a packet that is not the last.
  abbrev pub after : ℕ → ℕ → List ℕ → Receiver W → Receiver W
  after n now bytes r = reply ack n (record r {
    last_activity = now;
    world = (ops.write_file bytes r.world).1;
    bytes_received = r.bytes_received + length bytes;
    expected_packet_num = (n + 1) % 128;
  })

  -- The receiver after the last packet.
  abbrev pub finished : ℕ → ℕ → List ℕ → Receiver W → Receiver W
  finished n now bytes r = record (after n now bytes r) {
    state = idle;
    opened = none;
    world = ops.close_file (ops.write_file bytes r.world).1;
  }

  take_packet_lem :
      (contents : W → List ℕ) (n : ℕ) (samples raw : List ℕ) (r : Receiver W)
      → IsReliable ops contents
      → unpack_samples samples ≡ raw
      → r.opened ≡ some true
      → r.bytes_received ≤ get_byte_length r.current_sample
      → take_packet ops file_name n samples r
        ≡ packet_taken ops file_name n (
          some (written (stored raw r) r),
          record r { world = (ops.write_file (stored raw r) r.world).1 },
        )
  unfolding take_packet write_from get_byte_length
  take_packet_lem contents n samples raw r rel u o h =
      rw
        (
          u,
          o,
          remaining,
          limit,
          take-min room raw,
          rel.writes_all (take room raw) r.world,
          eq_self (length (take room raw)),
          no_wrap,
        )
        refl
    where
      room : ℕ
      room = get_byte_length r.current_sample - r.bytes_received

      remaining :
          sub_u32 (get_byte_length r.current_sample) r.bytes_received
          ≡ get_byte_length r.current_sample - r.bytes_received
      remaining = omega arith

      limit : min room (length raw) ≡ min (length raw) room
      limit = omega arith

      no_wrap :
          u32 (r.bytes_received + length (take room raw))
          ≡ r.bytes_received + length (take room raw)
      no_wrap = omega (arith, length-take room raw)

-- A packet of the sender has its fields where the receiver looks for them.
module _ (n : ℕ) (raw : List ℕ) (full : length raw ≡ bytes_per_packet) where
  length-packed : length (pack_samples raw) ≡ 120
  length-packed = omega (arith, length-pack_samples 40 raw (omega arith))

  pub packet_samples : take 120 (drop 2 (make_packet n raw)) ≡ pack_samples raw
  unfolding make_packet
  packet_samples =
      take_append 120 (pack_samples raw) _ (omega (arith, length-packed))
      ∙ take_all 120 (pack_samples raw) (omega (arith, length-packed))

  pub length-make_packet : length (make_packet n raw) ≡ 123
  unfolding make_packet
  length-make_packet = omega (
    arith,
    length-packed,
    length-append (pack_samples raw) (calculate_data_checksum n (pack_samples raw) ∷ []),
  )

  pub packet_checksum :
      get_or (make_packet n raw) 122 0 ≡ calculate_data_checksum n (pack_samples raw)
  unfolding make_packet
  packet_checksum =
      get_or-append (pack_samples raw) 120 (calculate_data_checksum n (pack_samples raw))
        length-packed

  pub packet_number : get_or (make_packet n raw) 1 0 ≡ n
  unfolding make_packet
  packet_number = refl

-- A receiver whose file is open, that waits for packet `n`, and has bytes left to receive.
pub record IsReceiving {W : Type 0} (n : ℕ) (r : Receiver W) : Type 0 where
  pub receiving : r.state ≡ receiving_data
  pub open_now : r.opened ≡ some true
  pub expected : r.expected_packet_num ≡ n
  pub unfinished : r.bytes_received < get_byte_length r.current_sample

module _ {W : Type 0} (ops : FileOps W) (file_name : ℕ → List ℕ) (contents : W → List ℕ)
    (rel : IsReliable ops contents) where
  packet_written :
      (n now : ℕ) (raw : List ℕ) (r : Receiver W)
      → IsReceiving n r
      → length raw ≡ bytes_per_packet
      → All IsByte raw
      → let bytes = stored ops file_name raw r in
        handle_data_packet ops file_name (make_packet n raw) now r
        ≡ packet_taken ops file_name n (
          some (written ops file_name bytes (record r { last_activity = now })),
          record r { last_activity = now; world = (ops.write_file bytes r.world).1 },
        )
  packet_written n now raw r s e h =
      expected_lem ops file_name (make_packet n raw) (pack_samples raw) n now r
        (packet_number n raw e) (packet_samples n raw e) (length-make_packet n raw e)
        (packet_checksum n raw e) s.receiving s.expected
      ∙ take_packet_lem ops file_name contents n (pack_samples raw) raw
          (record r { last_activity = now }) rel
          (unpack_samples-pack_samples 40 raw (omega arith) h) s.open_now
          (omega (arith, s.unfinished))

  pub packet_continues :
      (n now : ℕ) (raw : List ℕ) (r : Receiver W)
      → IsReceiving n r
      → length raw ≡ bytes_per_packet
      → All IsByte raw
      → r.bytes_received + bytes_per_packet < get_byte_length r.current_sample
      → handle_data_packet ops file_name (make_packet n raw) now r
        ≡ (ok, after ops file_name n now raw r)
  unfolding packet_taken
  packet_continues n now raw r s e h more =
      packet_written n now raw r s e h
      ∙ rw
          (
            take_all (get_byte_length r.current_sample - r.bytes_received) raw (omega arith),
            goes_on,
          )
          refl
    where
      goes_on : leb (get_byte_length r.current_sample) (r.bytes_received + length raw) ≡ false
      goes_on = ground arith

  pub packet_completes :
      (n now : ℕ) (raw : List ℕ) (r : Receiver W)
      → IsReceiving n r
      → length raw ≡ bytes_per_packet
      → All IsByte raw
      → get_byte_length r.current_sample ≤ r.bytes_received + bytes_per_packet
      → let bytes = take (get_byte_length r.current_sample - r.bytes_received) raw in
        handle_data_packet ops file_name (make_packet n raw) now r
        ≡ (sample_complete, finished ops file_name n now bytes r)
  unfolding packet_taken reset_file close_from
  packet_completes n now raw r s e h last =
      packet_written n now raw r s e h ∙ rw (done, s.open_now) refl
    where
      done :
          leb (get_byte_length r.current_sample) (
            r.bytes_received
            + length (take (get_byte_length r.current_sample - r.bytes_received) raw))
          ≡ true
      done = ground (
        arith,
        length-take (get_byte_length r.current_sample - r.bytes_received) raw,
        s.unfinished,
      )
