-- ===== src/Sds/Faults.antt =====
-- A dump header that is refused in the middle of a transfer.
use drum_firmware.Sds.Samples.{unpack_samples-pack_samples}
use drum_firmware.Sds.Format.{pack_samples, invalid_message, sample_complete, nak, ack}
use drum_firmware.Codec.Grouped.{IsByte}
use drum_firmware.Sds.Send.{make_packet, bytes_per_packet}
use drum_firmware.Sds.Received.{
  packet_checksum, length-make_packet, packet_samples, packet_number, expected_lem, IsReceiving,
}
use drum_firmware.Sds.Receive.{
  close_from, reset_file, packet_taken, write_from, take_packet, reply, idle, handle_data_packet,
  get_byte_length, parse_header, handle_dump_header, Receiver,
}
use drum_firmware.Protocol.Storage.{IsReliable, FileOps}
use drum_firmware.Base.{
  eq_self, sub_u32, refl, ◌∙◌, min, take_all, leb, u32, true, ◌∷◌, some, none, eq_false, ◌%◌, arith,
  ◌+◌, false, ◌++◌, ltb, All, ◌-◌, ◌≡◌, ◌≢◌, get_or, length, ◌<◌, List, ℕ,
}

module _ {W : Type 0} (ops : FileOps W) (file_name : ℕ → List ℕ) (contents : W → List ℕ)
    (rel : IsReliable ops contents) where
  refused_lem :
      (message : List ℕ) (now : ℕ) (r : Receiver W)
      → 16 < length message
      → get_or message 3 0 ≢ 16
      → handle_dump_header ops file_name message now r
        ≡ (invalid_message, reply nak 0 (record r { current_sample = parse_header message }))
  unfolding handle_dump_header parse_header
  refused_lem message now r long other = rw (enough, eq_false (get_or message 3 0) 16 other) refl
    where
      enough : ltb (length message) 17 ≡ false
      enough = ground arith

  -- More bytes received than announced: what remains wraps around.
  whole_lem :
      (n : ℕ) (raw : List ℕ) (r : Receiver W)
      → r.opened ≡ some true
      → get_byte_length r.current_sample < r.bytes_received
      → r.bytes_received < 4294967296 - 80
      → length raw ≡ bytes_per_packet
      → All IsByte raw
      → take_packet ops file_name n (pack_samples raw) r ≡ (
        sample_complete,
        reply ack n (record r {
          world = ops.close_file (ops.write_file raw r.world).1;
          bytes_received = r.bytes_received + length raw;
          expected_packet_num = (n + 1) % 128;
          state = idle;
          opened = none;
        }),
      )
  unfolding take_packet write_from packet_taken reset_file close_from
  whole_lem n raw r o small fits e h =
      rw
        (
          unpack_samples-pack_samples 40 raw (omega arith) h,
          take_all (min (sub_u32 (get_byte_length r.current_sample) r.bytes_received) (length raw))
              raw (omega arith),
          o,
          rel.writes_all raw r.world,
          eq_self (length raw),
          no_wrap,
          done,
        )
        refl
    where
      no_wrap : u32 (r.bytes_received + length raw) ≡ r.bytes_received + length raw
      no_wrap = omega arith

      done : leb (get_byte_length r.current_sample) (r.bytes_received + length raw) ≡ true
      done = ground arith

  -- A header that is refused for its bit depth, and that names fewer bytes than the running
  -- transfer has received, ends that transfer: the next packet is written whole, and then the
  -- sample is reported complete.
  pub refused_header_ends_transfer :
      (message raw : List ℕ) (n now later : ℕ) (r : Receiver W)
      → IsReceiving n r
      → 16 < length message
      → get_or message 3 0 ≢ 16
      → get_byte_length (parse_header message) < r.bytes_received
      → r.bytes_received < 4294967296 - 80
      → length raw ≡ bytes_per_packet
      → All IsByte raw
      → (q : Receiver W) × (w : W) × (handle_data_packet ops file_name
            (make_packet n raw)
            later
            (handle_dump_header ops file_name message now r).1
          ≡ (sample_complete, q))
        × (q.state ≡ idle)
        × (q.world ≡ ops.close_file w)
        × (contents w ≡ contents r.world ++ raw)
  refused_header_ends_transfer message raw n now later r s long other small fits e h = (
    record r {
      current_sample = parse_header message;
      last_activity = later;
      world = ops.close_file (ops.write_file raw r.world).1;
      bytes_received = r.bytes_received + length raw;
      expected_packet_num = (n + 1) % 128;
      state = idle;
      opened = none;
      replies = (ack, n) ∷ (nak, 0) ∷ r.replies;
    },
    (ops.write_file raw r.world).1,
    rw (refused_lem message now r long other) (
        expected_lem ops file_name (make_packet n raw) (pack_samples raw) n later refused
          (packet_number n raw e) (packet_samples n raw e) (length-make_packet n raw e)
          (packet_checksum n raw e) s.receiving s.expected
        ∙ whole_lem n raw (record refused { last_activity = later }) s.open_now small fits e h),
    refl,
    refl,
    rel.appends raw r.world,
  )
    where
      refused : Receiver W
      refused = reply nak 0 (record r { current_sample = parse_header message })
