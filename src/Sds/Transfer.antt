-- ===== src/Sds/Transfer.antt =====
-- A whole dump: the packets of the sender, one after the other, at the receiver.
use drum_firmware.Sds.Format.{calculate_data_checksum, pack_samples, ack}
use drum_firmware.Sds.Format.{Result, ok, sample_complete}
use drum_firmware.Codec.Grouped.{IsByte}
use drum_firmware.Sds.Send.{make_packet, bytes_per_packet}
use drum_firmware.Sds.Received.{
  finished, packet_completes, packet_checksum, length-make_packet, packet_samples, packet_number,
  packet_continues, after, IsReceiving,
}
use drum_firmware.Sds.Receive.{
  receiving_data, idle, reply, handle_data_packet, get_byte_length, Receiver,
}
use drum_firmware.Protocol.Storage.{IsReliable, FileOps}
use drum_firmware.Base.{
  append_assoc, take_past, sym, suc, ◌∙◌, ap, lt→ltb, eq_false, eq_self, true, ltb, flatten, false,
  ◌==◌, ◌++◌, none, ◌≤◌, drop, ◌*◌, take, ◌-◌, get_or, refl, [], arith, ◌%◌, All, ◌+◌, ◌≡◌, ◌∷◌,
  ◌<◌, length, List, ℕ,
}

module _ {W : Type 0} (ops : FileOps W) (file_name : ℕ → List ℕ) where
  -- The packets of full blocks, numbered from `n` on.
  unfoldable pub receive_packets : List (List ℕ) → ℕ → ℕ → Receiver W → Receiver W
  receive_packets [] n now r = r
  receive_packets (raw ∷ raws) n now r =
      receive_packets raws ((n + 1) % 128) now
        (handle_data_packet ops file_name (make_packet n raw) now r).1

abbrev pub IsBlock : List ℕ → Type 0
IsBlock raw = (length raw ≡ bytes_per_packet) × All IsByte raw

module _ {W : Type 0} where
  -- What the receiver has yet to receive.
  abbrev pub left : Receiver W → ℕ
  left r = get_byte_length r.current_sample - r.bytes_received

module _ {W : Type 0} (ops : FileOps W) (file_name : ℕ → List ℕ) (contents : W → List ℕ)
    (rel : IsReliable ops contents) where
  previous_lem :
      (message samples : List ℕ) (n now : ℕ) (r : Receiver W)
      → get_or message 1 0 ≡ n
      → take 120 (drop 2 message) ≡ samples
      → length message ≡ 123
      → get_or message 122 0 ≡ calculate_data_checksum n samples
      → r.state ≡ receiving_data
      → n < 128
      → r.expected_packet_num ≡ (n + 1) % 128
      → 0 < r.bytes_received
      → handle_data_packet ops file_name message now r
        ≡ (ok, reply ack n (record r { last_activity = now }))
  unfolding handle_data_packet
  previous_lem message samples n now r a b c d e small f some_bytes =
      rw
        (
          e,
          c,
          a,
          b,
          d,
          eq_self (calculate_data_checksum n samples),
          f,
          other,
          before,
          eq_self n,
          counted,
        )
        refl
    where
      other : (n == (n + 1) % 128) ≡ false
      other = eq_false n ((n + 1) % 128) (λ e. omega (arith, e))

      before : ((n + 1) % 128 + 127) % 128 ≡ n
      before = omega arith

      counted : ltb 0 r.bytes_received ≡ true
      counted = lt→ltb 0 r.bytes_received some_bytes

  -- With a store that takes its writes, an expected packet that leaves bytes of the sample to come and
  -- is sent again at once, because its acknowledgement was lost, is acknowledged again, and nothing is
  -- written.
  pub packet_repeated :
      (n now later : ℕ) (raw : List ℕ) (r : Receiver W)
      → n < 128
      → IsReceiving n r
      → length raw ≡ bytes_per_packet
      → All IsByte raw
      → r.bytes_received + bytes_per_packet < get_byte_length r.current_sample
      → let q = (handle_data_packet ops file_name (make_packet n raw) now r).1 in
        handle_data_packet ops file_name (make_packet n raw) later q
        ≡ (ok, reply ack n (record q { last_activity = later }))
  packet_repeated n now later raw r small s e h more =
      rw (packet_continues ops file_name contents rel n now raw r s e h more) (
        previous_lem (make_packet n raw) (pack_samples raw) n later
          (after ops file_name n now raw r) (packet_number n raw e) (packet_samples n raw e)
          (length-make_packet n raw e) (packet_checksum n raw e) s.receiving small refl
          (omega arith))

  after-IsReceiving :
      (n now : ℕ) (raw : List ℕ) (r : Receiver W)
      → IsReceiving n r
      → length raw ≡ bytes_per_packet
      → r.bytes_received + bytes_per_packet < get_byte_length r.current_sample
      → IsReceiving ((n + 1) % 128) (after ops file_name n now raw r)
  after-IsReceiving n now raw r s e more = record {
    receiving = s.receiving;
    open_now = s.open_now;
    expected = refl;
    unfinished = omega arith;
  }

  -- A dump whose last packet is the first to reach the announced length: the bytes up to that length
  -- are written in order, without the last packet's padding, and then the file is closed; the
  -- sample is complete and the receiver idle.
  pub dump_received :
      (raws : List (List ℕ)) (last : List ℕ) (n now : ℕ) (r : Receiver W)
      → n < 128
      → IsReceiving n r
      → All IsBlock raws
      → IsBlock last
      → length raws * bytes_per_packet < left r
      → left r ≤ length raws * bytes_per_packet + bytes_per_packet
      → (q : Receiver W) × (w : W) × (handle_data_packet ops file_name
            (make_packet ((n + length raws) % 128) last)
            now
            (receive_packets ops file_name raws n now r)
          ≡ (sample_complete, q))
        × (q.state ≡ idle)
        × (q.opened ≡ none)
        × (q.world ≡ ops.close_file w)
        × (contents w ≡ contents r.world ++ take (left r) (flatten raws ++ last))
  unfolding receive_packets flatten
  dump_received [] last n now r small s hs h lower upper = (
    finished ops file_name n now (take (left r) last) r,
    (ops.write_file (take (left r) last) r.world).1,
    ap (λ k. handle_data_packet ops file_name (make_packet k last) now r) number
        ∙ packet_completes ops file_name contents rel n now last r s h.0 h.1 (omega arith),
    refl,
    refl,
    refl,
    rel.appends (take (left r) last) r.world,
  )
    where
      number : (n + 0) % 128 ≡ n
      number = omega arith
  dump_received (raw ∷ raws) last n now r small s hs h lower upper =
      let (q, w, run, at_rest, closed, end, bytes) =
        dump_received raws last ((n + 1) % 128) now (after ops file_name n now raw r) (omega arith)
          (after-IsReceiving n now raw r s hs.0.0 (omega (arith, lower))) hs.1 h
          (omega (arith, lower, hs.0.0)) (omega (arith, upper, hs.0.0)) in
      (
        q,
        w,
        ap
              (λ k.
                handle_data_packet ops file_name (make_packet k last) now
                  (receive_packets ops file_name (raw ∷ raws) n now r))
              number
            ∙ ap
                (λ p.
                  handle_data_packet ops file_name
                    (make_packet (((n + 1) % 128 + length raws) % 128) last) now
                    (receive_packets ops file_name raws ((n + 1) % 128) now p))
                first
            ∙ run,
        at_rest,
        closed,
        end,
        bytes
            ∙ ap (λ k. contents (ops.write_file raw r.world).1 ++ take k (flatten raws ++ last))
                shorter
            ∙ ap (λ c. c ++ take (left r - length raw) (flatten raws ++ last))
                (rel.appends raw r.world)
            ∙ append_assoc (contents r.world) raw _
            ∙ ap (λ c. contents r.world ++ c) in_order,
      )
    where
      number : (n + suc (length raws)) % 128 ≡ ((n + 1) % 128 + length raws) % 128
      number = omega arith

      shorter : left (after ops file_name n now raw r) ≡ left r - length raw
      shorter = omega arith

      first :
          (handle_data_packet ops file_name (make_packet n raw) now r).1
          ≡ after ops file_name n now raw r
      first =
          ap (λ (p : Result × Receiver W). p.1)
            (packet_continues ops file_name contents rel n now raw r s hs.0.0 hs.0.1
              (omega (arith, lower)))

      in_order :
          raw ++ take (left r - length raw) (flatten raws ++ last)
          ≡ take (left r) ((raw ++ flatten raws) ++ last)
      in_order =
          sym (take_past (left r) raw (flatten raws ++ last) (omega (arith, lower, hs.0.0)))
          ∙ ap (λ c. take (left r) c) (sym (append_assoc raw (flatten raws) last))
