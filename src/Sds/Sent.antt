-- ===== src/Sds/Sent.antt =====
-- What the sender keeps true of the file that it reads and of the packets that it sent.
use drum_firmware.Sds.Format.{unknown, cancelled, wait, nak, ack, Result, MessageType}
use drum_firmware.Sds.Send.{
  send_cancel, open_loop_interval_us, retransmit_interval_us, stall_timeout_us,
  header_response_timeout_us, is_idle, advance_open_loop, resend_last, update_in, update,
  transfer_complete, on_response, handle_response, is_open_loop, bytes_per_packet, send_next_packet,
  send_from, packet_sent, finish, Sender, idle, awaiting_header_response, awaiting_packet_response,
  open_loop, SenderState, ReadOps,
}
use native.Mathlib.Decide.{dec_le}
use drum_firmware.Base.{
  ltb, false, ◌==◌, inr, refl, none, inl, ==→eq, ◌/◌, if_cases, arith, ◌-◌, ◌+◌, ◌⊎◌, min, length,
  ◌≢◌, ◌≡◌, some, ◌<◌, Option, ◌%◌, if◌then◌else◌, ◌≤◌, List, ℕ,
}

-- Packets of 80 bytes, but for the last one, and numbered by their count.
pub record IsValid {R : Type 0} (s : Sender R) : Type 0 where
  pub within : s.bytes_sent ≤ s.total_bytes
  pub blocks : (s.bytes_sent % bytes_per_packet ≡ 0) ⊎ (s.bytes_sent ≡ s.total_bytes)
  pub numbered : s.packet_num ≡ (s.bytes_sent + 79) / bytes_per_packet % 128
  pub file_open : s.state ≢ idle → s.file ≢ none
  pub header_first : s.state ≡ awaiting_header_response → (s.bytes_sent ≡ 0) × (0 < s.total_bytes)

module _ {R : Type 0} (ops : ReadOps R) (file_name : ℕ → List ℕ) where
  finish-IsValid : (s : Sender R) → IsValid s → IsValid (finish s)
  finish-IsValid s v = record {
    within = v.within;
    blocks = v.blocks;
    numbered = v.numbered;
    file_open = λ h. absurd (h refl);
    header_first = λ e. cc;
  }

  stop-IsValid : (s : Sender R) → IsValid s → IsValid (finish (send_cancel s))
  stop-IsValid s v = record {
    within = v.within;
    blocks = v.blocks;
    numbered = v.numbered;
    file_open = λ h. absurd (h refl);
    header_first = λ e. cc;
  }

  sent_state :
      (st : SenderState)
      → (if is_open_loop st then open_loop else awaiting_packet_response) ≢ awaiting_header_response
  sent_state idle e = cc
  sent_state awaiting_header_response e = cc
  sent_state awaiting_packet_response e = cc
  sent_state open_loop e = cc

  packet_sent-IsValid :
      (f : R) (bytes : List ℕ) (now : ℕ) (s : Sender R)
      → IsValid s
      → s.bytes_sent < s.total_bytes
      → s.file ≡ some f
      → length bytes ≡ min (s.total_bytes - s.bytes_sent) bytes_per_packet
      → IsValid (packet_sent ops file_name bytes now s)
  unfolding packet_sent
  packet_sent-IsValid f bytes now s v more o e = record {
    within = omega (arith, v.within);
    blocks = elim v.blocks [
      | inl whole ↦ elim (dec_le (s.bytes_sent + bytes_per_packet) s.total_bytes) [
        | yes room ↦ inl (omega arith)
        | no short ↦ inr (omega arith)
      ]
      | inr all ↦ absurd (omega arith)
    ];
    numbered = elim v.blocks [
      | inl whole ↦ omega (arith, v.numbered)
      | inr all ↦ absurd (omega arith)
    ];
    file_open = λ h k. cc;
    header_first = λ h. absurd (sent_state s.state h);
  }

  send_from-IsValid :
      (o : Option R) (now : ℕ) (s : Sender R)
      → IsValid s
      → s.bytes_sent < s.total_bytes
      → IsValid (send_from ops file_name o now s)
  unfolding send_from
  send_from-IsValid none now s v more = v
  send_from-IsValid (some f) now s v more =
      if_cases IsValid (length (read_now.0) == to_read)
        (λ e.
          packet_sent-IsValid (read_now.1) (read_now.0) now reading reopened more refl
            (==→eq (length (read_now.0)) to_read e))
        (λ e. stop-IsValid reading reopened)
    where
      to_read : ℕ
      to_read = min (s.total_bytes - s.bytes_sent) bytes_per_packet

      read_now : List ℕ × R
      read_now = ops.read to_read f

      reading : Sender R
      reading = record s { file = some (read_now.1) }

      reopened : IsValid reading
      reopened = record {
        within = v.within;
        blocks = v.blocks;
        numbered = v.numbered;
        file_open = λ h k. cc;
        header_first = v.header_first;
      }

  send_next_packet-IsValid :
      (now : ℕ) (s : Sender R)
      → IsValid s
      → s.bytes_sent < s.total_bytes
      → IsValid (send_next_packet ops file_name now s)
  unfolding send_next_packet
  send_next_packet-IsValid now s v more = send_from-IsValid s.file now s v more

  incomplete : (s : Sender R) → transfer_complete s ≡ false → s.bytes_sent < s.total_bytes
  unfolding transfer_complete
  incomplete s e = ground arith

  -- What does not touch the position in the file keeps the invariant.
  on_response-IsValid :
      (t : MessageType) (now : ℕ) (s : Sender R)
      → IsValid s
      → IsValid (on_response ops file_name t now s).1
  unfolding on_response resend_last
  on_response-IsValid ack now s v =
      if_cases (λ (r : Result × Sender R). IsValid r.1) (transfer_complete waiting)
        (λ e. finish-IsValid waiting waiting-IsValid)
        (λ e. send_next_packet-IsValid now waiting waiting-IsValid (incomplete waiting e))
    where
      waiting : Sender R
      waiting = record s { wait_pending = false }

      waiting-IsValid : IsValid waiting
      waiting-IsValid = record {
        within = v.within;
        blocks = v.blocks;
        numbered = v.numbered;
        file_open = v.file_open;
        header_first = v.header_first;
      }
  on_response-IsValid nak now s v = record {
    within = v.within;
    blocks = v.blocks;
    numbered = v.numbered;
    file_open = v.file_open;
    header_first = v.header_first;
  }
  on_response-IsValid wait now s v = record {
    within = v.within;
    blocks = v.blocks;
    numbered = v.numbered;
    file_open = v.file_open;
    header_first = v.header_first;
  }
  on_response-IsValid cancelled now s v = finish-IsValid s v
  on_response-IsValid unknown now s v = v

  -- Every response of the host keeps the invariant, whatever is read from the file.
  pub handle_response-IsValid :
      (t : MessageType) (now : ℕ) (s : Sender R)
      → IsValid s
      → IsValid (handle_response ops file_name t now s).1
  unfolding handle_response
  handle_response-IsValid t now s v =
      if_cases (λ (r : Result × Sender R). IsValid r.1) (is_idle s.state) (λ e. v)
        (λ e.
          on_response-IsValid t now (record s { last_activity = now })
            (record {
              within = v.within;
              blocks = v.blocks;
              numbered = v.numbered;
              file_open = v.file_open;
              header_first = v.header_first;
            }))

  update_in-IsValid :
      (st : SenderState) (now : ℕ) (s : Sender R)
      → s.state ≡ st
      → IsValid s
      → IsValid (update_in ops file_name st now s).1
  unfolding update_in resend_last advance_open_loop
  update_in-IsValid idle now s e v = v
  update_in-IsValid awaiting_header_response now s e v =
      if_cases (λ (r : Result × Sender R). IsValid r.1)
        (ltb (s.last_activity + header_response_timeout_us) now)
        (λ late.
          send_next_packet-IsValid now (record s { state = open_loop })
            (record {
              within = v.within;
              blocks = v.blocks;
              numbered = v.numbered;
              file_open = λ h. v.file_open (λ k. cc);
              header_first = λ h. cc;
            })
            (omega (arith, (v.header_first e).0, (v.header_first e).1)))
        (λ early. v)
  update_in-IsValid awaiting_packet_response now s e v =
      if_cases (λ (r : Result × Sender R). IsValid r.1)
        (ltb (s.last_send + retransmit_interval_us) now)
        (λ late. record {
          within = v.within;
          blocks = v.blocks;
          numbered = v.numbered;
          file_open = v.file_open;
          header_first = v.header_first;
        })
        (λ early. v)
  update_in-IsValid open_loop now s e v =
      if_cases (λ (r : Result × Sender R). IsValid r.1)
        (ltb (s.last_send + open_loop_interval_us) now)
        (λ late.
          if_cases (λ (r : Result × Sender R). IsValid r.1) (transfer_complete s)
            (λ done. finish-IsValid s v)
            (λ more. send_next_packet-IsValid now s v (incomplete s more)))
        (λ early. v)

  -- The periodic update keeps the invariant.
  pub update-IsValid : (now : ℕ) (s : Sender R) → IsValid s → IsValid (update ops file_name now s).1
  unfolding update
  update-IsValid now s v =
      if_cases (λ (r : Result × Sender R). IsValid r.1) (is_idle s.state) (λ e. v)
        (λ e.
          if_cases (λ (r : Result × Sender R). IsValid r.1)
            (ltb (s.last_activity + stall_timeout_us) now) (λ stalled. finish-IsValid s v)
            (λ alive.
              if_cases (λ (r : Result × Sender R). IsValid r.1) s.wait_pending (λ waiting. v)
                (λ going. update_in-IsValid s.state now s refl v)))
