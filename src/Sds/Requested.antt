-- ===== src/Sds/Requested.antt =====
-- A dump request, to a sender that is idle or busy.
use drum_firmware.Sds.Sent.{IsValid}
use drum_firmware.Sds.Format.{parse_14bit, Result}
use drum_firmware.Sds.Send.{
  send_dump_header, start_dump, handle_dump_request, send_cancel, is_idle, Sender, idle,
  awaiting_header_response, awaiting_packet_response, open_loop, SenderState, ReadOps,
}
use drum_firmware.Base.{
  Bool-cases, get_or, true, ltb, inr, refl, none, inl, if_cases, arith, length, ◌≡◌, some, Option,
  List, ℕ,
}

module _ {R : Type 0} (ops : ReadOps R) (file_name : ℕ → List ℕ) where
  idle_lem : (st : SenderState) → is_idle st ≡ true → st ≡ idle
  idle_lem idle e = refl
  idle_lem awaiting_header_response e = cc
  idle_lem awaiting_packet_response e = cc
  idle_lem open_loop e = cc

  refused-IsValid :
      (s : Sender R) → IsValid s → s.state ≡ idle → IsValid (send_cancel (record s { file = none }))
  refused-IsValid s v e = record {
    within = v.within;
    blocks = v.blocks;
    numbered = v.numbered;
    file_open = λ h. absurd (h e);
    header_first = λ h. cc;
  }

  start_dump-IsValid :
      (o : Option R) (now : ℕ) (s : Sender R)
      → IsValid s
      → s.state ≡ idle
      → IsValid (start_dump ops file_name o now s).1
  unfolding start_dump send_dump_header
  start_dump-IsValid none now s v e = refused-IsValid s v e
  start_dump-IsValid (some f) now s v e =
      if_cases (λ (r : Result × Sender R). IsValid r.1) (ltb (ops.size f) 2)
        (λ empty. refused-IsValid s v e)
        (λ filled. record {
          within = omega arith;
          blocks = inl (omega arith);
          numbered = omega arith;
          file_open = λ h k. cc;
          header_first = λ h. (refl, ground arith);
        })

  -- A dump request keeps the invariant, whatever file it asks for.
  pub handle_dump_request-IsValid :
      (message : List ℕ) (now : ℕ) (s : Sender R)
      → IsValid s
      → IsValid (handle_dump_request ops file_name message now s).1
  unfolding handle_dump_request
  handle_dump_request-IsValid message now s v =
      if_cases (λ (r : Result × Sender R). IsValid r.1) (ltb (length message) 3) (λ short. rejected)
        (λ long. elim (Bool-cases (is_idle s.state)) [
          | inl e ↦ rw e (
              start_dump-IsValid (ops.open_read (file_name n)) now (record s { sample_number = n })
                numbered (idle_lem s.state e))
          | inr e ↦ rw e rejected
        ])
    where
      n : ℕ
      n = parse_14bit (get_or message 1 0) (get_or message 2 0)

      numbered : IsValid (record s { sample_number = n })
      numbered = record {
        within = v.within;
        blocks = v.blocks;
        numbered = v.numbered;
        file_open = v.file_open;
        header_first = v.header_first;
      }

      rejected : IsValid (send_cancel s)
      rejected = record {
        within = v.within;
        blocks = v.blocks;
        numbered = v.numbered;
        file_open = v.file_open;
        header_first = v.header_first;
      }
