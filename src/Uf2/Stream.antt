-- ===== src/Uf2/Stream.antt =====
-- What the callback keeps, `Uf2Parser::push` of musin/flash/uf2_parser.h keeps.
use drum_firmware.Base.{
  ◌-◌, leb, ◌||◌, ◌%◌, ltb, ◌^◌, ◌==◌, ◌/◌, not, length, if_cases, false, true, if◌then◌else◌, ℕ,
  List, [], ◌∷◌, ◌++◌, Bool,
}
use drum_firmware.Uf2.{
  is_foreign, flash_base, uf2_block_size, payload_size, is_framed, read_header, process_header,
  complete, Header, process_numbered, process_block, emitted, Result, ok, Block, Uf2Parser,
  push_byte, push,
}

module _ {S : Type 0} (emit : Block → S → Bool × S) where
  module _ (I : S → Type 0) (keep : (b : Block) (s : S) → I s → I (emit b s).1) where
    emitted_keeps : (r : Bool × S) (p : Uf2Parser) → I r.1 → I (emitted emit r p).2
    unfolding emitted
    emitted_keeps (true, s) p h = h
    emitted_keeps (false, s) p h = h

    abbrev Keeps : Result × Uf2Parser × S → Type 0
    Keeps r = I r.2

    numbered_keeps :
        (h : Header) (block : List ℕ) (p : Uf2Parser) (s : S)
        → I s
        → I (process_numbered emit h block p s).2
    unfolding process_numbered
    numbered_keeps h block p s i =
        if_cases Keeps (not (h.size == payload_size)) (λ _. i)
          λ _.
            if_cases Keeps
              (ltb h.target_addr flash_base
                || ltb p.partition_size payload_size
                || ltb (p.partition_size - payload_size) (h.target_addr - flash_base))
              (λ _. i) (λ _. emitted_keeps (emit _ s) p (keep _ s i))

    block_keeps :
        (block : List ℕ) (p : Uf2Parser) (s : S) → I s → I (process_block emit block p s).2
    unfolding process_block process_header
    block_keeps block p s i =
        let h = read_header block in
        if_cases Keeps (is_framed block)
          (λ _.
            if_cases Keeps (h.flags / 2 ^ 13 % 2 == 0) (λ _. i)
              λ _.
                if_cases Keeps (is_foreign h) (λ _. i)
                  λ _.
                    if_cases Keeps
                      (not (h.block_no == p.next_block_no) || leb h.num_blocks h.block_no) (λ _. i)
                      (λ _. numbered_keeps h block _ s i))
          (λ _. i)

    byte_keeps : (byte : ℕ) (p : Uf2Parser) (s : S) → I s → I (push_byte emit byte p s).2
    unfolding push_byte
    byte_keeps byte p s i =
        if_cases Keeps (length (p.buffer ++ (byte ∷ [])) == uf2_block_size)
          (λ _.
            done (process_block emit (p.buffer ++ (byte ∷ [])) (record p { buffer = [] }) s)
              (block_keeps (p.buffer ++ (byte ∷ [])) (record p { buffer = [] }) s i))
          (λ _. i)
      where
        done :
            (r : Result × Uf2Parser × S)
            → I r.2
            → Keeps (elim r.0 [ ok ↦ (if r.1.completed then complete else ok, r.1, r.2) | _ ↦ r ])
        done (ok, q, t) h = h
        done (_, q, t) h = h

    -- What the callback keeps for every block it may be given, a push keeps on every branch.
    pub push_keeps : (bytes : List ℕ) (p : Uf2Parser) (s : S) → I s → I (push emit bytes p s).2
    unfolding push
    push_keeps [] p s h = h
    push_keeps (x ∷ xs) p s h =
        rest (push_byte emit x p s) (byte_keeps x p s h) (λ q t i. push_keeps xs q t i)
      where
        rest :
            (r : Result × Uf2Parser × S)
            → I r.2
            → ((q : Uf2Parser) (t : S) → I t → I (push emit xs q t).2)
            → Keeps (elim r.0 [ ok ↦ push emit xs r.1 r.2 | _ ↦ r ])
        rest (ok, q, t) i go_on = go_on q t i
        rest (_, q, t) i go_on = i
