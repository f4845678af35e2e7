-- ===== src/Uf2/Emitted.antt =====
-- Which blocks reach the callback: only ones that lie in the target partition, in the order of
-- their numbers from the parser's next one on.
use drum_firmware.Uf2.{
  is_foreign, is_framed, push_byte, push, process_header, process_block, emitted, flash_base,
  uf2_block_size, complete, ok, Header, read_header, process_numbered, Result, payload_size,
  Uf2Parser, Block,
}
use drum_firmware.Base.{
  ap, ◌∙◌, leb, ◌%◌, ◌^◌, [], ◌∷◌, ◌/◌, ◌++◌, false, drop, take, if◌then◌else◌, ◌-◌, ◌||◌, ltb,
  ◌==◌, not, if_cases, arith, List, ◌<◌, ◌*◌, length, true, ◌+◌, u32, ◌≤◌, ◌≡◌, Bool, ℕ,
  length-take, length-drop, refl,
}

-- The block's payload has 256 bytes and lies in `size` bytes from `lo` on.
pub record IsInTarget (lo size : ℕ) (b : Block) : Type 0 where
  pub from_start : lo ≤ b.flash_offset
  pub to_end : b.flash_offset + payload_size ≤ lo + size
  pub whole : length b.payload ≡ payload_size

-- The parser's target, and `J` of the number of blocks accepted and what the callback keeps.
pub record IsInSequence {S : Type 0} (lo size : ℕ) (J : ℕ → S → Type 0) (p : Uf2Parser) (s : S)
    : Type 0 where
  pub offset_kept : p.target_offset ≡ lo
  pub size_kept : p.partition_size ≡ size
  pub counted : p.bytes_emitted ≡ u32 (payload_size * p.next_block_no)
  pub numbered : p.next_block_no < 4294967296
  pub accepted : J p.next_block_no s

module _ {S : Type 0} (emit : Block → S → Bool × S) (lo size : ℕ) (J : ℕ → S → Type 0)
    (fits : lo + size ≤ 4294967296)
    (keep : (b : Block) (s : S)
      → IsInTarget lo size b
      → J b.block_no s
      → (emit b s).0 ≡ true
      → J (b.block_no + 1) (emit b s).1) where
  -- What a result without error leaves.
  abbrev pub Accepts : Result × Uf2Parser × S → Type 0
  Accepts (ok, p, s) = IsInSequence lo size J p s
  Accepts (complete, p, s) = IsInSequence lo size J p s
  Accepts _ = Unit

  emitted-Accepts :
      (n : ℕ) (r : Bool × S) (p : Uf2Parser)
      → p.target_offset ≡ lo
      → p.partition_size ≡ size
      → p.next_block_no ≡ n + 1
      → n + 1 < 4294967296
      → p.bytes_emitted ≡ u32 (payload_size * n)
      → (r.0 ≡ true → J (n + 1) r.1)
      → Accepts (emitted emit r p)
  unfolding emitted
  emitted-Accepts n (true, s) p eo es en small eb j = record {
    offset_kept = eo;
    size_kept = es;
    counted = omega arith;
    numbered = omega arith;
    accepted = rw en (j refl);
  }
  emitted-Accepts n (false, s) p eo es en small eb j = tt

  numbered_Accepts :
      (h : Header) (block : List ℕ) (p : Uf2Parser) (s : S)
      → length block ≡ uf2_block_size
      → h.target_addr < 4294967296
      → p.target_offset ≡ lo
      → p.partition_size ≡ size
      → p.next_block_no ≡ h.block_no + 1
      → h.block_no + 1 < 4294967296
      → p.bytes_emitted ≡ u32 (payload_size * h.block_no)
      → J h.block_no s
      → Accepts (process_numbered emit h block p s)
  unfolding process_numbered
  numbered_Accepts h block p s whole addr eo es en small eb j =
      if_cases Accepts (not (h.size == payload_size)) (λ _. tt)
        λ _.
          if_cases Accepts
            (ltb h.target_addr flash_base
              || ltb p.partition_size payload_size
              || ltb (p.partition_size - payload_size) (h.target_addr - flash_base))
            (λ _. tt)
            λ inside. emitted-Accepts h.block_no (emit b s) p eo es en small eb (
              keep b s
                (record {
                  from_start = ground arith;
                  to_end = ground arith;
                  whole =
                      omega (arith, length-take payload_size (drop 32 block), length-drop 32 block);
                })
                j)
    where
      b : Block
      b = record {
        flash_offset = u32 (h.target_addr - flash_base + p.target_offset);
        payload = take payload_size (drop 32 block);
        block_no = h.block_no;
        num_blocks = h.num_blocks;
      }

  header_Accepts :
      (h : Header) (block : List ℕ) (p : Uf2Parser) (s : S)
      → length block ≡ uf2_block_size
      → h.target_addr < 4294967296
      → h.num_blocks < 4294967296
      → IsInSequence lo size J p s
      → Accepts (process_header emit h block p s)
  unfolding process_header
  header_Accepts h block p s whole addr few v =
      if_cases Accepts (h.flags / 2 ^ 13 % 2 == 0) (λ _. tt)
        λ _.
          if_cases Accepts (is_foreign h) (λ _. v)
            λ _.
              if_cases Accepts (not (h.block_no == p.next_block_no) || leb h.num_blocks h.block_no)
                (λ _. tt)
                λ next.
                  let same : p.next_block_no ≡ h.block_no = ground arith in
                  let below : h.block_no < h.num_blocks = ground arith in
                  numbered_Accepts h block
                    (record p {
                      next_block_no = u32 (p.next_block_no + 1);
                      completed = p.completed || u32 (h.block_no + 1) == h.num_blocks;
                    })
                    s whole addr v.offset_kept v.size_kept (omega arith) (omega arith)
                    (v.counted ∙ ap (λ n. u32 (payload_size * n)) same) (rw (← same) v.accepted)

  block_Accepts :
      (block : List ℕ) (p : Uf2Parser) (s : S)
      → length block ≡ uf2_block_size
      → IsInSequence lo size J p s
      → Accepts (process_block emit block p s)
  unfolding process_block
  block_Accepts block p s whole v =
      if_cases Accepts (is_framed block)
        (λ _.
          header_Accepts (read_header block) block p s whole (unfold read_header in omega arith)
            (unfold read_header in omega arith) v)
        (λ _. tt)

  done_Accepts :
      (r : Result × Uf2Parser × S)
      → Accepts r
      → Accepts (elim r.0 [ ok ↦ (if r.1.completed then complete else ok, r.1, r.2) | _ ↦ r ])
  done_Accepts (ok, p, s) h = ground arith
  done_Accepts (complete, p, s) h = h
  done_Accepts (_, p, s) h = tt

  byte_Accepts :
      (byte : ℕ) (p : Uf2Parser) (s : S)
      → IsInSequence lo size J p s
      → Accepts (push_byte emit byte p s)
  unfolding push_byte
  byte_Accepts byte p s v =
      if_cases Accepts (length (p.buffer ++ (byte ∷ [])) == uf2_block_size)
        (λ full.
          done_Accepts (process_block emit (p.buffer ++ (byte ∷ [])) (record p { buffer = [] }) s) (
            block_Accepts (p.buffer ++ (byte ∷ [])) (record p { buffer = [] }) s (ground arith)
              (record {
                offset_kept = v.offset_kept;
                size_kept = v.size_kept;
                counted = v.counted;
                numbered = v.numbered;
                accepted = v.accepted;
              })))
        (λ _. record {
          offset_kept = v.offset_kept;
          size_kept = v.size_kept;
          counted = v.counted;
          numbered = v.numbered;
          accepted = v.accepted;
        })

  rest_Accepts :
      (bytes : List ℕ) (r : Result × Uf2Parser × S)
      → Accepts r
      → ((p : Uf2Parser) (s : S) → IsInSequence lo size J p s → Accepts (push emit bytes p s))
      → Accepts (elim r.0 [ ok ↦ push emit bytes r.1 r.2 | _ ↦ r ])
  rest_Accepts bytes (ok, p, s) h go_on = go_on p s h
  rest_Accepts bytes (complete, p, s) h go_on = h
  rest_Accepts bytes (_, p, s) h go_on = tt

  -- Every block that the callback accepts lies in the target partition, and the accepted blocks are
  -- numbered consecutively. So what holds of the callback's state after `next_block_no` blocks, and
  -- is kept by the next block in the target, holds after any bytes, as long as no error is returned;
  -- `bytes_emitted` counts 256 bytes a block.
  pub push-Accepts :
      (bytes : List ℕ) (p : Uf2Parser) (s : S)
      → IsInSequence lo size J p s
      → Accepts (push emit bytes p s)
  unfolding push
  push-Accepts [] p s v = v
  push-Accepts (byte ∷ bytes) p s v =
      rest_Accepts bytes (push_byte emit byte p s) (byte_Accepts byte p s v)
        (λ q t w. push-Accepts bytes q t w)
