-- ===== src/Uf2.antt =====
-- musin/flash/uf2_parser.h: the incremental UF2 parser. `buffer` is `buffer_[0..buffer_pos_)`, and
-- `emit` is the caller's callback on a state of its own.
pub mod Stream
pub mod Emitted
mod Tests
use drum_firmware.Base.{
  ℕ, ◌+◌, ◌-◌, ◌*◌, ◌/◌, ◌%◌, ◌^◌, Bool, true, false, not, ◌&&◌, ◌||◌, List, [], ◌∷◌, ◌++◌, length,
  get_or, take, drop, u32, ltb, leb, ◌==◌, if◌then◌else◌,
}

abbrev pub uf2_block_size : ℕ
uf2_block_size = 512

abbrev pub payload_size : ℕ
payload_size = 256

abbrev pub flash_base : ℕ
flash_base = 0x10000000

abbrev pub family_rp2350_arm_s : ℕ
family_rp2350_arm_s = 0xe48bff59

pub data Result : Type 0 where
  ok complete bad_magic wrong_family bad_payload_size out_of_range non_sequential : Result
  emit_failed : Result

pub record Block : Type 0 where
  pub flash_offset : ℕ
  pub payload : List ℕ
  pub block_no : ℕ
  pub num_blocks : ℕ

pub record Uf2Parser : Type 0 where
  pub target_offset : ℕ
  pub partition_size : ℕ
  pub buffer : List ℕ
  pub next_block_no : ℕ
  pub bytes_emitted : ℕ
  pub completed : Bool

-- The constructor; `reset` gives the same with the target of the parser.
unfoldable pub new_parser : ℕ → ℕ → Uf2Parser
new_parser target_offset partition_size = record {
  target_offset = target_offset;
  partition_size = partition_size;
  buffer = [];
  next_block_no = 0;
  bytes_emitted = 0;
  completed = false;
}

-- Four bytes, little-endian.
unfoldable pub read_u32 : List ℕ → ℕ → ℕ
read_u32 block i = u32 (
    get_or block i 0
    + get_or block (i + 1) 0 * 2 ^ 8
    + get_or block (i + 2) 0 * 2 ^ 16
    + get_or block (i + 3) 0 * 2 ^ 24)

-- The words of a block's header that the parser reads.
pub record Header : Type 0 where
  pub flags : ℕ
  pub target_addr : ℕ
  pub size : ℕ
  pub block_no : ℕ
  pub num_blocks : ℕ
  pub family_id : ℕ

unfoldable pub read_header : List ℕ → Header
unfolding read_u32
read_header block = record {
  flags = read_u32 block 8;
  target_addr = read_u32 block 12;
  size = read_u32 block 16;
  block_no = read_u32 block 20;
  num_blocks = read_u32 block 24;
  family_id = read_u32 block 28;
}

unfoldable pub is_framed : List ℕ → Bool
unfolding read_u32
is_framed block =
    read_u32 block 0 == 0x0a324655
    && read_u32 block 4 == 0x9e5d5157
    && read_u32 block (uf2_block_size - 4) == 0x0ab16f30

-- FLAG_FAMILY_ID_PRESENT is bit 13, FLAG_NOT_MAIN_FLASH is bit 0.
unfoldable pub is_foreign : Header → Bool
is_foreign h = not (h.family_id == family_rp2350_arm_s) || h.flags % 2 == 1

module _ {S : Type 0} (emit : Block → S → Bool × S) where
  unfoldable pub emitted : Bool × S → Uf2Parser → Result × Uf2Parser × S
  emitted (true, s) p = (ok, record p { bytes_emitted = u32 (p.bytes_emitted + payload_size) }, s)
  emitted (false, s) p = (emit_failed, p, s)

  -- What follows the check of the block number.
  unfoldable pub process_numbered : Header → List ℕ → Uf2Parser → S → Result × Uf2Parser × S
  unfolding emitted
  process_numbered h block p s =
      if not (h.size == payload_size)
      then (bad_payload_size, p, s)
      else if ltb h.target_addr flash_base
          || ltb p.partition_size payload_size
          || ltb (p.partition_size - payload_size) (h.target_addr - flash_base)
      then (out_of_range, p, s)
      else emitted
          (emit
            (record {
              flash_offset = u32 (h.target_addr - flash_base + p.target_offset);
              payload = take payload_size (drop 32 block);
              block_no = h.block_no;
              num_blocks = h.num_blocks;
            })
            s)
          p

  unfoldable pub process_header : Header → List ℕ → Uf2Parser → S → Result × Uf2Parser × S
  process_header h block p s =
      if h.flags / 2 ^ 13 % 2 == 0
      then (wrong_family, p, s)
      else if is_foreign h
      then (ok, p, s)
      else if not (h.block_no == p.next_block_no) || leb h.num_blocks h.block_no
      then (non_sequential, p, s)
      else process_numbered h block
          (record p {
            next_block_no = u32 (p.next_block_no + 1);
            completed = p.completed || u32 (h.block_no + 1) == h.num_blocks;
          })
          s

  unfoldable pub process_block : List ℕ → Uf2Parser → S → Result × Uf2Parser × S
  process_block block p s =
      if is_framed block then process_header (read_header block) block p s else (bad_magic, p, s)

  -- The loop of `push` on one byte: the result is `ok` where the loop goes on.
  unfoldable pub push_byte : ℕ → Uf2Parser → S → Result × Uf2Parser × S
  push_byte byte p s =
      let block = p.buffer ++ (byte ∷ []) in
      let r = process_block block (record p { buffer = [] }) s in
      if length block == uf2_block_size
      then elim r.0 [ ok ↦ (if r.1.completed then complete else ok, r.1, r.2) | _ ↦ r ]
      else (ok, record p { buffer = block }, s)

  unfoldable pub push : List ℕ → Uf2Parser → S → Result × Uf2Parser × S
  push [] p s = (ok, p, s)
  push (byte ∷ bytes) p s =
      let r = push_byte byte p s in elim r.0 [ ok ↦ push bytes r.1 r.2 | _ ↦ r ]
