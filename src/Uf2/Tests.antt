-- ===== src/Uf2/Tests.antt =====
-- Runs of the UF2 parser.
use drum_firmware.Uf2.Emitted.{push-Accepts, IsInSequence, Accepts}
use drum_firmware.Uf2.{
  complete, read_u32, read_header, is_foreign, is_framed, emitted, process_numbered,
  family_rp2350_arm_s, process_header, payload_size, process_block, flash_base, push_byte, push,
  new_parser, Block,
}
use drum_firmware.Base.{
  replicate, ◌^◌, ◌/◌, true, ◌++◌, ◌%◌, length, arith, Bool, ℕ, List, [], ◌∷◌, ◌≡◌, refl,
}

-- A callback that records the flash offsets.
abbrev record_offset : Block → List ℕ → Bool × List ℕ
record_offset b s = (true, b.flash_offset ∷ s)

abbrev word : ℕ → List ℕ
word n = (n % 256) ∷ (n / 2 ^ 8 % 256) ∷ (n / 2 ^ 16 % 256) ∷ (n / 2 ^ 24 % 256) ∷ []

-- The only block of an image for the first sector of the partition.
abbrev only_block : List ℕ
only_block =
    word 0x0a324655
    ++ word 0x9e5d5157
    ++ word 0x2000
    ++ word flash_base
    ++ word payload_size
    ++ word 0
    ++ word 1
    ++ word family_rp2350_arm_s
    ++ replicate 476 0xaa
    ++ word 0x0ab16f30

abbrev Records : ℕ → List ℕ → Type 0
Records n s = length s ≡ n

parses_block : (push record_offset only_block (new_parser 4096 8192) []).0 ≡ complete
unfolding push push_byte process_block process_header process_numbered emitted is_framed is_foreign
    read_header read_u32 new_parser
parses_block = refl

starts-IsInSequence : IsInSequence 4096 8192 Records (new_parser 4096 8192) []
unfolding new_parser
starts-IsInSequence = record {
  offset_kept = refl;
  size_kept = refl;
  counted = refl;
  numbered = omega arith;
  accepted = refl;
}

push-Accepts_example :
    Accepts record_offset 4096 8192 Records
      (omega arith)
      (λ b s i j e. omega (arith, j))
      (push record_offset only_block (new_parser 4096 8192) [])
push-Accepts_example =
    push-Accepts record_offset 4096 8192 Records (omega arith) (λ b s i j e. omega (arith, j))
      only_block (new_parser 4096 8192) [] starts-IsInSequence
