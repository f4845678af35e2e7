-- ===== src/FirmwareUpdate/Tests.antt =====
-- Runs of the update handlers on a writer that keeps the bytes it was given.
use drum_firmware.FirmwareUpdate.Bytes.{handle_bytes_exact}
use drum_firmware.Codec.Grouped.{encode_groups}
use drum_firmware.FirmwareUpdate.Invariant.{Leaves, update_chunk-IsValid, IsWriter, IsValid}
use drum_firmware.FirmwareUpdate.Defs.{
  ack, send, ok, receiving, handle_bytes, handle_chunk, WriterOps, Update,
}
use drum_firmware.Base.{◌+◌, take, ◌++◌, true, some, length, ℕ, arith, List, [], ◌∷◌, ◌≡◌, refl}

abbrev keeping : WriterOps (List ℕ)
keeping = record {
  begin = λ total_size sha w. (true, []);
  write = λ bytes w. (true, w ++ bytes);
  finalize = λ w. (true, w);
  abort = λ w. [];
}

keeping_law : IsWriter keeping (λ w. w)
keeping_law = record { begins_empty = λ total_size sha w e. refl; write_adds = λ bytes w e. refl }

-- An update of seven bytes of which `writer` have arrived.
abbrev update_of : List ℕ → Update (List ℕ)
update_of writer = record {
  writer = writer;
  state = receiving;
  last_activity = 0;
  total_size = 7;
  bytes_received = length writer;
  replies = [];
}

abbrev all_seven : List ℕ
all_seven = 200 ∷ 1 ∷ 2 ∷ 3 ∷ 4 ∷ 5 ∷ 255 ∷ []

empty_IsValid : IsValid (λ w. w) (update_of [])
empty_IsValid = record {
  within = omega arith;
  announced = omega arith;
  counted = λ e. refl;
  nonempty = λ e. omega arith;
}

abbrev bytes_chunk : List ℕ
bytes_chunk = 0x00 ∷ 0x22 ∷ 0x01 ∷ 0x65 ∷ 0x21 ∷ encode_groups all_seven

update_chunk-IsValid_example :
    Leaves keeping (λ w. w) keeping_law (handle_chunk keeping 20 bytes_chunk 5 (update_of []))
update_chunk-IsValid_example =
    update_chunk-IsValid keeping (λ w. w) keeping_law 20 bytes_chunk 5 (update_of []) empty_IsValid

handle_bytes_exact_example :
    (v : Update (List ℕ)) × (handle_bytes keeping 2 (encode_groups all_seven) 5 (update_of [])
      ≡ some (ok, send ack (record v { last_activity = 5 })))
    × (v.writer ≡ take 7 all_seven)
    × (v.bytes_received ≡ 0 + length (take 7 all_seven))
handle_bytes_exact_example =
    handle_bytes_exact keeping (λ w. w) 0 0 all_seven 5 (update_of []) keeping_law empty_IsValid
      refl
      (
        omega arith,
        (
          omega arith,
          (omega arith, (omega arith, (omega arith, (omega arith, (omega arith, tt))))),
        ),
      )
      refl (omega arith) (omega arith) refl
