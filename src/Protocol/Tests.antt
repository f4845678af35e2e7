-- ===== src/Protocol/Tests.antt =====
-- Runs of the protocol on a store of one file that keeps the bytes it was given, and on one that
-- takes none.
use drum_firmware.Protocol.Tag
use drum_firmware.Protocol.FileBytes.{file_bytes_returns, IsReceiving, file_bytes_hangs}
use drum_firmware.Codec.Grouped.{encode_groups, IsByte}
use drum_firmware.Protocol.Storage.{IsReliable, FileOps}
use drum_firmware.Protocol.State.{
  idle, overrun, file_written, ack, send, returned, file_transfer, still_running, Result, Protocol,
}
use drum_firmware.Protocol.Path.{sanitize_path-IsRootName, slash, IsRootName, sanitize_path}
use drum_firmware.Protocol.Invariant.{handle_chunk-IsValid, Leaves, IsValid}
use drum_firmware.Protocol.Faults.{
  end_transfer_hides_failure, chunk_overrun_iff, message, IsDecodedTag,
}
use drum_firmware.Protocol.Defs.{handle_file_bytes_fast, handle_chunk}
use drum_firmware.Base.{
  ◌↔◌, none, ◌<◌, ◌++◌, some, replicate, true, length, arith, ℕ, List, All, [], ◌∷◌, ◌≡◌, refl,
}

abbrev keeping : FileOps (List ℕ)
keeping = record {
  open_file = λ path w. (true, []);
  write_file = λ bytes w. (length bytes, w ++ bytes);
  close_file = λ w. w;
  format = λ w. (true, []);
}

abbrev full_store : FileOps (List ℕ)
full_store = record {
  open_file = λ path w. (true, []);
  write_file = λ bytes w. (0, w);
  close_file = λ w. w;
  format = λ w. (true, []);
}

keeping-IsReliable : IsReliable keeping (λ w. w)
keeping-IsReliable = record { writes_all = λ bytes w. refl; appends = λ bytes w. refl }

abbrev receiving : List ℕ → Protocol (List ℕ)
receiving buffer = record {
  state = file_transfer;
  opened = some true;
  buffer = buffer;
  last_activity = 0;
  world = [];
  replies = [];
}

receiving-IsReceiving : (buffer : List ℕ) → length buffer < 256 → IsReceiving (receiving buffer)
receiving-IsReceiving buffer h = record { transferring = refl; open_now = refl; has_room = h }

receiving-IsValid : (buffer : List ℕ) → length buffer < 256 → IsValid (receiving buffer)
receiving-IsValid buffer h = record {
  closed_when_idle = λ e. cc;
  handle_valid = λ e. cc;
  in_buffer = omega (arith, h);
  room_when_open = λ e. h;
}

abbrev seven : List ℕ
seven = 200 ∷ 1 ∷ 2 ∷ 3 ∷ 4 ∷ 5 ∷ 255 ∷ []

seven_lem : All IsByte seven
seven_lem = (
  omega arith,
  (omega arith, (omega arith, (omega arith, (omega arith, (omega arith, (omega arith, tt)))))),
)

abbrev name : List ℕ
name = 0x61 ∷ 0x62 ∷ []

sanitize_path-IsRootName_example : IsRootName (slash ∷ name)
unfolding sanitize_path
sanitize_path-IsRootName_example = sanitize_path-IsRootName name (slash ∷ name) refl

abbrev bytes_chunk : List ℕ
bytes_chunk = message Tag.file_bytes (encode_groups seven)

handle_chunk-IsValid_example :
    Leaves IsValid (handle_chunk keeping 9 bytes_chunk 5 (receiving (9 ∷ [])))
handle_chunk-IsValid_example =
    handle_chunk-IsValid keeping 9 bytes_chunk 5 (receiving (9 ∷ []))
      (receiving-IsValid (9 ∷ []) (omega arith))

file_bytes_returns_example :
    (r : Result) × (q : Protocol (List ℕ)) × (handle_file_bytes_fast full_store 4
        (encode_groups seven)
        5
        (receiving (9 ∷ []))
      ≡ returned r q)
unfolding encode_groups
file_bytes_returns_example =
    file_bytes_returns full_store 4 1 (encode_groups seven) 5 (receiving (9 ∷ []))
      (receiving-IsReceiving (9 ∷ []) (omega arith)) refl (omega arith)

file_bytes_hangs_example :
    handle_file_bytes_fast keeping 1000 (1 ∷ 2 ∷ 3 ∷ []) 5 (receiving []) ≡ still_running
file_bytes_hangs_example =
    file_bytes_hangs keeping (λ w. w) 1000 (1 ∷ 2 ∷ 3 ∷ []) 5 (receiving []) keeping-IsReliable
      (receiving-IsReceiving [] (omega arith)) (omega arith)

abbrev nearly_full : List ℕ
nearly_full = replicate 252 9

begin_tag_lem : IsDecodedTag Tag.begin_file_write
begin_tag_lem =
    (λ e. omega (arith, e), λ e. omega (arith, e), λ e. omega (arith, e), λ e. omega (arith, e))

abbrev long_body : List ℕ
long_body = replicate 387 1

chunk_overrun_iff_example :
    (handle_chunk keeping 1 (message Tag.begin_file_write long_body) 5 (receiving []) ≡ overrun)
    ↔ (386 < length long_body)
chunk_overrun_iff_example =
    chunk_overrun_iff keeping 1 Tag.begin_file_write long_body 5 (receiving []) begin_tag_lem

end_transfer_hides_failure_example :
    (q : Protocol (List ℕ)) × (handle_chunk full_store 1
        (message Tag.end_file_transfer [])
        5
        (receiving (9 ∷ []))
      ≡ returned file_written (send ack q))
    × (q.state ≡ idle)
    × (q.opened ≡ none)
    × (q.world ≡ [])
end_transfer_hides_failure_example =
    end_transfer_hides_failure full_store 1 5 (receiving (9 ∷ []))
      (receiving-IsReceiving (9 ∷ []) (omega arith)) (λ e. cc) (λ e. omega (arith, e))

abbrev nested_path : List ℕ
nested_path = 0x61 ∷ slash ∷ 0x62 ∷ []
