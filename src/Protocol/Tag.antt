-- ===== src/Protocol/Tag.antt =====
-- The message tags of drum/sysex/protocol.h that the protocol acts on.
use drum_firmware.Base.{ℕ}

abbrev pub request_firmware_version : ℕ
request_firmware_version = 0x01

abbrev pub request_serial_number : ℕ
request_serial_number = 0x02

abbrev pub request_storage_info : ℕ
request_storage_info = 0x03

abbrev pub reboot_bootloader : ℕ
reboot_bootloader = 0x0b

abbrev pub begin_file_write : ℕ
begin_file_write = 0x10

abbrev pub file_bytes : ℕ
file_bytes = 0x11

abbrev pub end_file_transfer : ℕ
end_file_transfer = 0x12

abbrev pub format_filesystem : ℕ
format_filesystem = 0x15

abbrev pub request_sequencer_state : ℕ
request_sequencer_state = 0x30

abbrev pub set_sequencer_state : ℕ
set_sequencer_state = 0x32

abbrev pub get_setting : ℕ
get_setting = 0x40

abbrev pub set_setting : ℕ
set_setting = 0x42
