-- ===== src/Tests/Upload.antt =====
-- Firmware that is written, and a Glasgow that is opened from the bus on
-- (src/uart/glasgow/management.rs, src/uart/glasgow/mod.rs).
use glasgow_tool.Prelude.{
  ℕ, ◌≡◌, refl, true, some, List, [], ◌∷◌, ◌++◌, arith, sort_by, insert_sorted, decimal, length,
}
use glasgow_tool.Error.{ok}
use glasgow_tool.Act.{◌>>=◌, pure, give, call}
use glasgow_tool.Transport.{TransferOutcome}
use glasgow_tool.Glasgow.Baud.{baud_divisor, realize, divisor_of}
use glasgow_tool.Glasgow.Management.{
  Management, fpga_status, status_id, all_zero, finish_fpga_load, load_loop, load_round, command,
  exchange, send_packet, receive_response, check_response, next_serial, write_register,
  read_register, register_value, expect_ack, acknowledged, set_fixed_profile,
}
use glasgow_tool.Glasgow.Device.{
  NativeInfo, list_devices, boards, device_info, attachment_path, decode_revision, select_device,
  is_match, matches, only,
}
use glasgow_tool.Glasgow.Resource.{
  FirmwareSegment, decode_hex, validate_resource_data, check_contents, header_mismatch,
  profile_valid, registers_mismatch, register_mismatch, pipe_mismatch, hex_pair, hex_digit,
}
use glasgow_tool.Glasgow.Resource.Hex.{hex_text}
use glasgow_tool.Glasgow.Transport.{GlasgowTransport, GlasgowHost, State, glasgow_read}
use glasgow_tool.Glasgow.Open.{
  load_bitstream, load_anew, upload, wait_loaded, wait_round, is_loaded, step, call_device, managed,
  note, enable_pipes, open_endpoints, configure, set_up, reset_interface, drop_guard, open_pipes,
}
use glasgow_tool.Glasgow.Firmware.{
  Bus, cypress_cpucs, ram_write, write_chunk, write_chunks, write_segment, write_segments,
  write_firmware, boards_now,
}
use glasgow_tool.Glasgow.Firmware.Ram.{placed, image, RamLaws, write_firmware-Written}
use glasgow_tool.Glasgow.Provide.{
  Provider, for_revision, validate_resource, provision, management_claim, with_manager,
  load_and_set_up, transport_now, open_board, glasgow_open, open_port, new_transport,
  default_options,
}
use glasgow_tool.Glasgow.Provide.Registers.{opened_reads_return}
use glasgow_tool.Tests.Resources.{read_manifest, digest_text}
use glasgow_tool.Tests.Provision.{Rig, new_rig, rig_device, rig_link, good_resource}

abbrev board_info : NativeInfo
board_info = record {
  vendor_id = 0x20b7;
  product_id = 0x9db1;
  device_version = 0x0933;
  serial_number = some "G1";
  bus_id = "3";
}

abbrev rig_bus : Bus Rig
rig_bus = record {
  enumerate = λ w. (ok (board_info ∷ []), w);
  open_device = λ info w. (ok tt, w);
  claim_interface = λ i w. (ok tt, w);
  control_out = λ request value index bytes w.
      (ok tt, record w { written = w.written ++ placed value bytes });
  close = λ w. w;
  clock = rig_link.clock;
}

ram_laws : RamLaws rig_bus
ram_laws = record { written = λ w. w.written; writes = λ address bytes w w' e. ground (arith, e) }

abbrev one_segment : List FirmwareSegment
one_segment = record { address = 0x10; data_hex = hex_text (5 ∷ 6 ∷ []) } ∷ []

abbrev written_rig : Rig
written_rig = record new_rig { written = (0xe600, 1) ∷ (0x10, 5) ∷ (0x11, 6) ∷ (0xe600, 0) ∷ [] }

writes_firmware : write_firmware rig_bus one_segment new_rig ≡ some (ok tt, written_rig)
unfolding write_firmware ram_write ◌>>=◌ call pure give write_segments write_segment write_chunks
    write_chunk decode_hex hex_pair hex_digit
writes_firmware = refl

write_firmware-Written_example :
    (bytes : List (ℕ × ℕ)) × (image one_segment ≡ some bytes)
    × (written_rig.written ≡ [] ++ (cypress_cpucs, 1) ∷ (bytes ++ (cypress_cpucs, 0) ∷ []))
unfolding ram_laws
write_firmware-Written_example =
    write_firmware-Written rig_bus ram_laws one_segment new_rig written_rig writes_firmware

abbrev rig_provider : Provider Rig
rig_provider = record {
  resources = record { revision = "C3"; bitstream = 7 ∷ []; manifest = [] } ∷ [];
  parse = read_manifest;
  digest = digest_text;
  bus = rig_bus;
  device = rig_device 512;
}

abbrev opened_rig : Rig
opened_rig = record new_rig {
  packet = 8 ∷ 0x29 ∷ 4 ∷ 4 ∷ [];
  loaded = true;
  rx_setting = 1;
  tx_setting = 1;
}

abbrev opened_board : GlasgowTransport
opened_board =
    new_transport rig_provider
      (record {
        serial = some "G1";
        vendor_id = 0x20b7;
        product_id = 0x9db1;
        revision = "C3";
        api_level = 9;
        api_compatible = true;
        path = "3";
        native = board_info;
      })
      good_resource 115_200
      (record {
        actual_baud = 115107;
        rx_errors_baseline = 0x01010101;
        rx_overflow_baseline = 0x01010101;
      })
      0

opens : open_port rig_provider 2 default_options new_rig ≡ some (ok (opened_board, 9), opened_rig)
unfolding open_port boards_now list_devices boards device_info attachment_path decode_revision
    decimal sort_by insert_sorted select_device matches is_match only glasgow_open validate_resource
    for_revision validate_resource_data check_contents header_mismatch profile_valid
    registers_mismatch register_mismatch pipe_mismatch decode_hex hex_pair hex_digit provision
    open_board management_claim with_manager load_and_set_up transport_now ◌>>=◌ pure give call
    load_bitstream load_anew step call_device upload is_loaded wait_loaded wait_round fpga_status
    status_id all_zero finish_fpga_load load_loop load_round command exchange send_packet
    receive_response check_response next_serial open_pipes set_up enable_pipes open_endpoints
    configure drop_guard reset_interface managed note baud_divisor realize divisor_of write_register
    read_register register_value expect_ack acknowledged set_fixed_profile
opens = refl

abbrev quiet_host : GlasgowHost Rig
quiet_host = record {
  link = rig_link;
  read = λ n w. (ok (5 ∷ []), w);
  write = λ bytes w. (ok (length bytes), w);
  submit = λ w. w;
  set_write_timeout = λ n w. w;
  flush = λ w. (ok tt, w);
  cancel_all = λ w. w;
  close_rx = λ w. w;
  close_tx = λ w. w;
}

abbrev opened_manager : Management Rig
opened_manager = record { serial = 9; world = opened_rig }

opened_reads_return_example :
    (out : TransferOutcome × List ℕ × State quiet_host) × (glasgow_read quiet_host 64
        (opened_board, opened_manager)
      ≡ some out)
opened_reads_return_example =
    opened_reads_return rig_provider 2 default_options new_rig opened_rig opened_board 9 quiet_host
      64 opened_manager opens
