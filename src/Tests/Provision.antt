-- ===== src/Tests/Provision.antt =====
-- A Glasgow that is loaded, set up and opened (src/uart/glasgow/transport.rs,
-- src/uart/glasgow/management.rs, src/uart/glasgow/mod.rs).
use glasgow_tool.Prelude.{
  ℕ, ◌+◌, ◌≡◌, refl, inl, inr, Bool, true, false, some, List, [], ◌∷◌, ◌++◌, arith, take, replicate,
  get_or, ◌==◌, if◌then◌else◌, Bool-cases,
}
use glasgow_tool.Error.{protocol, ok, err}
use glasgow_tool.Act.{◌>>=◌, pure, give}
use glasgow_tool.Glasgow.Management.{
  Link, Management, fpga_status, status_id, all_zero, finish_fpga_load, load_loop, load_round,
  command, exchange, send_packet, receive_response, check_response, next_serial,
}
use glasgow_tool.Glasgow.Open.{
  Device, ValidatedResource, load_bitstream, load_anew, upload, wait_loaded, wait_round, is_loaded,
  step, call_device, managed, note, enable_pipes, open_endpoints, set_up, reset_interface,
  drop_guard, open_pipes,
}
use glasgow_tool.Glasgow.Open.Loading.{SawLoaded, load_bitstream-SawLoaded}
use glasgow_tool.Glasgow.Open.Pipes.{AlternateLaws, IsReset, open_pipes-IsReset}
use glasgow_tool.Tests.Resources.{good_id, good_manifest}

-- The last packet, whether the FPGA is loaded, the writes to the RAM, the time, and the alternate
-- settings of interface 2 and of any other.
pub record Rig : Type 0 where
  pub packet : List ℕ
  pub loaded : Bool
  pub written : List (ℕ × ℕ)
  pub time : ℕ
  pub rx_setting : ℕ
  pub tx_setting : ℕ

abbrev answer_to : ℕ → ℕ → Bool → List ℕ
answer_to code width loaded =
    if code == 0x22
    then 0 ∷ 0 ∷ 0 ∷ 0 ∷ 0 ∷ (if loaded then good_id else replicate 8 0)
    else if code == 0x29
    then 0 ∷ replicate width 1
    else 0 ∷ []

abbrev pub rig_link : Link Rig
rig_link = record {
  write_all = λ packet w. (ok tt, record w { packet = packet });
  flush = λ w. (ok tt, w);
  read = λ n w.
      (ok (take 1 w.packet ++ answer_to (get_or w.packet 1 0) (get_or w.packet 3 0) w.loaded), w);
  clock = record { now = λ w. (w.time, w); sleep = λ n w. record w { time = w.time + n } };
}

abbrev set_alternate : ℕ → ℕ → Rig → Rig
set_alternate interface setting w =
    if interface == 2 then record w { rx_setting = setting } else record w { tx_setting = setting }

-- A board whose IN endpoint has packets of this size
abbrev pub rig_device : ℕ → Device Rig
rig_device packet = record {
  link = rig_link;
  claim_interface = λ i w. (ok tt, w);
  set_alt_setting = λ i a w. (ok tt, set_alternate i a w);
  bulk_in = λ i e w. (ok packet, w);
  bulk_out = λ i e w. (ok 512, w);
  write_bitstream = λ bytes w. (ok tt, record w { loaded = true });
  flush_bitstream = λ w. (ok tt, w);
}

abbrev pub new_rig : Rig
new_rig = record {
  packet = [];
  loaded = false;
  written = [];
  time = 0;
  rx_setting = 0;
  tx_setting = 0;
}

abbrev pub good_resource : ValidatedResource
good_resource = record { manifest = good_manifest; bitstream = 7 ∷ []; bitstream_id = good_id }

abbrev loaded_manager : Management Rig
loaded_manager = record {
  serial = 4;
  world = record new_rig { packet = 3 ∷ 0x22 ∷ []; loaded = true };
}

loads :
    load_bitstream (rig_device 512) 2 good_resource (record { serial = 1; world = new_rig })
    ≡ some (ok tt, loaded_manager)
unfolding load_bitstream load_anew ◌>>=◌ pure step call_device upload is_loaded wait_loaded
    wait_round all_zero fpga_status status_id finish_fpga_load load_loop load_round command exchange
    send_packet receive_response check_response next_serial
loads = refl

load_bitstream-SawLoaded_example : SawLoaded (rig_device 512) good_id loaded_manager
load_bitstream-SawLoaded_example =
    load_bitstream-SawLoaded (rig_device 512) 2 good_resource
      (record { serial = 1; world = new_rig }) loaded_manager loads

abbrev rig_setting : ℕ → Rig → ℕ
rig_setting interface w = if interface == 2 then w.rx_setting else w.tx_setting

rig_laws : AlternateLaws (rig_device 64)
rig_laws = record {
  alternate = rig_setting;
  set_ok = λ i a w w' e. elim (Bool-cases (i == 2)) [
    | inl t ↦ ground (arith, e, t)
    | inr t ↦ ground (arith, e, t)
  ];
  set_only = λ i a j w. ground arith;
  claim_keeps = λ i j w. refl;
}

abbrev mismatched : Management Rig
mismatched = record { serial = 1; world = new_rig }

sets_up_in_vain :
    open_pipes (rig_device 64) good_manifest 115200 mismatched
    ≡ some (err (protocol "Glasgow UART endpoint max-packet mismatch"), mismatched)
unfolding open_pipes set_up enable_pipes open_endpoints drop_guard reset_interface ◌>>=◌ give
    managed note call_device
sets_up_in_vain = refl

open_pipes-IsReset_example :
    IsReset (rig_device 64) rig_laws good_manifest.pipe.rx good_manifest.pipe.tx 2 new_rig
    × IsReset (rig_device 64) rig_laws good_manifest.pipe.rx good_manifest.pipe.tx 3 new_rig
unfolding rig_laws
open_pipes-IsReset_example =
    open_pipes-IsReset (rig_device 64) rig_laws good_manifest 115200 mismatched mismatched
      (protocol "Glasgow UART endpoint max-packet mismatch") refl refl sets_up_in_vain
