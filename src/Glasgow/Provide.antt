-- ===== src/Glasgow/Provide.antt =====
-- `glasgow::open` and `GlasgowTransport::open` (src/uart/glasgow/mod.rs, src/uart/glasgow/transport.rs,
-- src/uart/glasgow/management.rs, src/uart/glasgow/resources.rs): from the bus to a transport. The
-- table of resources is a parameter; Build makes it.
pub mod Registers
use text.Mathlib.Text
use glasgow_tool.Prelude.{
  ℕ, Bool, true, false, ◌||◌, not, String, Option, none, some, List, [], ◌∷◌, ◌==◌, if◌then◌else◌,
  ◌+s◌,
}
use glasgow_tool.Error.{Error, access, protocol, Result, ok, err}
use glasgow_tool.Act.{Act, ◌>>=◌, ◌>>◌, pure, fail, give, call}
use glasgow_tool.Transport.{Metadata}
use glasgow_tool.Glasgow.Management.{Management}
use glasgow_tool.Glasgow.Device.{DeviceInfo, select_device, api_level}
use glasgow_tool.Glasgow.Resource.{ResourceManifest, validate_resource_data}
use glasgow_tool.Glasgow.Firmware.{Bus, boards_now, upload_fx2_firmware}
use glasgow_tool.Glasgow.Transport.{GlasgowTransport}
use glasgow_tool.Glasgow.Open.{
  Device, ValidatedResource, mismatch, Configured, load_bitstream, open_pipes,
}

pub record GlasgowResource : Type 0 where
  pub revision : String
  pub bitstream : List ℕ
  pub manifest : List ℕ

unfoldable pub for_revision : List GlasgowResource → String → Option GlasgowResource
for_revision [] revision = none
for_revision (resource ∷ resources) revision =
    let rest = for_revision resources revision in
    if Text.◌==◌ resource.revision revision then some resource else rest

-- `OpenOptions`
pub record OpenOptions : Type 0 where
  pub serial : Option String
  pub baud : ℕ

abbrev pub default_options : OpenOptions
default_options = record { serial = none; baud = 115_200 }

-- The table of resources, the JSON reader, SHA-256, the bus and the open device
pub record Provider (W : Type 0) : Type 0 where
  pub resources : List GlasgowResource
  pub parse : List ℕ → Result String ResourceManifest
  pub digest : List ℕ → String
  pub bus : Bus W
  pub device : Device W

no_serial : Option String → String
no_serial none = "<no serial>"
no_serial (some serial) = serial

module _ {W : Type 0} (provider : Provider W) where
  unfoldable pub validate_resource : String → Result Error ValidatedResource
  validate_resource revision = elim (for_revision provider.resources revision) [
    | none ↦ err (
        protocol ("Glasgow revision " +s revision +s " is unsupported; expected C0, C1, C2, or C3"))
    | some embedded ↦
        elim (validate_resource_data provider.parse provider.digest revision embedded.manifest
          embedded.bitstream) [
            | err error ↦ err error
            | ok (manifest, id) ↦
                ok (record {
                  manifest = manifest;
                  bitstream = embedded.bitstream;
                  bitstream_id = id;
                })
          ]
  ]

  -- A board whose firmware has another interface gets the firmware of the resource.
  unfoldable pub provision : ℕ → DeviceInfo → ValidatedResource → Act W DeviceInfo
  provision fuel selected resource = if selected.api_level == api_level then pure selected else do
    board ← upload_fx2_firmware provider.bus fuel selected resource.manifest.firmware.segments
    give (
        if not (board.api_level == api_level)
          || not (Text.◌==◌ board.revision resource.manifest.revision)
        then err (protocol "Glasgow firmware re-enumerated with incompatible API or revision")
        else ok board)

  -- `Management::claim`, without the manager's first serial number
  unfoldable pub management_claim : Act W Unit
  management_claim = do
    call (λ error. access ("cannot claim Glasgow management interface: " +s error))
        (provider.device.claim_interface 0)
    call (λ error. access ("cannot enable Glasgow management interface: " +s error))
        (provider.device.set_alt_setting 0 1)
    in_packet ← call (mismatch "Glasgow management IN") (provider.device.bulk_in 0 0x81)
    out_packet ← call (mismatch "Glasgow management OUT") (provider.device.bulk_out 0 0x01)
    pure tt

  -- An operation of a new manager, and the manager's serial number after it.
  unfoldable pub with_manager : {A : Type 0} → Act (Management W) A → Act W (A × ℕ)
  with_manager m w = elim (m (record { serial = 1; world = w })) [
    | none ↦ none
    | some (err error, s) ↦ some (err error, s.world)
    | some (ok a, s) ↦ some (ok (a, s.serial), s.world)
  ]

  abbrev pub new_transport :
      DeviceInfo → ValidatedResource → ℕ → Configured provider.device → ℕ → GlasgowTransport
  new_transport selected resource requested_baud configured now = record {
    metadata = record {
      backend = "glasgow";
      serial = selected.serial;
      path = some selected.path;
      requested_baud = requested_baud;
      actual_baud = configured.actual_baud;
      minimum_baud = 9600;
      maximum_baud = 12_000_000;
    };
    rx_errors_register = resource.manifest.registers.rx_errors;
    rx_overflow_register = resource.manifest.registers.rx_overflow;
    tx_state_register = resource.manifest.registers.tx_state;
    rx_errors_baseline = configured.rx_errors_baseline;
    rx_overflow_baseline = configured.rx_overflow_baseline;
    rx_errors = 0;
    rx_overflow = 0;
    last_counter_poll = now;
    cancelled = false;
  }

  -- The bitstream, then the pipes.
  unfoldable pub load_and_set_up :
      ℕ → ValidatedResource → ℕ → Act (Management W) (Configured provider.device)
  load_and_set_up fuel resource requested_baud = do
    load_bitstream provider.device fuel resource
    open_pipes provider.device resource.manifest requested_baud

  -- The last value of `open`: the transport, as of now.
  unfoldable pub transport_now :
      DeviceInfo
      → ValidatedResource
      → ℕ
      → Configured provider.device × ℕ
      → Act W (GlasgowTransport × ℕ)
  transport_now board resource requested_baud (configured, serial) w =
      let (now, w1) = provider.device.link.clock.now w in
      some (ok (new_transport board resource requested_baud configured now, serial), w1)

  -- From a board with the right firmware on.
  unfoldable pub open_board : ℕ → DeviceInfo → ValidatedResource → ℕ → Act W (GlasgowTransport × ℕ)
  unfolding no_serial
  open_board fuel board resource requested_baud = do
    call
        (λ error. access (
          "cannot open Glasgow "
          +s no_serial board.serial
          +s " at "
          +s board.path
          +s ": "
          +s error))
        (provider.bus.open_device board.native)
    management_claim
    configured ← with_manager (load_and_set_up fuel resource requested_baud)
    transport_now board resource requested_baud configured

  -- `GlasgowTransport::open`: the transport, and its manager's serial number
  unfoldable pub glasgow_open : ℕ → DeviceInfo → ℕ → Act W (GlasgowTransport × ℕ)
  glasgow_open fuel selected requested_baud = do
    resource ← give (validate_resource selected.revision)
    board ← provision fuel selected resource
    open_board fuel board resource requested_baud

  -- `open` of the module
  unfoldable pub open_port : ℕ → OpenOptions → Act W (GlasgowTransport × ℕ)
  open_port fuel options = do
    devices ← call (λ error. error) (boards_now provider.bus)
    selected ← give (select_device devices options.serial)
    glasgow_open fuel selected options.baud
