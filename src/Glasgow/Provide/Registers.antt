-- ===== src/Glasgow/Provide/Registers.antt =====
-- What an opened Glasgow transport knows of its registers (src/uart/glasgow/transport.rs): the tool
-- does not panic over them.
use glasgow_tool.Prelude.{ℕ, ◌≡◌, sym, subst, inl, inr, String, some, List, arith, Option-cases}
use glasgow_tool.Error.{ok, Result-cases}
use glasgow_tool.Act.{give}
use glasgow_tool.Act.Keeps.{bind_ok}
use glasgow_tool.Transport.{TransferOutcome}
use glasgow_tool.Glasgow.Management.{Management}
use glasgow_tool.Glasgow.Resource.{validate_resource_data}
use glasgow_tool.Glasgow.Resource.Accepted.{
  IsUsableRegister, IsUsable, validate_resource_data-IsUsable,
}
use glasgow_tool.Glasgow.Transport.{GlasgowHost, GlasgowTransport, State, glasgow_read}
use glasgow_tool.Glasgow.Transport.Reads.{glasgow_read_returns}
use glasgow_tool.Glasgow.Open.{ValidatedResource, Configured}
use glasgow_tool.Glasgow.Device.{DeviceInfo}
use glasgow_tool.Glasgow.Provide.{
  Provider, OpenOptions, for_revision, validate_resource, transport_now, open_board, glasgow_open,
  open_port,
}

module _ {W : Type 0} (provider : Provider W) where
  validate_resource-IsUsable :
      (revision : String) (resource : ValidatedResource)
      → validate_resource provider revision ≡ ok resource
      → IsUsable provider.digest revision resource.bitstream resource.manifest resource.bitstream_id
  unfolding validate_resource
  validate_resource-IsUsable revision resource e =
      elim (Option-cases (for_revision provider.resources revision)) [
        | inl f ↦ absurd (ground (arith, e, f))
        | inr (embedded, f) ↦
            elim (Result-cases (
              validate_resource_data provider.parse provider.digest revision embedded.manifest
                embedded.bitstream)) [
                  | inl (x, v) ↦ absurd (ground (arith, e, f, v))
                  | inr ((manifest, id), v) ↦
                      let used =
                        validate_resource_data-IsUsable provider.parse provider.digest revision
                          embedded.manifest embedded.bitstream id manifest v in
                      let same : record {
                        manifest = manifest;
                        bitstream = embedded.bitstream;
                        bitstream_id = id;
                      }
                          ≡ resource =
                        ground (arith, e, f, v) in
                      subst
                        (λ r.
                          IsUsable provider.digest revision r.bitstream r.manifest r.bitstream_id)
                        same used.1
                ]
      ]

  -- The three registers that a running transport reads.
  abbrev pub HasUsableRegisters : GlasgowTransport → Type 0
  HasUsableRegisters glasgow =
      IsUsableRegister glasgow.rx_errors_register
      × IsUsableRegister glasgow.rx_overflow_register
      × IsUsableRegister glasgow.tx_state_register

  transport_now_registers :
      (board : DeviceInfo) (resource : ValidatedResource) (baud : ℕ)
      (configured : Configured provider.device × ℕ) (w w' : W) (glasgow : GlasgowTransport)
      (serial : ℕ)
      → transport_now provider board resource baud configured w ≡ some (ok (glasgow, serial), w')
      → (glasgow.rx_errors_register ≡ resource.manifest.registers.rx_errors)
        × (glasgow.rx_overflow_register ≡ resource.manifest.registers.rx_overflow)
        × (glasgow.tx_state_register ≡ resource.manifest.registers.tx_state)
  unfolding transport_now
  transport_now_registers board resource baud configured w w' glasgow serial e = ground (arith, e)

  usable_from :
      (resource : ValidatedResource) (revision : String) (glasgow : GlasgowTransport)
      → IsUsable provider.digest revision resource.bitstream resource.manifest resource.bitstream_id
      → (glasgow.rx_errors_register ≡ resource.manifest.registers.rx_errors)
        × (glasgow.rx_overflow_register ≡ resource.manifest.registers.rx_overflow)
        × (glasgow.tx_state_register ≡ resource.manifest.registers.tx_state)
      → HasUsableRegisters glasgow
  usable_from resource revision glasgow usable (a, b, c) = (
    subst IsUsableRegister (sym a) usable.rx_errors,
    subst IsUsableRegister (sym b) usable.rx_overflow,
    subst IsUsableRegister (sym c) usable.tx_state,
  )

  glasgow_open-HasUsableRegisters :
      (fuel : ℕ) (selected : DeviceInfo) (baud : ℕ) (w w' : W) (glasgow : GlasgowTransport)
      (serial : ℕ)
      → glasgow_open provider fuel selected baud w ≡ some (ok (glasgow, serial), w')
      → HasUsableRegisters glasgow
  unfolding glasgow_open open_board give
  glasgow_open-HasUsableRegisters fuel selected baud w w' glasgow serial e =
      let (resource, w1, p1, e1) = bind_ok _ _ w w' (glasgow, serial) e in
      let (board, w2, p2, e2) = bind_ok _ _ w1 w' (glasgow, serial) e1 in
      let (a, w3, p3, e3) = bind_ok _ _ w2 w' (glasgow, serial) e2 in
      let (b, w4, p4, e4) = bind_ok _ _ w3 w' (glasgow, serial) e3 in
      let (configured, w5, p5, e5) = bind_ok _ _ w4 w' (glasgow, serial) e4 in
      let usable = validate_resource-IsUsable selected.revision resource (ground (arith, p1)) in
      usable_from resource selected.revision glasgow usable
        (transport_now_registers board resource baud configured w5 w' glasgow serial e5)

  -- A transport that `open` returns never panics when it is read: whatever the host does, each read
  -- gives an outcome, since the registers come from an accepted manifest.
  pub opened_reads_return :
      (fuel : ℕ) (options : OpenOptions) (w w' : W) (glasgow : GlasgowTransport) (serial : ℕ)
      (host : GlasgowHost W) (capacity : ℕ) (m : Management W)
      → open_port provider fuel options w ≡ some (ok (glasgow, serial), w')
      → (out : TransferOutcome × List ℕ × State host) × (glasgow_read host capacity (glasgow, m)
          ≡ some out)
  unfolding open_port
  opened_reads_return fuel options w w' glasgow serial host capacity m e =
      let (devices, w1, p1, e1) = bind_ok _ _ w w' (glasgow, serial) e in
      let (selected, w2, p2, e2) = bind_ok _ _ w1 w' (glasgow, serial) e1 in
      let (errors, overflow, state) =
        glasgow_open-HasUsableRegisters fuel selected options.baud w2 w' glasgow serial e2 in
      glasgow_read_returns host capacity (glasgow, m) errors.four_bytes overflow.four_bytes
