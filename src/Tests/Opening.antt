-- ===== src/Tests/Opening.antt =====
-- The cable opened over USB (src/uart/c232/usb.rs, src/uart/c232/mod.rs): a claim that fails, and a
-- port that opens.
use glasgow_tool.Prelude.{refl, Bool, true, false, none, some, String, List, [], ◌∷◌, arith}
use glasgow_tool.Error.{Result, ok, err}
use glasgow_tool.C232.Devices.{ftdi_vid, ftdi_pid, product_name}
use glasgow_tool.C232.Usb.{UsbTransport}
use glasgow_tool.C232.Discovery.{UsbInfo, InterfaceDescriptor}
use glasgow_tool.C232.Open.{UsbBus, usb_open, list_devices, control_out, new_rx, opened}
use glasgow_tool.C232.Open.Driver.{DriverLaws, GivenBack, usb_open-GivenBack}
use glasgow_tool.C232.Port.{Machine, OpenOptions, usb}
use glasgow_tool.Tests.Cables.{line_host, small_system, Line}

abbrev cable_info : UsbInfo
cable_info = record {
  vendor_id = ftdi_vid;
  product_id = ftdi_pid;
  product_string = some product_name;
  serial_number = some "FT1";
  bus_id = "1";
}

abbrev cable_interfaces : List InterfaceDescriptor
cable_interfaces =
    record {
      interface_number = 0;
      alt_settings =
          record {
            alternate_setting = 0;
            endpoints =
                record { is_bulk = true; is_in = true; address = 0x81; max_packet_size = 512 }
                ∷ record { is_bulk = true; is_in = false; address = 0x02; max_packet_size = 512 }
                ∷ [];
          }
          ∷ [];
    }
    ∷ []

-- A bus whose world is whether the driver is attached, and more.
abbrev bus_on : (W : Type 0) → (Bool → W → W) → Result String Unit → UsbBus W
bus_on W set_driver claimed = record {
  is_linux = true;
  list_devices = λ w. (ok (cable_info ∷ []), w);
  open_device = λ device w. (ok tt, w);
  configurations = λ w. cable_interfaces ∷ [];
  detach_kernel_driver = λ w. (ok tt, set_driver false w);
  attach_kernel_driver = λ w. (ok tt, set_driver true w);
  claim_interface = λ w. (claimed, w);
  control_out = λ request value index w. (ok tt, w);
  in_endpoint = λ address w. (ok tt, w);
  out_endpoint = λ address w. (ok tt, w);
  pending_in = λ w. 8;
  submit_in = λ w. w;
  cancel_in = λ w. w;
  complete_in = λ w. (false, w);
  pending_out = λ w. 0;
  cancel_out = λ w. w;
  complete_out = λ w. (false, w);
  release_interface = λ w. w;
  sleep = λ n w. w;
}

abbrev busy_bus : UsbBus Bool
busy_bus = bus_on Bool (λ b w. b) (err "busy")

driver_laws : DriverLaws busy_bus
driver_laws = record {
  attached = λ w. w;
  attach_ok = λ w w' e. ground (arith, e);
  detach_ok = λ w w' e. ground (arith, e);
  detach_err = λ w w' x e. cc;
  keeps-list_devices = record { at = λ w. refl };
  keeps-open_device = λ d. record { at = λ w. refl };
  keeps-claim_interface = record { at = λ w. refl };
  keeps-control_out = λ r v i. record { at = λ w. refl };
  keeps-in_endpoint = λ a. record { at = λ w. refl };
  keeps-out_endpoint = λ a. record { at = λ w. refl };
  keeps-submit_in = λ w. refl;
}

usb_open-GivenBack_example :
    GivenBack busy_bus driver_laws (usb_open busy_bus (some "FT1") 115200 true)
unfolding driver_laws
usb_open-GivenBack_example = usb_open-GivenBack busy_bus driver_laws (some "FT1") 115200 true refl

abbrev desk : Machine Line
desk = record {
  system = small_system;
  available_ports = λ w. (ok [], w);
  serial = line_host;
  bus = bus_on Line (λ b w. w) (ok tt);
}

abbrev usb_options : OpenOptions
usb_options = record { backend = usb; serial = some "FT1"; port = none; baud = 115200 }

abbrev idle_line : Line
idle_line = record { time = 0; queued = 0 }

abbrev open_transport : UsbTransport
open_transport =
    opened desk.bus (record { serial = "FT1"; path = "1" }) 115200 (new_rx desk.bus 512, 115246)
