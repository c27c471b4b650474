-- ===== src/Tests/Selecting.antt =====
-- Two boards (src/uart/glasgow/device.rs), of which the serial number names one.
use glasgow_tool.Prelude.{decimal, refl, ◌≡◌, ◌↔◌, true, some, String, [], ◌∷◌}
use glasgow_tool.Error.{ok}
use glasgow_tool.Glasgow.Device.{DeviceInfo, decode_revision, select_device}
use glasgow_tool.Glasgow.Device.Selection.{IsTheOne, select_device_exact}

abbrev board_named : String → DeviceInfo
board_named serial = record {
  serial = some serial;
  vendor_id = 0x20b7;
  product_id = 0x9db1;
  revision = "C3";
  api_level = 9;
  api_compatible = true;
  path = "1";
  native = record {
    vendor_id = 0x20b7;
    product_id = 0x9db1;
    device_version = 0x0933;
    serial_number = some serial;
    bus_id = "1";
  };
}

c3 : decode_revision 0x33 ≡ "C3"
unfolding decode_revision decimal
c3 = refl

select_device_exact_example :
    (select_device (board_named "a" ∷ board_named "b" ∷ []) (some "b") ≡ ok (board_named "b"))
    ↔ IsTheOne (some "b") (board_named "a" ∷ board_named "b" ∷ []) (board_named "b")
select_device_exact_example =
    select_device_exact (board_named "a" ∷ board_named "b" ∷ []) (some "b") (board_named "b")
