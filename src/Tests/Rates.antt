-- ===== src/Tests/Rates.antt =====
-- Line rates that the tool accepts (src/uart/c232/vcp.rs, src/uart/glasgow/transport.rs).
use glasgow_tool.Prelude.{◌+◌, ◌*◌, ◌/◌, ◌≡◌, ◌≤◌, ◌<◌, refl, arith}
use glasgow_tool.Error.{ok}
use glasgow_tool.Baud.{abs_diff}
use glasgow_tool.C232.Baud.{BaudResult, ftdi_high_speed_baud, encode}
use glasgow_tool.Glasgow.Baud.{baud_divisor}
use glasgow_tool.Glasgow.Baud.Accuracy.{baud_divisor_accurate}

abbrev common_rate : BaudResult
common_rate = record { actual = 115246; divisor_eighths = 833; encoded_divisor = 0x2_c068 }

rate_accepted : baud_divisor 115200 ≡ ok (417, 115107)
unfolding baud_divisor glasgow_tool.Glasgow.Baud.realize glasgow_tool.Glasgow.Baud.divisor_of
rate_accepted = refl

baud_divisor_accurate_example :
    (9600 ≤ 115200)
    × (115200 ≤ 12_000_000)
    × (4 ≤ 417)
    × (417 ≤ 5000)
    × (115107 ≡ 48_000_000 / 417)
    × (417 * 115200 ≤ 48_000_000 + 115200 / 2)
    × (48_000_000 + 115200 / 2 < 417 * 115200 + 115200)
    × (abs_diff 115107 115200 * 10_000 < 201 * 115200)
baud_divisor_accurate_example = baud_divisor_accurate 115200 417 115107 rate_accepted

-- Two rates that are further from the realized ones than 2 %, and are accepted.
abbrev loose_rate : BaudResult
loose_rate = record { actual = 8_000_000; divisor_eighths = 12; encoded_divisor = 0x2_0001 }

loose_rate_accepted : ftdi_high_speed_baud 8_164_000 ≡ ok loose_rate
unfolding ftdi_high_speed_baud glasgow_tool.C232.Baud.choose glasgow_tool.C232.Baud.realize
    glasgow_tool.C232.Baud.divisor_of encode
loose_rate_accepted = refl

loose_divisor_accepted : baud_divisor 4_082_000 ≡ ok (12, 4_000_000)
unfolding baud_divisor glasgow_tool.Glasgow.Baud.realize glasgow_tool.Glasgow.Baud.divisor_of
loose_divisor_accepted = refl

above_two_percent :
    (2 * 8_164_000 < 100 * abs_diff 8_000_000 8_164_000)
    × (2 * 4_082_000 < 100 * abs_diff 4_000_000 4_082_000)
above_two_percent = (omega arith, omega arith)
