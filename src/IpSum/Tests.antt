-- ===== src/IpSum/Tests.antt =====
-- A header of 20 bytes.
use win_pvdrivers_mirror.Base.{ℕ, ◌+◌, ◌≡◌, ◌≢◌, refl, true, some, ◌==◌, if◌then◌else◌, arith}
use win_pvdrivers_mirror.IpSum.{xn_hdr_size, sum_ip_header, check_ip_header_sum}
use win_pvdrivers_mirror.IpSum.RoundTrip.{Bytes, sum-check}

abbrev packet : ℕ → ℕ
packet j = if j == 14 then 69 else if j == 16 then 255 else 200

packet-Bytes : Bytes packet
packet-Bytes j = ground arith

sum-check_example :
    (out : ℕ → ℕ) × (sum_ip_header packet 20 ≡ some out)
    × (check_ip_header_sum out 20 ≡ some true)
    × ((j : ℕ) → j ≢ xn_hdr_size + 10 → j ≢ xn_hdr_size + 11 → out j ≡ packet j)
sum-check_example = sum-check packet 20 packet-Bytes (omega arith) refl (omega arith)
