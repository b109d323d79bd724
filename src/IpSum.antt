-- ===== src/IpSum.antt =====
-- The checksum of an IPv4 header in xennet/xennet_common.c. A packet header is its bytes by offset.
-- `none` is a failed assertion.
pub mod Fold
pub mod RoundTrip
mod Tests
use win_pvdrivers_mirror.Base.{
  ℕ, zero, suc, ◌+◌, ◌-◌, ◌*◌, ◌/◌, ◌%◌, ◌^◌, Bool, true, false, Option, none, some, ltb, ◌==◌,
  if◌then◌else◌, update, ◌>>=◌, ◌>>◌, xn_assert,
}

-- `XN_HDR_SIZE`
abbrev pub xn_hdr_size : ℕ
xn_hdr_size = 14

-- `GET_NET_PUSHORT` at an offset
abbrev pub get_net : (ℕ → ℕ) → ℕ → ℕ
get_net header off = header off * 256 + header (off + 1)

-- `SET_NET_USHORT` at an offset
abbrev pub set_net : (ℕ → ℕ) → (off value : ℕ) → ℕ → ℕ
set_net header off value = update (update header off (value / 256)) (off + 1) (value % 256)

-- The loop of both functions: the 16-bit words from `off` on, `n` of them, added to `csum`.
pub sum_words : (n off csum : ℕ) → (ℕ → ℕ) → ℕ
sum_words zero off csum header = csum
sum_words (suc n) off csum header =
    sum_words n (off + 2) ((csum + get_net header off) % 2 ^ 32) header

-- The loop that adds the carries, on fuel.
pub fold_carries : (fuel csum : ℕ) → ℕ
fold_carries zero csum = csum
fold_carries (suc fuel) csum =
    let rest = fold_carries fuel (csum % 65536 + csum / 65536) in
    if ltb csum 65536 then csum else rest

-- The sum of a header of `len` bytes; three rounds are enough for the carries of a 32-bit number.
pub header_sum : (ℕ → ℕ) → (len : ℕ) → ℕ
header_sum header len = fold_carries 3 (sum_words (len / 2) xn_hdr_size 0 header)

-- `XenNet_CheckIpHeaderSum`
pub check_ip_header_sum : (ℕ → ℕ) → (len : ℕ) → Option Bool
check_ip_header_sum header len =
    xn_assert (ltb 12 len) >> (xn_assert (len % 2 == 0) >> some (header_sum header len == 65535))

-- `XenNet_SumIpHeader`
pub sum_ip_header : (ℕ → ℕ) → (len : ℕ) → Option (ℕ → ℕ)
sum_ip_header header len =
    let cleared = update (update header (xn_hdr_size + 10) 0) (xn_hdr_size + 11) 0 in
    let csum = 2 ^ 32 - 1 - header_sum cleared len in
    xn_assert (ltb 12 len)
    >> (xn_assert (len % 2 == 0) >> some (set_net cleared (xn_hdr_size + 10) (csum % 65536)))
