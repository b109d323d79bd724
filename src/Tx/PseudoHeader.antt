-- ===== src/Tx/PseudoHeader.antt =====
-- The checksum of the pseudo header that `XenNet_HWSendPacket` adjusts for large sends.
use win_pvdrivers_mirror.IpSum.{fold_carries}
use win_pvdrivers_mirror.IpSum.Fold.{fold_carries-Folded}
use win_pvdrivers_mirror.Base.{ℕ, ◌+◌, ◌-◌, ◌*◌, ◌%◌, ◌^◌, ◌<◌, ◌≡◌, arith}

-- The checksum field `x` (in the order of the host) of a packet with `len` bytes behind the IPv4
-- header: `~x` is complemented as a ULONG, and what is stored are the low 16 bits of the complement.
unfoldable pub adjust_checksum : (x len : ℕ) → ℕ
adjust_checksum x len =
    let csum = (2 ^ 32 - 1 - x + 2 ^ 32 - len) % 2 ^ 32 in
    (2 ^ 32 - 1 - fold_carries 3 csum) % 2 ^ 16

-- The adjusted checksum of a large send is the ones' complement sum of the old one and the number of
-- bytes behind the IPv4 header: the number is added.
pub adjust_checksum_lem :
    (x len : ℕ) → x < 2 ^ 16 → len < 2 ^ 16 → adjust_checksum x len % 65535 ≡ (x + len) % 65535
unfolding adjust_checksum
adjust_checksum_lem x len lx ll =
    let csum : ℕ = (2 ^ 32 - 1 - x + 2 ^ 32 - len) % 2 ^ 32 in
    let f = fold_carries-Folded csum (omega arith) in
    add_back x len (fold_carries 3 csum) f.quotient lx ll f.small (omega (arith, f.carries))
  where
    add_back :
        (x len m q : ℕ)
        → x < 2 ^ 16
        → len < 2 ^ 16
        → m < 65536
        → 2 ^ 32 - 1 - x - len ≡ m + 65535 * q
        → (2 ^ 32 - 1 - m) % 2 ^ 16 % 65535 ≡ (x + len) % 65535
    add_back x len m q lx ll lm e = omega (arith, e)
