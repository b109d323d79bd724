-- ===== src/Vbd/Command/Capacity.antt =====
-- What an initiator reads from the answers of the miniport.
use win_pvdrivers_mirror.Base.{
  ℕ, ◌+◌, ◌-◌, ◌*◌, ◌/◌, ◌^◌, ◌<◌, ◌≡◌, refl, ap, sym, ◌∙◌, min, Bool, true, false, List, ◌++◌,
  length, get_or, ◌==◌, arith, ==_iff,
}
use win_pvdrivers_mirror.Vbd.{big_endian, byte}
use win_pvdrivers_mirror.Vbd.Command.{
  Disk, Answer, read_capacity, read_capacity16, last_sector, sector_word, word_bytes,
}

-- The `n`-byte number that an answer has at offset `i`.
abbrev pub number_at : Answer → (n i : ℕ) → ℕ
number_at a n i = big_endian n i (λ k. get_or a.bytes k 0) 0

word-bytes :
    (n : ℕ) → n < 2 ^ 32 → (((0 + byte n 3) * 256 + byte n 2) * 256 + byte n 1) * 256 + byte n 0 ≡ n
word-bytes n b = omega arith

long-bytes :
    (n : ℕ)
    → n < 2 ^ 64
    → (((((((0 + byte n 7) * 256 + byte n 6) * 256 + byte n 5) * 256 + byte n 4) * 256 + byte n 3)
                  * 256
                + byte n 2)
              * 256
            + byte n 1)
          * 256
        + byte n 0
      ≡ n
long-bytes n b = omega arith

sector_word-reads :
    (fits : Bool) (n : ℕ) (rest : List ℕ)
    → (n / 2 ^ 32 == 0) ≡ fits
    → (big_endian 4 0 (λ k. get_or (sector_word fits n ++ rest) k 0) 0 ≡ min n 0xffffffff)
      × (big_endian 4 4 (λ k. get_or (sector_word fits n ++ rest) k 0) 0
          ≡ big_endian 4 0 (λ k. get_or rest k 0) 0)
      × (length (sector_word fits n ++ rest) ≡ 4 + length rest)
unfolding big_endian
sector_word-reads true n rest e = (word-bytes n small ∙ capped, refl, omega arith)
  where
    small : n < 2 ^ 32
    small = omega (arith, (==_iff (n / 2 ^ 32) 0).0 e)

    capped : n ≡ min n 0xffffffff
    capped = omega (arith, small)
sector_word-reads false n rest e = (capped, refl, omega arith)
  where
    capped : 0xffffffff ≡ min n 0xffffffff
    capped = ground arith

-- For a disk of 1 to 2^64 - 1 sectors, whose sectors have less than 2^32 bytes, READ CAPACITY(16) reports
-- the last sector and READ CAPACITY(10) the same as long as it fits in 32 bits, and 0xffffffff beyond;
-- both report the bytes per sector, and the lengths reported are those of the data.
pub read_capacity-number_at :
    (d : Disk)
    → 0 < d.total_sectors
    → d.total_sectors < 2 ^ 64
    → d.bytes_per_sector < 2 ^ 32
    → (number_at (read_capacity16 d) 8 0 + 1 ≡ d.total_sectors)
      × (number_at (read_capacity d) 4 0 ≡ min (d.total_sectors - 1) 0xffffffff)
      × (number_at (read_capacity16 d) 4 8 ≡ d.bytes_per_sector)
      × (number_at (read_capacity d) 4 4 ≡ d.bytes_per_sector)
      × ((read_capacity16 d).data_transfer_length ≡ length (read_capacity16 d).bytes)
      × ((read_capacity d).data_transfer_length ≡ length (read_capacity d).bytes)
unfolding read_capacity read_capacity16 big_endian
read_capacity-number_at d some_sectors fits sector =
    let n = last_sector d in
    let (first, second, size) =
      sector_word-reads (n / 2 ^ 32 == 0) n (word_bytes d.bytes_per_sector) refl in
    (
      ap (λ k. k + 1) (long-bytes n (omega arith)) ∙ omega arith,
      first ∙ ap (λ k. min k 0xffffffff) (omega arith),
      word-bytes d.bytes_per_sector sector,
      second ∙ word-bytes d.bytes_per_sector sector,
      refl,
      sym size,
    )
