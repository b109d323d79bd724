-- ===== src/Vbd/Cdb.antt =====
-- The command descriptor blocks of reads and writes, `decode_cdb_length`, `decode_cdb_sector` and
-- `decode_cdb_is_read` of xenvbd_common/common_miniport.h.
use win_pvdrivers_mirror.Base.{
  ℕ, zero, suc, ◌+◌, ◌*◌, ◌/◌, ◌%◌, ◌^◌, ◌<◌, ◌≡◌, refl, Bool, true, false, ◌||◌, [], ◌∷◌, ◌==◌,
  if◌then◌else◌, get_or, arith,
}

-- `SCSIOP_READ`, `SCSIOP_WRITE`, `SCSIOP_READ16` and `SCSIOP_WRITE16`
abbrev pub scsiop_read : ℕ
scsiop_read = 0x28

abbrev pub scsiop_write : ℕ
scsiop_write = 0x2a

abbrev pub scsiop_read16 : ℕ
scsiop_read16 = 0x88

abbrev pub scsiop_write16 : ℕ
scsiop_write16 = 0x8a

abbrev pub is_rw10 : ℕ → Bool
is_rw10 op = (op == scsiop_read) || (op == scsiop_write)

abbrev pub is_rw16 : ℕ → Bool
is_rw16 op = (op == scsiop_read16) || (op == scsiop_write16)

-- `n` bytes of a CDB from `i` on, the high byte first: the shifted bytes share no bit, so that `|` adds.
unfoldable pub big_endian : (n i : ℕ) → (ℕ → ℕ) → ℕ → ℕ
big_endian zero i cdb acc = acc
big_endian (suc n) i cdb acc = big_endian n (suc i) cdb (acc * 256 + cdb i)

-- `decode_cdb_length`
unfoldable pub decode_cdb_length : (ℕ → ℕ) → ℕ
decode_cdb_length cdb =
    if is_rw10 (cdb 0)
    then big_endian 2 7 cdb 0
    else if is_rw16 (cdb 0)
    then big_endian 4 10 cdb 0
    else 0

-- `decode_cdb_sector`
unfoldable pub decode_cdb_sector : (ℕ → ℕ) → ℕ
decode_cdb_sector cdb =
    if is_rw10 (cdb 0)
    then big_endian 4 2 cdb 0
    else if is_rw16 (cdb 0)
    then big_endian 8 2 cdb 0
    else 0

-- `decode_cdb_is_read`
unfoldable pub decode_cdb_is_read : (ℕ → ℕ) → Bool
decode_cdb_is_read cdb = (cdb 0 == scsiop_read) || (cdb 0 == scsiop_read16)

-- The 10-byte and the 16-byte block of the SCSI standard for a read or write of `count` blocks from
-- `lba` on, each number with its high byte first.
abbrev pub byte : (n k : ℕ) → ℕ
byte n k = n / 256 ^ k % 256

abbrev pub rw10 : (op lba count : ℕ) → ℕ → ℕ
rw10 op lba count i =
    get_or
      (op
        ∷ 0
        ∷ byte lba 3
        ∷ byte lba 2
        ∷ byte lba 1
        ∷ byte lba 0
        ∷ 0
        ∷ byte count 1
        ∷ byte count 0
        ∷ 0
        ∷ [])
      i 0

abbrev pub rw16 : (op lba count : ℕ) → ℕ → ℕ
rw16 op lba count i =
    get_or
      (op
        ∷ 0
        ∷ byte lba 7
        ∷ byte lba 6
        ∷ byte lba 5
        ∷ byte lba 4
        ∷ byte lba 3
        ∷ byte lba 2
        ∷ byte lba 1
        ∷ byte lba 0
        ∷ byte count 3
        ∷ byte count 2
        ∷ byte count 1
        ∷ byte count 0
        ∷ 0
        ∷ 0
        ∷ [])
      i 0

-- A number below 256 ^ n is the sum of its n bytes.
big_endian-pair : (n : ℕ) → n < 256 ^ 2 → (0 * 256 + byte n 1) * 256 + byte n 0 ≡ n
big_endian-pair n b = omega arith

big_endian-word :
    (n : ℕ)
    → n < 256 ^ 4
    → (((0 * 256 + byte n 3) * 256 + byte n 2) * 256 + byte n 1) * 256 + byte n 0 ≡ n
big_endian-word n b = omega arith

big_endian-long :
    (n : ℕ)
    → n < 256 ^ 8
    → (((((((0 * 256 + byte n 7) * 256 + byte n 6) * 256 + byte n 5) * 256 + byte n 4) * 256
                    + byte n 3)
                  * 256
                + byte n 2)
              * 256
            + byte n 1)
          * 256
        + byte n 0
      ≡ n
big_endian-long n b = omega arith

-- What a block says: the first sector, the number of sectors and the direction.
abbrev pub Decodes : (ℕ → ℕ) → (lba count : ℕ) → (read : Bool) → Type 0
Decodes cdb lba count read =
    (decode_cdb_sector cdb ≡ lba)
    × (decode_cdb_length cdb ≡ count)
    × (decode_cdb_is_read cdb ≡ read)

-- The decoders read the start, the length and the direction back from a 10-byte block for any 32-bit
-- start and 16-bit length, and from a 16-byte block for any 64-bit start and 32-bit length.
pub decode_cdb-rw :
    (lba count : ℕ) (read : Bool)
    → (lba < 2 ^ 32
        → count < 2 ^ 16
        → Decodes (rw10 (if read then scsiop_read else scsiop_write) lba count) lba count read)
      × (lba < 2 ^ 64
          → count < 2 ^ 32
          → Decodes
              (rw16 (if read then scsiop_read16 else scsiop_write16) lba count)
              lba
              count
              read)
unfolding decode_cdb_sector decode_cdb_length decode_cdb_is_read big_endian
decode_cdb-rw lba count true = (
  λ l c. (big_endian-word lba l, big_endian-pair count c, refl),
  λ l c. (big_endian-long lba l, big_endian-word count c, refl),
)
decode_cdb-rw lba count false = (
  λ l c. (big_endian-word lba l, big_endian-pair count c, refl),
  λ l c. (big_endian-long lba l, big_endian-word count c, refl),
)
