-- ===== src/Net/Mac.antt =====
-- The loop of `XenNet_Connect` that reads the MAC address the backend gives as text.
use win_pvdrivers_mirror.Base.{
  ℕ, suc, ◌+◌, ◌-◌, ◌*◌, ◌<◌, ◌≤◌, ◌≡◌, ◌⊎◌, ◌&&◌, bit_or, bit_and, Option, none, some, List, [],
  ◌∷◌, leb, ◌==◌, if◌then◌else◌, update,
}

-- The variables of the loop: `state`, `octet` and `perm_mac_addr`.
pub record MacScan : Type 0 where
  pub state : ℕ
  pub octet : ℕ
  pub addr : ℕ → ℕ

-- The value of a hexadecimal digit, of either case.
unfoldable pub hex_value : ℕ → Option ℕ
hex_value c =
    if leb 48 c && leb c 57
    then some (c - 48)
    else (if leb 65 c && leb c 70
        then some (c - 65 + 10)
        else (if leb 97 c && leb c 102 then some (c - 97 + 10) else none))

-- A digit of the octet: the high one in the state 0, the low one in the state 1.
abbrev pub note_digit : (ℕ → ℕ) → (octet factor value : ℕ) → ℕ → ℕ
note_digit addr octet factor value = update addr octet (bit_or (addr octet) (value * factor))

abbrev pub fail_scan : MacScan → MacScan
fail_scan s = record s { state = 3 }

unfoldable pub digit_step : Option ℕ → MacScan → MacScan
digit_step none s = fail_scan s
digit_step (some v) s = record s {
  addr = note_digit s.addr s.octet (if s.state == 0 then 16 else 1) v;
  state = s.state + 1;
}

-- One round for the character `c`.
unfoldable pub mac_step : ℕ → MacScan → MacScan
mac_step c s =
    if s.octet == 6
    then fail_scan s
    else (if s.state == 2
        then (if c == 58 then record s { octet = s.octet + 1; state = 0 } else fail_scan s)
        else digit_step (hex_value c) s)

-- The loop, which ends in the state 3.
unfoldable pub mac_loop : List ℕ → MacScan → MacScan
mac_loop [] s = s
mac_loop (c ∷ cs) s = let rest = mac_loop cs (mac_step c s) in if s.state == 3 then s else rest

-- The address that the adapter has from now on: its own, where that is locally administered.
abbrev pub pick_addr : (curr perm : ℕ → ℕ) → ℕ → ℕ
pick_addr curr perm = if bit_and (curr 0) 3 == 2 then curr else perm

-- The reading of the text, and the addresses after it; `none` is `STATUS_UNSUCCESSFUL`.
unfoldable pub read_mac : List ℕ → (curr perm : ℕ → ℕ) → Option ((ℕ → ℕ) × (ℕ → ℕ))
read_mac text curr perm =
    let s = mac_loop text (record { state = 0; octet = 0; addr = perm }) in
    if (s.octet == 5) && (s.state == 2) then some (s.addr, pick_addr curr s.addr) else none

-- The character `c` is the hexadecimal digit of value `v`: 0 to 9, A to F or a to f.
abbrev pub IsHex : (c v : ℕ) → Type 0
IsHex c v =
    ((48 ≤ c) × (c ≤ 57) × (c ≡ v + 48))
    ⊎ (((65 ≤ c) × (c ≤ 70) × (c ≡ v + 55)) ⊎ ((97 ≤ c) × (c ≤ 102) × (c ≡ v + 87)))

-- The bits of the digits `x` and `y` are set in the octet `k`.
unfoldable pub with_octet : (addr : ℕ → ℕ) → (k x y : ℕ) → ℕ → ℕ
with_octet addr k x y i = if k == i then bit_or (bit_or (addr i) (x * 16)) y else addr i

-- The text of the octets from `k` to 5 and what they leave of the address: two digits for each, with
-- a colon between two octets.
pub data MacText : (k : ℕ) → List ℕ → (before after : ℕ → ℕ) → Type 0 where
  last_octet :
      {a b : ℕ} (x y : ℕ) {addr : ℕ → ℕ}
      → IsHex a x
      → IsHex b y
      → MacText 5 (a ∷ b ∷ []) addr (with_octet addr 5 x y)
  octet_colon :
      {k a b : ℕ} (x y : ℕ) {cs : List ℕ} {addr after : ℕ → ℕ}
      → k < 5
      → IsHex a x
      → IsHex b y
      → MacText (suc k) cs (with_octet addr k x y) after
      → MacText k (a ∷ b ∷ 58 ∷ cs) addr after
