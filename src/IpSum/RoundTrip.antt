-- ===== src/IpSum/RoundTrip.antt =====
-- `XenNet_SumIpHeader` and `XenNet_CheckIpHeaderSum` agree.
use win_pvdrivers_mirror.Base.{
  ℕ, zero, suc, ◌+◌, ◌-◌, ◌*◌, ◌/◌, ◌%◌, ◌^◌, ◌<◌, ◌≤◌, ◌≡◌, ◌≢◌, refl, ap, sym, ◌∙◌, true, some,
  lt→ltb, arith, update, update_ne,
}
use win_pvdrivers_mirror.IpSum.{
  xn_hdr_size, get_net, set_net, sum_words, header_sum, check_ip_header_sum, sum_ip_header,
}
use win_pvdrivers_mirror.IpSum.Fold.{Folded, fold_carries-Folded}

-- Every entry is a byte.
abbrev pub Bytes : (ℕ → ℕ) → Type 0
Bytes header = (j : ℕ) → header j < 256

-- The sum of the words without a bound.
raw_sum : (n off : ℕ) → (ℕ → ℕ) → ℕ
raw_sum zero off header = 0
raw_sum (suc n) off header = get_net header off + raw_sum n (off + 2) header

raw_sum_le : (n off : ℕ) (header : ℕ → ℕ) → Bytes header → raw_sum n off header ≤ 65535 * n
unfolding raw_sum
raw_sum_le zero off header b = omega arith
raw_sum_le (suc n) off header b = omega (arith, b off, b (off + 1), raw_sum_le n (off + 2) header b)

sum_words-raw_sum :
    (n off csum : ℕ) (header : ℕ → ℕ)
    → Bytes header
    → csum + 65535 * n < 2 ^ 32
    → sum_words n off csum header ≡ csum + raw_sum n off header
unfolding sum_words raw_sum
sum_words-raw_sum zero off csum header b h = omega arith
sum_words-raw_sum (suc n) off csum header b h =
    let word = get_net header off in
    let next : (csum + word) % 2 ^ 32 ≡ csum + word = omega (arith, b off, b (off + 1)) in
    ap (λ c. sum_words n (off + 2) c header) next
    ∙ sum_words-raw_sum n (off + 2) (csum + word) header b (omega (arith, b off, b (off + 1)))
    ∙ omega arith

raw_sum-ext :
    (n off : ℕ) (f g : ℕ → ℕ) → ((j : ℕ) → off ≤ j → f j ≡ g j) → raw_sum n off f ≡ raw_sum n off g
unfolding raw_sum
raw_sum-ext zero off f g h = refl
raw_sum-ext (suc n) off f g h = omega (
  arith,
  h off (omega arith),
  h (off + 1) (omega arith),
  raw_sum-ext n (off + 2) f g (λ j k. h j (omega arith)),
)

-- The sum after one word has changed.
raw_sum-change :
    (k n off p : ℕ) (f g : ℕ → ℕ)
    → k < n
    → p ≡ off + 2 * k
    → ((j : ℕ) → j ≢ p → j ≢ p + 1 → f j ≡ g j)
    → raw_sum n off f + get_net g p ≡ raw_sum n off g + get_net f p
unfolding raw_sum
raw_sum-change k zero off p f g h q e = absurd (omega arith)
raw_sum-change zero (suc n) off p f g h q e =
    let here : p ≡ off = omega arith in
    omega (
      arith,
      ap (get_net f) here,
      ap (get_net g) here,
      raw_sum-ext n (off + 2) f g (λ j l. e j (omega arith) (omega arith)),
    )
raw_sum-change (suc k) (suc n) off p f g h q e = omega (
  arith,
  e off (omega arith) (omega arith),
  e (off + 1) (omega arith) (omega arith),
  raw_sum-change k n (off + 2) p f g (omega arith) (omega arith) e,
)

Bytes-update : (f : ℕ → ℕ) (i v : ℕ) → v < 256 → Bytes f → Bytes (update f i v)
Bytes-update f i v h b j = ground (arith, b j)

header_sum-Folded :
    (header : ℕ → ℕ) (len : ℕ)
    → len < 2 ^ 16
    → Bytes header
    → Folded (raw_sum (len / 2) xn_hdr_size header) (header_sum header len)
unfolding header_sum
header_sum-Folded header len h b =
    let total = raw_sum (len / 2) xn_hdr_size header in
    let none_yet : 0 + total ≡ total = omega arith in
    rw (sum_words-raw_sum (len / 2) xn_hdr_size 0 header b (omega arith) ∙ none_yet) (
      fold_carries-Folded (raw_sum (len / 2) xn_hdr_size header)
        (omega (arith, raw_sum_le (len / 2) xn_hdr_size header b)))

-- For a header of bytes whose length is even, more than 12 and less than 2^16, the checksum that
-- `XenNet_SumIpHeader` stores is the one that `XenNet_CheckIpHeaderSum` accepts, whatever stood in its
-- place, and only the two bytes of the checksum change; neither function fails an assertion.
pub sum-check :
    (header : ℕ → ℕ) (len : ℕ)
    → Bytes header
    → 12 < len
    → len % 2 ≡ 0
    → len < 2 ^ 16
    → (out : ℕ → ℕ) × (sum_ip_header header len ≡ some out)
      × (check_ip_header_sum out len ≡ some true)
      × ((j : ℕ) → j ≢ xn_hdr_size + 10 → j ≢ xn_hdr_size + 11 → out j ≡ header j)
unfolding sum_ip_header check_ip_header_sum
sum-check header len b long even short =
    let cleared = update (update header 24 0) 25 0 in
    let sum = header_sum cleared len in
    let c = (2 ^ 32 - 1 - sum) % 65536 in
    let out = set_net cleared 24 c in
    let b1 : Bytes cleared =
      Bytes-update (update header 24 0) 25 0 (omega arith)
        (Bytes-update header 24 0 (omega arith) b) in
    let b2 : Bytes out =
      Bytes-update (update cleared 24 (c / 256)) 25 (c % 256) (omega arith)
        (Bytes-update cleared 24 (c / 256) (omega arith) b1) in
    let f1 = header_sum-Folded cleared len short b1 in
    let f2 = header_sum-Folded out len short b2 in
    let change =
      raw_sum-change 5 (len / 2) xn_hdr_size 24 cleared out (omega arith) (omega arith)
        (λ j l m. sym (untouched cleared (c / 256) (c % 256) j l m)) in
    let before = raw_sum (len / 2) xn_hdr_size cleared in
    let after = raw_sum (len / 2) xn_hdr_size out in
    let small = f1.small in
    let word : after ≡ before + c = omega (arith, change, stored cleared c, cleared_word header) in
    let some_bit : 0 < header_sum out len = f2.positive (omega (arith, f1.carries)) in
    let full : header_sum out len ≡ 65535 = omega (arith, f1.carries, f2.carries, f2.small) in
    (
      out,
      rw (lt→ltb 12 len long, even),
      rw (lt→ltb 12 len long, even, full),
      λ j l m. untouched cleared (c / 256) (c % 256) j l m ∙ untouched header 0 0 j l m,
    )
  where
    untouched : (f : ℕ → ℕ) (x y j : ℕ) → j ≢ 24 → j ≢ 25 → update (update f 24 x) 25 y j ≡ f j
    untouched f x y j l m =
        update_ne (update f 24 x) {i = 25} {j = j} y (λ e. m (sym e))
        ∙ update_ne f {i = 24} {j = j} x (λ e. l (sym e))

    stored : (f : ℕ → ℕ) (c : ℕ) → get_net (set_net f 24 c) 24 ≡ c
    stored f c = omega arith

    cleared_word : (f : ℕ → ℕ) → get_net (update (update f 24 0) 25 0) 24 ≡ 0
    cleared_word f = omega arith
