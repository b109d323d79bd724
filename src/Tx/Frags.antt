-- ===== src/Tx/Frags.antt =====
-- The fragments of a packet behind its first page: `XenNet_QueryData` and `XenNet_EatData`, and the
-- loops of `XenNet_HWSendPacket` that count the fragments and put them on the ring. `none` is a
-- failed assertion, or a walk past the last buffer.
use win_pvdrivers_mirror.Base.{
  ℕ, zero, suc, ◌+◌, ◌-◌, ◌*◌, ◌/◌, ◌++◌, ◌%◌, ◌^◌, ◌≤◌, ◌<◌, ◌≡◌, min, Option, none, some, List,
  [], ◌∷◌, ltb, leb, ◌==◌, if◌then◌else◌, length, All, ◌>>=◌,
}

-- A buffer: its byte count, the offset of its first byte in its page, and the frames of its pages.
pub record Span : Type 0 where
  pub count : ℕ
  pub byte_offset : ℕ
  pub pfns : ℕ → ℕ

-- `curr_mdl` with the buffers after it, and `curr_mdl_offset`.
pub record Walk : Type 0 where
  pub spans : List Span
  pub offset : ℕ

-- A fragment on the ring, in the frame `pfn`.
pub record Fragment : Type 0 where
  pub pfn : ℕ
  pub offset : ℕ
  pub size : ℕ

-- `LINUX_MAX_SG_ELEMENTS`
abbrev pub linux_max_sg_elements : ℕ
linux_max_sg_elements = 18

-- `XenNet_QueryData`: no more than asked for, than the buffer holds, than is left of the page.
unfoldable pub query_data : Span → (offset asked : ℕ) → ℕ
query_data m offset asked =
    let taken = min asked (m.count - offset) in
    let in_page = (m.byte_offset + offset) % 4096 in
    if ltb 4096 (in_page + taken) then 4096 - in_page else taken

-- `XenNet_EatData`
unfoldable pub eat_data : Span → List Span → (offset eaten : ℕ) → Walk
eat_data m ms offset eaten =
    if leb m.count (offset + eaten)
    then record { spans = ms; offset = offset + eaten - m.count }
    else record { spans = m ∷ ms; offset = offset + eaten }

-- `remaining -= length`, of ULONGs
abbrev pub less_ulong : (remaining size : ℕ) → ℕ
less_ulong remaining size = (remaining + 2 ^ 32 - size) % 2 ^ 32

-- The loop that puts the fragments on the ring, without coalescing (C); an empty buffer is skipped.
abbrev pub add_fragment : Fragment → Option (List Fragment) → Option (List Fragment)
add_fragment f rest = if f.size == 0 then rest else (rest >>= λ fs. some (f ∷ fs))

-- `(ULONG)pfn` for the page of the buffer that `offset` is in, and the offset in that page.
abbrev pub fragment_at : Span → (offset size : ℕ) → Fragment
fragment_at m offset size = record {
  pfn = m.pfns ((m.byte_offset + offset) / 4096) % 2 ^ 32;
  offset = (m.byte_offset + offset) % 4096;
  size = size;
}

unfoldable pub put_round :
    (Walk → ℕ → Option (List Fragment))
    → List Span
    → (offset remaining : ℕ) → Option (List Fragment)
put_round rest [] offset remaining = none
put_round rest (m ∷ ms) offset remaining =
    let size = query_data m offset 4096 in
    add_fragment (fragment_at m offset size)
      (rest (eat_data m ms offset size) (less_ulong remaining size))

unfoldable pub put_fragments : (fuel : ℕ) → Walk → (remaining : ℕ) → Option (List Fragment)
put_fragments zero w remaining = none
put_fragments (suc fuel) w remaining =
    if remaining == 0 then some [] else put_round (put_fragments fuel) w.spans w.offset remaining

-- The loop that counts them first, from `frags` on; it stops when there are too many.
unfoldable pub count_round :
    (Walk → ℕ → ℕ → Option ℕ) → List Span → (offset remaining frags : ℕ) → Option ℕ
count_round rest [] offset remaining frags = none
count_round rest (m ∷ ms) offset remaining frags =
    let size = query_data m offset 4096 in
    let more = if size == 0 then frags else frags + 1 in
    if ltb linux_max_sg_elements more
    then some more
    else rest (eat_data m ms offset size) (less_ulong remaining size) more

unfoldable pub count_fragments : (fuel : ℕ) → Walk → (remaining frags : ℕ) → Option ℕ
count_fragments zero w remaining frags = none
count_fragments (suc fuel) w remaining frags =
    if remaining == 0
    then some frags
    else count_round (count_fragments fuel) w.spans w.offset remaining frags

-- The bytes from the offset on.
abbrev pub bytes_left : List Span → ℕ → ℕ
bytes_left [] offset = 0
bytes_left (m ∷ ms) offset = m.count - offset + bytes_left ms 0

abbrev pub InSpan : List Span → ℕ → Type 0
InSpan [] offset = Unit
InSpan (m ∷ ms) offset = offset ≤ m.count

abbrev pub total_size : List Fragment → ℕ
total_size [] = 0
total_size (f ∷ fs) = f.size + total_size fs

-- The values of `g` at `n` numbers from `i` on.
unfoldable pub run_of : (g : ℕ → ℕ) → (i n : ℕ) → List ℕ
run_of g i zero = []
run_of g i (suc n) = g i ∷ run_of g (suc i) n

-- The physical address of the byte `i` of a buffer, frame numbers having 32 bits.
abbrev pub address_of : Span → ℕ → ℕ
address_of m i = m.pfns ((m.byte_offset + i) / 4096) % 2 ^ 32 * 4096 + (m.byte_offset + i) % 4096

-- The physical addresses of the bytes from the offset on, and of those of fragments.
abbrev pub span_addresses : List Span → ℕ → List ℕ
span_addresses [] offset = []
span_addresses (m ∷ ms) offset =
    run_of (address_of m) offset (m.count - offset) ++ span_addresses ms 0

abbrev pub fragment_addresses : List Fragment → List ℕ
fragment_addresses [] = []
fragment_addresses (f ∷ fs) =
    run_of (λ i. f.pfn * 4096 + i) f.offset f.size ++ fragment_addresses fs

-- A fragment is not empty and lies in one page.
abbrev pub InPage : Fragment → Type 0
InPage f = (0 < f.size) × (f.offset + f.size ≤ 4096)

-- The fragments of the bytes that are left, in order and at their addresses, and their number as the
-- first loop counts it.
pub record Cut (left : List ℕ) (remaining frags : ℕ) (fs : List Fragment) (counted : Option ℕ)
    : Type 0 where
  pub bytes : fragment_addresses fs ≡ left
  pub sum : total_size fs ≡ remaining
  pub in_page : All InPage fs
  pub few : frags + length fs ≤ linux_max_sg_elements → counted ≡ some (frags + length fs)
  pub many : linux_max_sg_elements < frags + length fs → counted ≡ some (linux_max_sg_elements + 1)
