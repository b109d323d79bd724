-- ===== src/Net/Header.antt =====
-- `XenNet_BuildHeader`: the header of a packet made longer, out of the buffers of the packet.
use win_pvdrivers_mirror.Net.{Mdl, Cursor, Frame}
use win_pvdrivers_mirror.Base.{
  ℕ, zero, suc, ◌+◌, ◌-◌, ◌%◌, ◌^◌, min, Bool, true, false, Option, none, some, List, [], ◌∷◌, ltb,
  leb, ◌==◌, if◌then◌else◌, length, take, drop, get_or, ◌>>=◌, ◌>>◌, xn_assert,
}

abbrev pub page_size : ℕ
page_size = 4096

-- `memcpy` to the offset `start` of a buffer.
unfoldable pub write_bytes : (ℕ → ℕ) → (start : ℕ) → List ℕ → ℕ → ℕ
write_bytes buf start xs i = if ltb i start then buf i else get_or xs (i - start) (buf i)

-- `NdisGetNextMdl`, and the next shared buffer with it.
abbrev pub next_mdl : Cursor → Cursor
next_mdl c = record c { mdls = drop 1 c.mdls; pbs = drop 1 c.pbs; offset = 0 }

-- The bytes that one round takes of its buffer, and the copy.
abbrev pub copy_size : Mdl → (remaining : ℕ) → Cursor → ℕ
copy_size m remaining c = min remaining (length m.bytes - c.offset)

abbrev pub copy_mdl : Mdl → (size : ℕ) → Cursor → Cursor
copy_mdl m size c = record c {
  header = write_bytes c.header c.header_length (take size (drop c.offset m.bytes));
  offset = (c.offset + size) % 2 ^ 16;
  header_length = c.header_length + size;
}

-- The end of a round: past the buffer that is used up.
abbrev pub step_past : Mdl → Cursor → Cursor
step_past m c = if c.offset == length m.bytes then next_mdl c else c

-- One round of the loop on the buffer `m`; `none` when it is not mapped.
unfoldable pub copy_round : Mdl → (remaining : ℕ) → Cursor → Option Cursor
copy_round m remaining c =
    if length m.bytes == 0
    then some (step_past m c)
    else (if m.mapped then some (step_past m (copy_mdl m (copy_size m remaining c) c)) else none)

-- What follows a round: `FALSE` at once, or the next round.
unfoldable pub go_on :
    (ℕ → Cursor → Option (Bool × Cursor)) → ℕ → Cursor → Option Cursor → Option (Bool × Cursor)
go_on rest remaining c none = some (false, c)
go_on rest remaining c (some d) = rest remaining d

-- The loop's body: it ends when nothing remains or there is no buffer.
unfoldable pub loop_body :
    (ℕ → Cursor → Option (Bool × Cursor)) → List Mdl → ℕ → Cursor → Option (Bool × Cursor)
loop_body rest [] remaining c = some (remaining == 0, c)
loop_body rest (m ∷ ms) remaining c =
    if remaining == 0
    then some (true, c)
    else go_on rest (remaining - copy_size m remaining c) c (copy_round m remaining c)

-- The `while` loop, on fuel.
unfoldable pub copy_loop : (fuel remaining : ℕ) → Cursor → Option (Bool × Cursor)
copy_loop zero remaining c = none
copy_loop (suc fuel) remaining c = loop_body (copy_loop fuel) c.mdls remaining c

-- The header is the first buffer, which holds what is asked for.
abbrev pub expand : Frame → (size : ℕ) → Cursor → Cursor
expand fr size c =
    if size == fr.first_mdl_length
    then next_mdl (record c { header_length = size })
    else record c { header_length = size; offset = size % 2 ^ 16 }

unfoldable pub expand_first : Frame → (size : ℕ) → Cursor → Option Cursor
expand_first fr size c =
    if fr.in_place
    then xn_assert (leb size page_size)
      >> some (if leb size fr.first_mdl_length then expand fr size c else c)
    else some c

abbrev pub gather : (size : ℕ) → Cursor → Option (Bool × Cursor)
gather size c = copy_loop (suc (length c.mdls)) (size - c.header_length) c

-- `XenNet_BuildHeader` with the header that the packet has. The lengths stay below `total_length`,
-- so that their sums do not wrap.
unfoldable pub build_header : Frame → Cursor → (new_header_size : ℕ) → Option (Bool × Cursor)
build_header fr c new_header_size =
    let size = min new_header_size fr.total_length in
    if leb size c.header_length then some (true, c) else (expand_first fr size c >>= gather size)
