-- ===== src/Net/Gather.antt =====
-- The loop of `XenNet_BuildHeader` copies the packet's next bytes behind the header.
use win_pvdrivers_mirror.Net.{Mdl, Cursor}
use win_pvdrivers_mirror.Net.Header.{write_bytes, next_mdl, copy_mdl}
use win_pvdrivers_mirror.Base.{
  ℕ, ◌+◌, ◌-◌, ◌%◌, ◌^◌, ◌≤◌, ◌<◌, ◌≡◌, refl, ap, sym, ◌∙◌, inl, inr, true, List, [], ◌∷◌, ◌++◌,
  ltb, lt→ltb, le→ltb, length, take, drop, get_or, All, Bool-cases, drop-drop, drop-append,
  get_or-drop, get_or-take, get_or-append_before, length_ge, arith,
}

-- The bytes of the buffers, one after the other.
abbrev pub chain : List Mdl → List ℕ
chain [] = []
chain (m ∷ ms) = m.bytes ++ chain ms

-- A buffer is shorter than a USHORT counts; it is mapped.
abbrev pub Short : Mdl → Type 0
Short m = length m.bytes < 65536

abbrev pub Mapped : Mdl → Type 0
Mapped m = m.mapped ≡ true

abbrev pub Fits : ℕ → List Mdl → Type 0
Fits offset [] = Unit
Fits offset (m ∷ ms) = (offset ≤ length m.bytes) × All Short (m ∷ ms)

-- The packet `packet` is cut in two: its beginning is the header, the rest is in the buffers.
pub record IsCut (packet : List ℕ) (c : Cursor) : Type 0 where
  pub within : c.header_length ≤ length packet
  pub read : (i : ℕ) → i < c.header_length → c.header i ≡ get_or packet i 0
  pub rest : drop c.offset (chain c.mdls) ≡ drop c.header_length packet
  pub fits : Fits c.offset c.mdls

abbrev pub at : List Mdl → (offset : ℕ) → List ℕ → (header_length : ℕ) → (ℕ → ℕ) → Cursor
at ms o pbs hl h = record { mdls = ms; offset = o; pbs = pbs; header_length = hl; header = h }

write_bytes_before :
    (h : ℕ → ℕ) (start : ℕ) (xs : List ℕ) (i : ℕ) → i < start → write_bytes h start xs i ≡ h i
unfolding write_bytes
write_bytes_before h start xs i l = rw (lt→ltb i start l)

write_bytes_behind :
    (h : ℕ → ℕ) (start : ℕ) (xs : List ℕ) (i : ℕ)
    → start ≤ i
    → write_bytes h start xs i ≡ get_or xs (i - start) (h i)
unfolding write_bytes
write_bytes_behind h start xs i l = rw (le→ltb i start l)

-- What a copy of `k` bytes keeps.
pub copy_mdl-IsCut :
    (packet : List ℕ) (m : Mdl) (ms : List Mdl) (o : ℕ) (pbs : List ℕ) (hl : ℕ) (h : ℕ → ℕ) (k : ℕ)
    → IsCut packet (at (m ∷ ms) o pbs hl h)
    → k ≤ length m.bytes - o
    → IsCut packet (copy_mdl m k (at (m ∷ ms) o pbs hl h))
copy_mdl-IsCut packet m ms o pbs hl h k c fit = record {
  within = omega (arith, room, fit);
  read = reads;
  rest =
      ap (λ n. drop n (chain (m ∷ ms))) no_wrap
      ∙ sym (drop-drop k o (chain (m ∷ ms)) refl)
      ∙ ap (drop k) c.rest
      ∙ drop-drop k hl packet refl;
  fits = (omega (arith, no_wrap, fit, c.fits.0), c.fits.1);
}
  where
    room : hl + (length m.bytes - o) ≤ length packet
    room = length_ge packet m.bytes (chain ms) o hl c.fits.0 c.within c.rest

    no_wrap : (o + k) % 2 ^ 16 ≡ o + k
    no_wrap = omega (arith, c.fits.0, c.fits.1.0, fit)

    new :
        (i : ℕ)
        → hl ≤ i
        → i < hl + k
        → get_or (take k (drop o m.bytes)) (i - hl) (h i) ≡ get_or packet i 0
    new i a b =
        get_or-take k (i - hl) (drop o m.bytes) (h i) (omega arith)
        ∙ get_or-drop o (i - hl) m.bytes (h i) refl
        ∙ sym (
            get_or-append_before m.bytes (chain ms) (o + (i - hl)) 0 (h i)
              (omega (arith, c.fits.0)))
        ∙ sym (get_or-drop o (i - hl) (chain (m ∷ ms)) 0 refl)
        ∙ ap (λ xs. get_or xs (i - hl) 0) c.rest
        ∙ get_or-drop hl (i - hl) packet 0 (omega arith)

    reads : (i : ℕ) → i < hl + k → write_bytes h hl (take k (drop o m.bytes)) i ≡ get_or packet i 0
    reads i l = elim (Bool-cases (ltb i hl)) [
      | inl before ↦ write_bytes_before h hl _ i (ground arith) ∙ c.read i (ground arith)
      | inr behind ↦ write_bytes_behind h hl _ i (ground arith) ∙ new i (ground arith) l
    ]

-- A buffer that is used up is left.
pub next_mdl-IsCut :
    (packet : List ℕ) (m : Mdl) (ms : List Mdl) (o : ℕ) (pbs : List ℕ) (hl : ℕ) (h : ℕ → ℕ)
    → o ≡ length m.bytes
    → IsCut packet (at (m ∷ ms) o pbs hl h)
    → IsCut packet (next_mdl (at (m ∷ ms) o pbs hl h))
next_mdl-IsCut packet m ms o pbs hl h e c = record {
  within = c.within;
  read = c.read;
  rest = sym (drop-append m.bytes (chain ms)) ∙ ap (λ j. drop j (chain (m ∷ ms))) (sym e) ∙ c.rest;
  fits = fits_at ms c.fits.1.1;
}
  where
    fits_at : (ms : List Mdl) → All Short ms → Fits 0 ms
    fits_at [] a = tt
    fits_at (m ∷ ms) a = (omega arith, a)
