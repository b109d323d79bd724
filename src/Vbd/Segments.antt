-- ===== src/Vbd/Segments.antt =====
-- The loop of `XenVbd_PutSrbOnRing` that cuts a buffer into segments, each within a page.
use win_pvdrivers_mirror.Vbd.Defs.{Host, Segment, seg_bytes, page_size}
use win_pvdrivers_mirror.Base.{
  ℕ, zero, suc, ◌+◌, ◌-◌, ◌*◌, ◌/◌, ◌%◌, ◌^◌, ◌<◌, ◌≤◌, ◌≡◌, ◌≢◌, ◌⊎◌, refl, ap, ap₂, sym, subst,
  ◌∙◌, inl, inr, min, Bool, true, false, Option, none, some, List, [], ◌∷◌, leb, ◌==◌, ==_iff,
  length, Bool-cases, Option-cases, arith, ◌>>=◌, ◌>>◌, xn_assert,
}

-- How the loop over the segments ends: the segments filled, the bytes left, and whether every grant
-- was given.
pub record Filled : Type 0 where
  pub segs : List Segment
  pub left : ℕ
  pub granted : Bool

-- The bytes from `ptr` on that the next segment takes, and the segment.
abbrev pub next_length : Host → (ptr remaining : ℕ) → ℕ
next_length h ptr remaining = min (page_size - h.phys ptr % page_size) remaining

abbrev pub next_segment : Host → (gref ptr length : ℕ) → Segment
next_segment h gref ptr length = record {
  gref = gref;
  pfn = h.phys ptr / page_size % 2 ^ 32;
  first_sect = h.phys ptr % page_size / 512;
  last_sect = (h.phys ptr % page_size + length) / 512 - 1;
}

abbrev pub cons_segment : Segment → Filled → Filled
cons_segment seg rest = record rest { segs = seg ∷ rest.segs }

-- The segment of `length` bytes at `offset` in its page is filled in, and then the rest.
unfoldable pub add_segment : (offset length : ℕ) → Segment → Option Filled → Option Filled
add_segment offset length seg rest =
    xn_assert (offset % 512 == 0)
    >> (xn_assert (length % 512 == 0)
        >> (xn_assert (leb (offset + length) page_size)
            >> (rest >>= λ f. some (cons_segment seg f))))

-- One round: whether nothing remains, and the grant reference for the page.
unfoldable pub fill_next :
    Host → (ptr remaining : ℕ) → (done : Bool) → Option ℕ → Option Filled → Option Filled
fill_next h ptr remaining true gref rest = some (record { segs = []; left = 0; granted = true })
fill_next h ptr remaining false none rest =
    some (record { segs = []; left = remaining; granted = false })
fill_next h ptr remaining false (some gref) rest =
    let length = next_length h ptr remaining in
    add_segment (h.phys ptr % page_size) length (next_segment h gref ptr length) rest

-- The loop of `XenVbd_PutSrbOnRing` over the segments, `k` of which are filled; `slots` are left.
unfoldable pub fill_segments : Host → (slots k ptr remaining : ℕ) → Option Filled
fill_segments h zero k ptr remaining = some (record { segs = []; left = remaining; granted = true })
fill_segments h (suc slots) k ptr remaining =
    let length = next_length h ptr remaining in
    let rest = fill_segments h slots (suc k) (ptr + length) (remaining - length) in
    fill_next h ptr remaining (remaining == 0) (h.grant k) rest

-- The segments hold the memory from `ptr` on, in order and without a gap, each in one page; a frame
-- number has 32 bits, so that a physical address stands for itself below 2^44.
abbrev pub Tiled : (ℕ → ℕ) → ℕ → List Segment → Type 0
Tiled phys ptr [] = Unit
Tiled phys ptr (s ∷ ss) =
    (s.first_sect ≤ s.last_sect)
    × (s.last_sect < 8)
    × (s.pfn * page_size + s.first_sect * 512 ≡ phys ptr % 2 ^ 44)
    × Tiled phys (ptr + seg_bytes s) ss

abbrev pub total_bytes : List Segment → ℕ
total_bytes [] = 0
total_bytes (s ∷ ss) = seg_bytes s + total_bytes ss

-- Physical addresses keep the offset in the page.
abbrev pub KeepsOffset : (ℕ → ℕ) → Type 0
KeepsOffset phys = (p : ℕ) → phys p % page_size ≡ p % page_size

-- The segments have the grant references given from the k-th on.
abbrev pub Given : (ℕ → Option ℕ) → ℕ → List Segment → Type 0
Given grant k [] = Unit
Given grant k (s ∷ ss) = (grant k ≡ some s.gref) × Given grant (suc k) ss

-- What the loop gives for `remaining` bytes.
pub record Cut (h : Host) (slots k ptr remaining : ℕ) (f : Filled) : Type 0 where
  pub tiled : Tiled h.phys ptr f.segs
  pub given : Given h.grant k f.segs
  pub refused : f.granted ≡ false → h.grant (k + length f.segs) ≡ none
  pub sum : total_bytes f.segs + f.left ≡ remaining
  pub few : length f.segs ≤ slots
  pub ends : f.granted ≡ true → (f.left ≡ 0) ⊎ (length f.segs ≡ slots)

add_segment_lem :
    (offset length : ℕ) (seg : Segment) {rest : Option Filled} {f : Filled}
    → offset % 512 ≡ 0
    → length % 512 ≡ 0
    → offset + length ≤ page_size
    → rest ≡ some f
    → add_segment offset length seg rest ≡ some (cons_segment seg f)
unfolding add_segment
add_segment_lem offset length seg {rest} o l within run =
    ap
      (λ b.
        xn_assert b
        >> (xn_assert (length % 512 == 0)
            >> (xn_assert (leb (offset + length) page_size) >> read rest)))
      (==_at o)
    ∙ ap (λ b. xn_assert b >> (xn_assert (leb (offset + length) page_size) >> read rest)) (==_at l)
    ∙ ap (λ b. xn_assert b >> read rest) (leb_at within)
    ∙ ap read run
  where
    read : Option Filled → Option Filled
    read r = r >>= λ f. some (cons_segment seg f)

    ==_at : {a : ℕ} → a ≡ 0 → (a == 0) ≡ true
    ==_at e = ground arith

    leb_at : {a b : ℕ} → a ≤ b → leb a b ≡ true
    leb_at e = ground arith

-- What one segment is: on the raster and in its page.
next_segment_lem :
    (h : Host) (gref ptr remaining : ℕ)
    → KeepsOffset h.phys
    → ptr % 512 ≡ 0
    → remaining % 512 ≡ 0
    → remaining ≢ 0
    → let len = next_length h ptr remaining in
      let seg = next_segment h gref ptr len in
      (h.phys ptr % page_size % 512 ≡ 0)
      × (len % 512 ≡ 0)
      × (h.phys ptr % page_size + len ≤ page_size)
      × (len ≤ remaining)
      × (seg.first_sect ≤ seg.last_sect)
      × (seg.last_sect < 8)
      × (seg.pfn * page_size + seg.first_sect * 512 ≡ h.phys ptr % 2 ^ 44)
      × (seg_bytes seg ≡ len)
next_segment_lem h gref ptr remaining keeps p r more =
    let o : h.phys ptr % page_size % 512 ≡ 0 = omega (arith, keeps ptr) in
    let l : next_length h ptr remaining % 512 ≡ 0 = omega arith in
    let seg = next_segment h gref ptr (next_length h ptr remaining) in
    let size : seg_bytes seg ≡ next_length h ptr remaining = omega arith in
    (o, l, omega arith, omega arith, omega arith, omega arith, omega arith, size)

-- For a buffer and a size on the 512-byte raster, and physical addresses that keep the offset in the
-- page, the loop meets no failed assertion. It cuts the front of the buffer into segments that follow
-- one another without a gap, each of whole sectors in one page, at its physical address modulo 2^44
-- (the frame number has 32 bits), and with a grant for each it stops only at the end of the buffer or
-- when the slots are used up.
pub fill_segments-Cut :
    (h : Host) (slots k ptr remaining : ℕ)
    → KeepsOffset h.phys
    → ptr % 512 ≡ 0
    → remaining % 512 ≡ 0
    → (f : Filled) × (fill_segments h slots k ptr remaining ≡ some f)
      × Cut h slots k ptr remaining f
unfolding fill_segments fill_next
fill_segments-Cut h zero k ptr remaining keeps p r = (
  record { segs = []; left = remaining; granted = true },
  refl,
  record {
    tiled = tt;
    given = tt;
    refused = λ g. absurd (cc);
    sum = omega arith;
    few = omega arith;
    ends = λ g. inr refl;
  },
)
fill_segments-Cut h (suc slots) k ptr remaining keeps p r = elim (Bool-cases (remaining == 0)) [
  | inl done ↦ (
    record { segs = []; left = 0; granted = true },
    round done refl,
    record {
      tiled = tt;
      given = tt;
      refused = λ g. absurd (cc);
      sum = sym ((==_iff remaining 0).0 done);
      few = omega arith;
      ends = λ g. inl refl;
    },
  )
  | inr more ↦ elim (Option-cases (h.grant k)) [
    | inl refused ↦ (
      record { segs = []; left = remaining; granted = false },
      round more refused,
      record {
        tiled = tt;
        given = tt;
        refused = λ g. subst (λ n. h.grant n ≡ none) (sym (add_zero k)) refused;
        sum = omega arith;
        few = omega arith;
        ends = λ g. absurd (cc);
      },
    )
    | inr (gref, given) ↦
        let len = next_length h ptr remaining in
        let seg = next_segment h gref ptr len in
        let (o, l, within, most, ordered, in_page, at, size) =
          next_segment_lem h gref ptr remaining keeps p r (ne_of more) in
        let (f, run, cut) =
          fill_segments-Cut h slots (suc k) (ptr + len) (remaining - len) keeps (omega arith)
            (omega arith) in
        (
          cons_segment seg f,
          round more given ∙ add_segment_lem (h.phys ptr % page_size) len seg o l within run,
          record {
            tiled = (
              ordered,
              in_page,
              at,
              subst (λ n. Tiled h.phys (ptr + n) f.segs) (sym size) cut.tiled,
            );
            given = (given, cut.given);
            refused =
                λ g. subst (λ n. h.grant n ≡ none) (add_suc k (length f.segs)) (cut.refused g);
            sum = omega (arith, cut.sum);
            few = omega (arith, cut.few);
            ends = λ g. ends_suc (cut.ends g);
          },
        )
  ]
]
  where
    round :
        {b : Bool} {g : Option ℕ}
        → (remaining == 0) ≡ b
        → h.grant k ≡ g
        → fill_segments h (suc slots) k ptr remaining
          ≡ fill_next h ptr remaining b g (
              fill_segments h slots
                (suc k)
                (ptr + next_length h ptr remaining)
                (remaining - next_length h ptr remaining))
    round e g =
        ap₂
          (λ b g. fill_next h ptr remaining b g (
            fill_segments h slots (suc k) (ptr + next_length h ptr remaining)
              (remaining - next_length h ptr remaining)))
          e g

    add_zero : (n : ℕ) → n + 0 ≡ n
    add_zero n = omega arith

    add_suc : (m n : ℕ) → suc m + n ≡ m + suc n
    add_suc m n = omega arith

    ne_of : (remaining == 0) ≡ false → remaining ≡ 0 → ⊥
    ne_of e z = ground arith

    ends_suc : {n left : ℕ} → (left ≡ 0) ⊎ (n ≡ slots) → (left ≡ 0) ⊎ (suc n ≡ suc slots)
    ends_suc (inl e) = inl e
    ends_suc (inr e) = inr (ap suc e)
