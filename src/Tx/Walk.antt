-- ===== src/Tx/Walk.antt =====
-- The loops over the fragments of a packet: they end, and they agree.
use win_pvdrivers_mirror.Tx.Eaten.{query_data_lem, eat_data-Eaten, fragment_at-bytes}
use win_pvdrivers_mirror.Tx.Frags.{
  Span, Walk, Fragment, linux_max_sg_elements, query_data, eat_data, less_ulong, add_fragment,
  put_round, put_fragments, count_round, count_fragments, bytes_left, InSpan, Cut, run_of,
  address_of, span_addresses, fragment_addresses, fragment_at,
}
use win_pvdrivers_mirror.Base.{
  ℕ, zero, suc, ◌+◌, ◌%◌, ◌^◌, ◌≤◌, ◌<◌, ◌≡◌, ◌≢◌, refl, ap, ap₂, ◌++◌, sym, ◌∙◌, inl, inr, some,
  List, [], ◌∷◌, ltb, lt→ltb, le→ltb, ◌==◌, ==_iff, ==_ne, ne-of_==, if◌then◌else◌, length,
  Bool-cases, arith, ◌>>=◌,
}

empty_run : (g : ℕ → ℕ) (i : ℕ) (xs : List ℕ) → run_of g i 0 ++ xs ≡ xs
unfolding run_of
empty_run g i xs = refl

-- The rounds of both loops on the buffer `m`.
module _ (fuel : ℕ) (m : Span) (ms : List Span) (o remaining : ℕ) (ne : remaining ≢ 0)
    (small : remaining < 2 ^ 32)
    (moved : span_addresses (m ∷ ms) o
      ≡ run_of (address_of m) o (query_data m o 4096)
        ++ span_addresses
            (eat_data m ms o (query_data m o 4096)).spans
            (eat_data m ms o (query_data m o 4096)).offset) where
  abbrev size : ℕ
  size = query_data m o 4096

  abbrev fragment : Fragment
  fragment = fragment_at m o size

  abbrev next : Walk
  next = eat_data m ms o size

  abbrev here : Walk
  here = record { spans = m ∷ ms; offset = o }

  put_run :
      put_fragments (suc fuel) here remaining
      ≡ add_fragment fragment (put_fragments fuel next (less_ulong remaining size))
  unfolding put_fragments put_round
  put_run =
      ap (λ b. if b then some [] else put_round (put_fragments fuel) (m ∷ ms) o remaining)
        (==_ne ne)

  count_run :
      (frags more : ℕ)
      → (if size == 0 then frags else frags + 1) ≡ more
      → count_fragments (suc fuel) here remaining frags ≡ (
          if ltb linux_max_sg_elements more
          then some more
          else count_fragments fuel next (less_ulong remaining size) more)
  unfolding count_fragments count_round
  count_run frags more e =
      ap
        (λ b.
          if b then some frags else count_round (count_fragments fuel) (m ∷ ms) o remaining frags)
        (==_ne ne)
      ∙ ap
          (λ n.
            if ltb linux_max_sg_elements n
            then some n
            else count_fragments fuel next (less_ulong remaining size) n)
          e

  abbrev Result : ℕ → ℕ → Walk → ℕ → Type 0
  Result fuel remaining w frags =
      (fs : List Fragment) × (put_fragments fuel w remaining ≡ some fs)
      × Cut (span_addresses w.spans w.offset) remaining frags fs
          (count_fragments fuel w remaining frags)

  -- An empty buffer.
  skip :
      (frags : ℕ)
      → size ≡ 0
      → frags ≤ linux_max_sg_elements
      → Result fuel (less_ulong remaining size) next frags
      → Result (suc fuel) remaining here frags
  skip frags z few (fs, run, c) = (
    fs,
    put_run
        ∙ ap
            (λ b.
              if b
              then put_fragments fuel next (less_ulong remaining size)
              else (put_fragments fuel next (less_ulong remaining size) >>= λ fs.
                  some (fragment ∷ fs)))
            ((==_iff size 0).1 z)
        ∙ run,
    record {
      bytes =
          c.bytes
          ∙ sym (
              moved
              ∙ ap (λ n. run_of (address_of m) o n ++ span_addresses next.spans next.offset) z
              ∙ empty_run (address_of m) o (span_addresses next.spans next.offset));
      sum = omega (arith, c.sum, z, small);
      in_page = c.in_page;
      few = λ l. same ∙ c.few l;
      many = λ l. same ∙ c.many l;
    },
  )
    where
      same :
          count_fragments (suc fuel) here remaining frags
          ≡ count_fragments fuel next (less_ulong remaining size) frags
      same =
          count_run frags frags (ap (λ b. if b then frags else frags + 1) ((==_iff size 0).1 z))
          ∙ ap
              (λ b.
                if b
                then some frags
                else count_fragments fuel next (less_ulong remaining size) frags)
              (le→ltb linux_max_sg_elements frags few)

  -- The fragment and those of the rest.
  cover :
      (fs : List Fragment)
      → (m.byte_offset + o) % 4096 + size ≤ 4096
      → fragment_addresses fs ≡ span_addresses next.spans next.offset
      → fragment_addresses (fragment ∷ fs) ≡ span_addresses (m ∷ ms) o
  cover fs page e = ap₂ (λ x y. x ++ y) (fragment_at-bytes m o size page) e ∙ sym moved

  put_one :
      (fs : List Fragment)
      → size ≢ 0
      → put_fragments fuel next (less_ulong remaining size) ≡ some fs
      → put_fragments (suc fuel) here remaining ≡ some (fragment ∷ fs)
  put_one fs nz run =
      put_run
      ∙ ap
          (λ b.
            if b
            then put_fragments fuel next (less_ulong remaining size)
            else (put_fragments fuel next (less_ulong remaining size) >>= λ fs.
                some (fragment ∷ fs)))
          (==_ne nz)
      ∙ ap (λ o. o >>= λ fs. some (fragment ∷ fs)) run

  counted_one :
      (frags : ℕ)
      → size ≢ 0
      → count_fragments (suc fuel) here remaining frags ≡ (
          if ltb linux_max_sg_elements (frags + 1)
          then some (frags + 1)
          else count_fragments fuel next (less_ulong remaining size) (frags + 1))
  counted_one frags nz =
      count_run frags (frags + 1) (ap (λ b. if b then frags else frags + 1) (==_ne nz))

  -- A fragment within the number allowed.
  one_more :
      (frags : ℕ)
      → size ≢ 0
      → size ≤ remaining
      → (m.byte_offset + o) % 4096 + size ≤ 4096
      → frags < linux_max_sg_elements
      → Result fuel (less_ulong remaining size) next (frags + 1)
      → Result (suc fuel) remaining here frags
  one_more frags nz within page few (fs, run, c) = (
    fragment ∷ fs,
    put_one fs nz run,
    record {
      bytes = cover fs page c.bytes;
      sum = omega (arith, c.sum, within, small);
      in_page = ((positive size nz, page), c.in_page);
      few = λ l. same ∙ c.few (omega (arith, l)) ∙ ap some (omega arith);
      many = λ l. same ∙ c.many (omega (arith, l));
    },
  )
    where
      same :
          count_fragments (suc fuel) here remaining frags
          ≡ count_fragments fuel next (less_ulong remaining size) (frags + 1)
      same =
          counted_one frags nz
          ∙ ap
              (λ b.
                if b
                then some (frags + 1)
                else count_fragments fuel next (less_ulong remaining size) (frags + 1))
              (le→ltb linux_max_sg_elements (frags + 1) (omega arith))

      positive : (n : ℕ) → n ≢ 0 → 0 < n
      positive zero h = absurd (h refl)
      positive (suc n) h = omega arith

  -- A fragment too many: the loop that counts stops.
  too_many :
      (frags : ℕ)
      → size ≢ 0
      → size ≤ remaining
      → (m.byte_offset + o) % 4096 + size ≤ 4096
      → frags ≡ linux_max_sg_elements
      → Result fuel (less_ulong remaining size) next 0
      → Result (suc fuel) remaining here frags
  too_many frags nz within page full (fs, run, c) = (
    fragment ∷ fs,
    put_one fs nz run,
    record {
      bytes = cover fs page c.bytes;
      sum = omega (arith, c.sum, within, small);
      in_page = ((positive size nz, page), c.in_page);
      few = λ l. absurd (omega (arith, l, full));
      many = λ l. stop ∙ ap some (omega (arith, full));
    },
  )
    where
      stop : count_fragments (suc fuel) here remaining frags ≡ some (frags + 1)
      stop =
          counted_one frags nz
          ∙ ap
              (λ b.
                if b
                then some (frags + 1)
                else count_fragments fuel next (less_ulong remaining size) (frags + 1))
              (lt→ltb linux_max_sg_elements (frags + 1) (omega (arith, full)))

      positive : (n : ℕ) → n ≢ 0 → 0 < n
      positive zero h = absurd (h refl)
      positive (suc n) h = omega arith

-- Both loops end at once where nothing remains.
nothing_left :
    (fuel frags : ℕ) (w : Walk) (remaining : ℕ)
    → remaining ≡ 0
    → span_addresses w.spans w.offset ≡ []
    → frags ≤ linux_max_sg_elements
    → (put_fragments (suc fuel) w remaining ≡ some [])
      × Cut
          (span_addresses w.spans w.offset)
          remaining
          frags
          []
          (count_fragments (suc fuel) w remaining frags)
unfolding put_fragments count_fragments
nothing_left fuel frags w remaining z no_bytes most = (
  ap (λ b. if b then some [] else put_round (put_fragments fuel) w.spans w.offset remaining)
      ((==_iff remaining 0).1 z),
  record {
    bytes = sym no_bytes;
    sum = sym z;
    in_page = tt;
    few = λ l. stop ∙ ap some (omega arith);
    many = λ l. absurd (omega (arith, l, most));
  },
)
  where
    stop : count_fragments (suc fuel) w remaining frags ≡ some frags
    stop =
        ap
          (λ b.
            if b
            then some frags
            else count_round (count_fragments fuel) w.spans w.offset remaining frags)
          ((==_iff remaining 0).1 z)

no_addresses : (ss : List Span) (o : ℕ) → bytes_left ss o ≡ 0 → span_addresses ss o ≡ []
unfolding run_of
no_addresses [] o e = refl
no_addresses (m ∷ ms) o e =
    ap (λ n. run_of (address_of m) o n ++ span_addresses ms 0) {y = 0} (omega (arith, e))
    ∙ no_addresses ms 0 (omega (arith, e))

-- The induction, with the buffers and the offset by themselves.
walked :
    (fuel : ℕ) (ss : List Span) (o remaining frags : ℕ)
    → InSpan ss o
    → bytes_left ss o ≡ remaining
    → length ss + remaining < fuel
    → frags ≤ linux_max_sg_elements
    → remaining < 2 ^ 32
    → (fs : List Fragment) × (put_fragments fuel (record { spans = ss; offset = o }) remaining
        ≡ some fs)
      × Cut
          (span_addresses ss o)
          remaining
          frags
          fs
          (count_fragments fuel (record { spans = ss; offset = o }) remaining frags)
walked zero ss o remaining frags fits left enough few ulong = absurd (omega arith)
walked (suc fuel) [] o remaining frags fits left enough few ulong =
    let (run, c) =
      nothing_left fuel frags (record { spans = []; offset = o }) remaining (sym left) refl few in
    ([], run, c)
walked (suc fuel) (m ∷ ms) o remaining frags fits left enough few ulong =
    elim (Bool-cases (remaining == 0)) [
      | inl z ↦
          let (run, c) =
            nothing_left fuel frags (record { spans = m ∷ ms; offset = o }) remaining
              ((==_iff _ _).0 z) (no_addresses (m ∷ ms) o (left ∙ (==_iff _ _).0 z)) few in
          ([], run, c)
      | inr nz ↦
          let (within, page, ends) = query_data_lem m o in
          let k : ℕ = query_data m o 4096 in
          let w : Walk = eat_data m ms o k in
          let step = eat_data-Eaten m ms o k fits within ends in
          let rest = λ (n : ℕ) (l : n ≤ linux_max_sg_elements).
            walked fuel w.spans w.offset (less_ulong remaining k) n step.fits
              (omega (arith, step.left, left, within, ulong))
              (omega (arith, step.shorter, step.left, left, enough, within, ulong)) l
              (omega (arith, ulong)) in
          elim (Bool-cases (k == 0)) [
            | inl none_there ↦
                skip fuel m ms o remaining (ne-of_== nz) ulong step.bytes frags
                  ((==_iff _ _).0 none_there) few (rest frags few)
            | inr some_there ↦ elim (Bool-cases (frags == linux_max_sg_elements)) [
              | inl full ↦
                  too_many fuel m ms o remaining (ne-of_== nz) ulong step.bytes frags
                    (ne-of_== some_there) (omega (arith, left, within)) page ((==_iff _ _).0 full)
                    (rest 0 (omega arith))
              | inr not_full ↦
                  one_more fuel m ms o remaining (ne-of_== nz) ulong step.bytes frags
                    (ne-of_== some_there) (omega (arith, left, within)) page
                    (omega (arith, few, ne-of_== not_full))
                    (rest (frags + 1) (omega (arith, few, ne-of_== not_full)))
            ]
          ]
    ]

-- `XenNet_HWSendPacket` on buffers that hold `remaining` bytes, fewer than 2^32, from an offset in the
-- first one on, with fuel for each byte and each buffer and at most as many fragments counted before as
-- are allowed: the loop over the fragments ends, its fragments are not empty, each is in one page, and
-- together they are the bytes that remain, in order and each at its physical address (with a frame
-- number of 32 bits); the loop that counts gives their number added to `frags`, or one more than the
-- most that are allowed where that is exceeded.
pub put_fragments-Cut :
    (fuel : ℕ) (w : Walk) (remaining frags : ℕ)
    → InSpan w.spans w.offset
    → bytes_left w.spans w.offset ≡ remaining
    → length w.spans + remaining < fuel
    → frags ≤ linux_max_sg_elements
    → remaining < 2 ^ 32
    → (fs : List Fragment) × (put_fragments fuel w remaining ≡ some fs)
      × Cut
          (span_addresses w.spans w.offset)
          remaining
          frags
          fs
          (count_fragments fuel w remaining frags)
put_fragments-Cut fuel w remaining frags fits left enough few ulong =
    walked fuel w.spans w.offset remaining frags fits left enough few ulong
