-- ===== src/Net/Built.antt =====
-- What `XenNet_BuildHeader` gives: the packet cut behind a header of the size asked for.
use win_pvdrivers_mirror.Net.{Mdl, Cursor, Frame}
use win_pvdrivers_mirror.Net.Header.{
  page_size, copy_loop, next_mdl, expand, expand_first, gather, build_header,
}
use win_pvdrivers_mirror.Net.Gather.{chain, Short, Mapped, IsCut, at, next_mdl-IsCut}
use win_pvdrivers_mirror.Net.Loop.{copy_loop-Copied, copy_loop_done}
use win_pvdrivers_mirror.Base.{
  ℕ, suc, ◌-◌, ◌%◌, ◌^◌, ◌≤◌, ◌<◌, ◌≡◌, ◌≢◌, refl, ap, sym, subst, ◌∙◌, inl, inr, min, max, Bool,
  true, false, Option, some, List, ◌∷◌, ◌++◌, leb, le→leb, leb→le, leb→lt, ne-of_==, ◌==◌, ==_iff,
  if◌then◌else◌, length, drop, get_or, All, Bool-cases, arith, ◌>>=◌, ◌>>◌, xn_assert,
}

-- The first buffer, where it is the header: it begins the packet, and as long as the header is
-- shorter than it, the cursor is in it.
pub record InFirst (packet : List ℕ) (fr : Frame) (c : Cursor) : Type 0 where
  pub bytes : (i : ℕ) → i < fr.first_mdl_length → c.header i ≡ get_or packet i 0
  pub fits : fr.first_mdl_length ≤ length packet
  pub here :
      c.header_length < fr.first_mdl_length
      → (m : Mdl) × (ms : List Mdl) × (c.mdls ≡ m ∷ ms)
        × (length m.bytes ≡ fr.first_mdl_length)
        × (m.bytes ++ chain ms ≡ packet)
        × All Short (m ∷ ms)

abbrev pub InPlace : List ℕ → Frame → Cursor → Type 0
InPlace packet fr c = fr.in_place ≡ true → InFirst packet fr c

-- The state of a header of `packet`.
abbrev pub Ready : List ℕ → Frame → Cursor → Type 0
Ready packet fr c = IsCut packet c × InPlace packet fr c

-- What a call gives that asks for `n` bytes.
pub record Built (packet : List ℕ) (fr : Frame) (c : Cursor) (n : ℕ) (r : Bool × Cursor)
    : Type 0 where
  pub cut : IsCut packet r.1
  pub ready : r.0 ≡ true → InPlace packet fr r.1
  pub exact : r.0 ≡ true → r.1.header_length ≡ max c.header_length (min n fr.total_length)
  pub least : c.header_length ≤ r.1.header_length
  pub most : r.1.header_length ≤ max c.header_length (min n fr.total_length)
  pub complete : All Mapped c.mdls → fr.total_length ≤ length packet → r.0 ≡ true
  pub mapped : All Mapped c.mdls → All Mapped r.1.mdls

module _ (packet : List ℕ) (fr : Frame) where
  -- The first buffer is long enough: the header is made longer without a copy.
  expand-Ready :
      (m : Mdl) (ms : List Mdl) (o : ℕ) (pbs : List ℕ) (hl : ℕ) (h : ℕ → ℕ) (size : ℕ)
      → ((i : ℕ) → i < fr.first_mdl_length → h i ≡ get_or packet i 0)
      → length m.bytes ≡ fr.first_mdl_length
      → m.bytes ++ chain ms ≡ packet
      → All Short (m ∷ ms)
      → size ≤ fr.first_mdl_length
      → fr.first_mdl_length ≤ length packet
      → Ready packet fr (expand fr size (at (m ∷ ms) o pbs hl h))
        × ((expand fr size (at (m ∷ ms) o pbs hl h)).header_length ≡ size)
        × (All Mapped (m ∷ ms) → All Mapped (expand fr size (at (m ∷ ms) o pbs hl h)).mdls)
  expand-Ready m ms o pbs hl h size same len whole short l fits =
      elim (Bool-cases (size == fr.first_mdl_length)) [
        | inl e ↦ subst Good (sym (ap (pick size) e)) (past ((==_iff _ _).0 e))
        | inr e ↦ subst Good (sym (ap (pick size) e)) (within (ne-of_== e))
      ]
    where
      Good : Cursor → Type 0
      Good d =
          Ready packet fr d × (d.header_length ≡ size) × (All Mapped (m ∷ ms) → All Mapped d.mdls)

      pick : ℕ → Bool → Cursor
      pick size b =
          if b then next_mdl (at (m ∷ ms) o pbs size h) else at (m ∷ ms) (size % 2 ^ 16) pbs size h

      no_wrap : size % 2 ^ 16 ≡ size
      no_wrap = omega (arith, short.0, len, l)

      cut : IsCut packet (at (m ∷ ms) (size % 2 ^ 16) pbs size h)
      cut = record {
        within = omega arith;
        read = λ i b. same i (omega arith);
        rest = ap (λ j. drop j (m.bytes ++ chain ms)) no_wrap ∙ ap (drop size) whole;
        fits = (omega (arith, no_wrap, len), short);
      }

      past : size ≡ fr.first_mdl_length → Good (next_mdl (at (m ∷ ms) o pbs size h))
      past e = (
        (
          next_mdl-IsCut packet m ms (size % 2 ^ 16) pbs size h (omega (arith, no_wrap, len)) cut,
          λ p. record { bytes = same; fits = fits; here = λ less. absurd (omega arith) },
        ),
        refl,
        λ a. a.1,
      )

      within : size ≢ fr.first_mdl_length → Good (at (m ∷ ms) (size % 2 ^ 16) pbs size h)
      within ne = (
        (
          cut,
          λ p. record {
            bytes = same;
            fits = fits;
            here = λ less. (m, ms, refl, len, whole, short);
          },
        ),
        refl,
        λ a. a,
      )

  abbrev Result : Cursor → ℕ → Option (Bool × Cursor) → Type 0
  Result c n run = (r : Bool × Cursor) × (run ≡ some r) × Built packet fr c n r

  -- The loop gives the size that the header is short of.
  gather-Built :
      (c : Cursor) (n : ℕ)
      → Ready packet fr c
      → c.header_length < min n fr.total_length
      → (fr.in_place ≡ true → fr.first_mdl_length < min n fr.total_length)
      → Result c n (gather (min n fr.total_length) c)
  gather-Built c n (cut, inplace) l long =
      let (r, run, g) =
        copy_loop-Copied packet (suc (length c.mdls)) (size - c.header_length) c.mdls c.offset c.pbs
          c.header_length c.header (omega arith) cut in
      (
        r,
        run,
        record {
          cut = g.cut;
          ready = λ ok p. record {
            bytes = λ i b. g.cut.read i (omega (arith, g.exact ok, long p));
            fits = (inplace p).fits;
            here = λ less. absurd (omega (arith, g.exact ok, long p));
          };
          exact = λ ok. omega (arith, g.exact ok);
          least = g.least;
          most = omega (arith, g.most);
          complete = λ a b. g.complete a (omega arith);
          mapped = g.mapped;
        },
      )
    where
      size : ℕ
      size = min n fr.total_length

  -- The header is longer already.
  long_already :
      (c : Cursor) (n : ℕ)
      → Ready packet fr c
      → min n fr.total_length ≤ c.header_length
      → Built packet fr c n (true, c)
  long_already c n (cut, inplace) l = record {
    cut = cut;
    ready = λ ok. inplace;
    exact = λ ok. omega arith;
    least = omega arith;
    most = omega arith;
    complete = λ a b. refl;
    mapped = λ a. a;
  }

  -- In place, within the first buffer.
  expand-Built :
      (c : Cursor) (n : ℕ)
      → IsCut packet c
      → InFirst packet fr c
      → c.header_length < min n fr.total_length
      → min n fr.total_length ≤ fr.first_mdl_length
      → Result c n (gather (min n fr.total_length) (expand fr (min n fr.total_length) c))
  expand-Built c n cut first l fit = (
    (true, d),
    run,
    record {
      cut = made.0.0;
      ready = λ ok. made.0.1;
      exact = λ ok. omega (arith, made.1);
      least = omega (arith, made.1);
      most = omega (arith, made.1);
      complete = λ a b. refl;
      mapped = made.2;
    },
  )
    where
      size : ℕ
      size = min n fr.total_length

      d : Cursor
      d = expand fr size c

      Expanded : Cursor → Type 0
      Expanded c =
          Ready packet fr (expand fr size c)
          × ((expand fr size c).header_length ≡ size)
          × (All Mapped c.mdls → All Mapped (expand fr size c).mdls)

      made : Expanded c
      made =
          let (m, ms, here, len, whole, short) = first.here (omega arith) in
          subst (λ ns. Expanded (at ns c.offset c.pbs c.header_length c.header)) (sym here)
            (expand-Ready m ms c.offset c.pbs c.header_length c.header size first.bytes len whole
              short fit first.fits)

      run : gather size d ≡ some (true, d)
      run =
          ap (λ j. copy_loop (suc (length d.mdls)) j d) (omega (arith, made.1))
          ∙ copy_loop_done (suc (length d.mdls)) d (omega arith)

  expand_first_out : (size : ℕ) (c : Cursor) → fr.in_place ≡ false → expand_first fr size c ≡ some c
  unfolding expand_first
  expand_first_out size c e =
      ap
        (λ b.
          if b
          then xn_assert (leb size page_size)
            >> some (if leb size fr.first_mdl_length then expand fr size c else c)
          else some c)
        e

  expand_first_in :
      (size : ℕ) (c : Cursor)
      → fr.in_place ≡ true
      → size ≤ page_size
      → expand_first fr size c ≡ some (if leb size fr.first_mdl_length then expand fr size c else c)
  unfolding expand_first
  expand_first_in size c e l =
      ap
        (λ b.
          if b
          then xn_assert (leb size page_size)
            >> some (if leb size fr.first_mdl_length then expand fr size c else c)
          else some c)
        e
      ∙ ap (λ b. xn_assert b >> some (if leb size fr.first_mdl_length then expand fr size c else c))
          (le→leb size page_size l)

  -- A header that is too short, by where it is.
  lengthen :
      (c : Cursor) (n : ℕ)
      → Ready packet fr c
      → (fr.in_place ≡ true → n ≤ page_size)
      → c.header_length < min n fr.total_length
      → Result c n (expand_first fr (min n fr.total_length) c >>= gather (min n fr.total_length))
  lengthen c n ready page l = elim (Bool-cases fr.in_place) [
    | inr out ↦
        run_at (ap then_gather (expand_first_out size c out))
          (gather-Built c n ready l (λ p. absurd (cc)))
    | inl in_it ↦ elim (Bool-cases (leb size fr.first_mdl_length)) [
      | inl fit ↦
          run_at (first in_it ∙ ap pick fit)
            (expand-Built c n ready.0 (ready.1 in_it) l (leb→le fit))
      | inr long ↦ run_at (first in_it ∙ ap pick long) (gather-Built c n ready l (λ p. leb→lt long))
    ]
  ]
    where
      size : ℕ
      size = min n fr.total_length

      then_gather : Option Cursor → Option (Bool × Cursor)
      then_gather o = o >>= gather size

      pick : Bool → Option (Bool × Cursor)
      pick b = gather size (if b then expand fr size c else c)

      first :
          fr.in_place ≡ true
          → then_gather (expand_first fr size c) ≡ pick (leb size fr.first_mdl_length)
      first e = ap then_gather (expand_first_in size c e (omega (arith, page e)))

      run_at : {run run' : Option (Bool × Cursor)} → run ≡ run' → Result c n run' → Result c n run
      run_at e (r, run, b) = (r, e ∙ run, b)

  pub build_header-Built :
      (c : Cursor) (n : ℕ)
      → Ready packet fr c
      → (fr.in_place ≡ true → n ≤ page_size)
      → (r : Bool × Cursor) × (build_header fr c n ≡ some r) × Built packet fr c n r
  unfolding build_header
  build_header-Built c n ready page = elim (Bool-cases (leb size c.header_length)) [
    | inl e ↦ ((true, c), ap pick e, long_already c n ready (leb→le e))
    | inr e ↦ let (r, run, b) = lengthen c n ready page (leb→lt e) in (r, ap pick e ∙ run, b)
  ]
    where
      size : ℕ
      size = min n fr.total_length

      pick : Bool → Option (Bool × Cursor)
      pick b = if b then some (true, c) else (expand_first fr size c >>= gather size)
