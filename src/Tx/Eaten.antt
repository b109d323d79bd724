-- ===== src/Tx/Eaten.antt =====
-- One step of the walk over the buffers of a packet.
use win_pvdrivers_mirror.Tx.Frags.{
  Span, Walk, query_data, eat_data, bytes_left, InSpan, run_of, address_of, span_addresses,
  fragment_at,
}
use win_pvdrivers_mirror.Base.{
  ℕ, zero, suc, ◌+◌, ◌-◌, ◌*◌, ◌/◌, ◌^◌, ◌++◌, append_assoc, ap₂, ◌%◌, ◌≤◌, ◌<◌, ◌≡◌, refl, ap, sym,
  subst, ◌∙◌, inl, inr, min, Bool, List, [], ◌∷◌, ltb, leb, leb→le, leb→lt, if◌then◌else◌, length,
  Bool-cases, arith,
}

-- What a query gives: no more than is left, within the page, and nothing only at the end.
pub query_data_lem :
    (m : Span) (offset : ℕ)
    → (query_data m offset 4096 ≤ m.count - offset)
      × ((m.byte_offset + offset) % 4096 + query_data m offset 4096 ≤ 4096)
      × (query_data m offset 4096 ≡ 0 → m.count - offset ≡ 0)
unfolding query_data
query_data_lem m offset = cut ((m.byte_offset + offset) % 4096) (m.count - offset) (omega arith)
  where
    cut :
        (at left : ℕ)
        → at < 4096
        → ((if ltb 4096 (at + min 4096 left) then 4096 - at else min 4096 left) ≤ left)
          × (at + (if ltb 4096 (at + min 4096 left) then 4096 - at else min 4096 left) ≤ 4096)
          × ((if ltb 4096 (at + min 4096 left) then 4096 - at else min 4096 left) ≡ 0 → left ≡ 0)
    cut at left l = (ground arith, ground arith, λ e. ground (arith, e))

-- A run in two parts, and a run of equal values.
run_of-add : (g : ℕ → ℕ) (i a b : ℕ) → run_of g i (a + b) ≡ run_of g i a ++ run_of g (i + a) b
unfolding run_of
run_of-add g i zero b = ap₂ (run_of g) (omega arith) (omega arith)
run_of-add g i (suc a) b =
    ap (run_of g i) {y = suc (a + b)} (omega arith)
    ∙ ap (◌∷◌ (g i))
        (run_of-add g (suc i) a b ∙ ap (λ k. run_of g (suc i) a ++ run_of g k b) (omega arith))

run_of-eq :
    (g h : ℕ → ℕ) (i j n : ℕ)
    → ((k : ℕ) → k < n → g (i + k) ≡ h (j + k))
    → run_of g i n ≡ run_of h j n
unfolding run_of
run_of-eq g h i j zero e = refl
run_of-eq g h i j (suc n) e =
    ap₂ (λ x xs. x ∷ xs) (ap g {y = i + 0} (omega arith) ∙ e 0 (omega arith) ∙ ap h (omega arith))
      (run_of-eq g h (suc i) (suc j) n
        λ k l. ap g {y = i + suc k} (omega arith) ∙ e (suc k) (omega arith) ∙ ap h (omega arith))

-- The bytes of a fragment, which passes no end of a page.
pub fragment_at-bytes :
    (m : Span) (offset size : ℕ)
    → (m.byte_offset + offset) % 4096 + size ≤ 4096
    → run_of
        (λ i. (fragment_at m offset size).pfn * 4096 + i)
        (fragment_at m offset size).offset
        size
      ≡ run_of (address_of m) offset size
fragment_at-bytes m offset size page = run_of-eq _ _ _ offset size λ k l.
    ap₂ (λ p o. m.pfns p % 2 ^ 32 * 4096 + o) {x = (m.byte_offset + offset) / 4096}
      {y = (m.byte_offset + (offset + k)) / 4096} (omega (arith, page, l)) (omega (arith, page, l))

-- A step of the walk over `size` bytes.
pub record Eaten (m : Span) (ms : List Span) (offset size : ℕ) (w : Walk) : Type 0 where
  pub left : bytes_left w.spans w.offset + size ≡ bytes_left (m ∷ ms) offset
  pub fits : InSpan w.spans w.offset
  pub bytes :
      span_addresses (m ∷ ms) offset
      ≡ run_of (address_of m) offset size ++ span_addresses w.spans w.offset
  pub shorter :
      length w.spans + bytes_left w.spans w.offset < length (m ∷ ms) + bytes_left (m ∷ ms) offset

in_next : (ms : List Span) (offset : ℕ) → offset ≡ 0 → InSpan ms offset
in_next [] offset e = tt
in_next (m ∷ ms) offset e = omega (arith, e)

pub eat_data-Eaten :
    (m : Span) (ms : List Span) (offset size : ℕ)
    → offset ≤ m.count
    → size ≤ m.count - offset
    → (size ≡ 0 → m.count - offset ≡ 0)
    → Eaten m ms offset size (eat_data m ms offset size)
unfolding eat_data
eat_data-Eaten m ms offset size fit within some_there =
    elim (Bool-cases (leb m.count (offset + size))) [
      | inl e ↦ subst (Eaten m ms offset size) (sym (ap pick e)) (used (leb→le e))
      | inr e ↦ subst (Eaten m ms offset size) (sym (ap pick e)) (stays (leb→lt e))
    ]
  where
    pick : Bool → Walk
    pick b =
        if b
        then record { spans = ms; offset = offset + size - m.count }
        else record { spans = m ∷ ms; offset = offset + size }

    used :
        m.count ≤ offset + size
        → Eaten m ms offset size (record { spans = ms; offset = offset + size - m.count })
    used l = record {
      left = ap (λ o. bytes_left ms o + size) zero_at ∙ omega (arith, l);
      fits = in_next ms (offset + size - m.count) zero_at;
      bytes =
          ap (λ n. run_of (address_of m) offset n ++ span_addresses ms 0) (omega (arith, l, within))
          ∙ ap (λ o. run_of (address_of m) offset size ++ span_addresses ms o) (sym zero_at);
      shorter = omega (arith, ap (bytes_left ms) zero_at);
    }
      where
        zero_at : offset + size - m.count ≡ 0
        zero_at = omega (arith, l)

    stays :
        offset + size < m.count
        → Eaten m ms offset size (record { spans = m ∷ ms; offset = offset + size })
    stays l = record {
      left = omega (arith, l);
      fits = omega (arith, l);
      bytes =
          ap (λ n. run_of (address_of m) offset n ++ span_addresses ms 0)
            {y = size + (m.count - (offset + size))} (omega (arith, l))
          ∙ ap (λ xs. xs ++ span_addresses ms 0)
              (run_of-add (address_of m) offset size (m.count - (offset + size)))
          ∙ append_assoc (run_of (address_of m) offset size)
              (run_of (address_of m) (offset + size) (m.count - (offset + size)))
              (span_addresses ms 0);
      shorter = omega (arith, l, positive size (λ e. absurd (omega (arith, some_there e, l, e))));
    }
      where
        positive : (n : ℕ) → (n ≡ 0 → ⊥) → 0 < n
        positive zero h = absurd (h refl)
        positive (suc n) h = omega arith
