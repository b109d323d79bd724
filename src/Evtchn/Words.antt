-- ===== src/Evtchn/Words.antt =====
-- What the pass over the selected words does, port by port.
use mathlib.Core.List.{foldl, map}
use win_pvdrivers_mirror.Base.{
  ℕ, zero, suc, ◌/◌, ◌%◌, ◌<◌, ◌≤◌, ◌≡◌, refl, ap, ap₂, sym, subst, ◌∙◌, inl, inr, Bool, true,
  false, not, ◌&&◌, List, [], ◌++◌, append_assoc, append-nil, ◌==◌, ==_iff, ==_self, if◌then◌else◌,
  arith, Bool-cases, Bits, set_bits, set_bits-ext, fun_ext,
}
use win_pvdrivers_mirror.Evtchn.{EvState, EvAction, EvCall, bits_per_long, port_of, live}
use win_pvdrivers_mirror.Evtchn.Scan.{serve_word}
use win_pvdrivers_mirror.Evtchn.Served.{call_of, within, bumped, Swept, sweep}

-- The calls that serve the live bits of word `w`, in the order of the bits.
abbrev pub word_calls : EvState → ℕ → List EvCall
word_calls s w =
    map (λ b. call_of (s.actions (port_of w b)) (port_of w b)) (set_bits bits_per_long 0 (live s w))

-- Those of the words that `sel` names among the `n` from `i` on, in the order of the words.
unfoldable pub selected_calls : ℕ → ℕ → Bits → EvState → List EvCall
selected_calls zero i sel s = []
selected_calls (suc n) i sel s =
    if sel i
    then word_calls s i ++ selected_calls n (suc i) sel s
    else selected_calls n (suc i) sel s

-- The two states have the same live bits from word `i` on, and the same routines.
record SameFrom (i : ℕ) (s t : EvState) : Type 0 where
  lives : (w b : ℕ) → i ≤ w → live t w b ≡ live s w b
  call : (q : ℕ) → call_of (t.actions q) q ≡ call_of (s.actions q) q

word_calls-ext :
    (i w : ℕ) (s t : EvState) → i ≤ w → SameFrom i s t → word_calls t w ≡ word_calls s w
word_calls-ext i w s t h e =
    ap₂ map (fun_ext λ b. e.call (port_of w b))
      (set_bits-ext bits_per_long 0 (live t w) (live s w) (λ j _. e.lives w j h))

selected_calls-ext :
    (n i : ℕ) (sel : Bits) (s t : EvState)
    → SameFrom i s t
    → selected_calls n i sel t ≡ selected_calls n i sel s
unfolding selected_calls
selected_calls-ext zero i sel s t e = refl
selected_calls-ext (suc n) i sel s t e =
    ap₂ (λ a b. if sel i then a ++ b else b) (word_calls-ext i i s t (omega arith) e)
      (selected_calls-ext n (suc i) sel s t
        (record { lives = λ w b h. e.lives w b (omega arith); call = e.call }))

-- From `s` to `t` the live bits of the words that `sel` names in a range have been served, each
-- once.
pub record Served (n i : ℕ) (sel : Bits) (s t : EvState) : Type 0 where
  pub pending :
      (w b : ℕ)
      → b < bits_per_long
      → t.pending w b ≡ (s.pending w b && not ((within i n w && sel w) && not (s.mask w b)))
  pub mask : t.mask ≡ s.mask
  pub count :
      (q : ℕ)
      → (t.actions q).count
        ≡ bumped
            ((within i n (q / 64) && sel (q / 64)) && live s (q / 64) (q % 64))
            (s.actions q).count
  pub call : (q : ℕ) → call_of (t.actions q) q ≡ call_of (s.actions q) q
  pub calls : t.calls ≡ s.calls ++ selected_calls n i sel s

Swept-SameFrom :
    (i : ℕ) (s t : EvState) → Swept i bits_per_long 0 (live s i) s t → SameFrom (suc i) s t
Swept-SameFrom i s t r = record {
  lives = λ w b h. ground (arith, r.pending w b, ap (λ f. f w b) r.mask);
  call = r.call;
}

within-past : (n i : ℕ) → within (suc i) n i ≡ false
within-past n i = ground arith

within-first : (n i : ℕ) → within i (suc n) i ≡ true
within-first n i = ground arith

within-word : (b : ℕ) → b < bits_per_long → within 0 bits_per_long b ≡ true
within-word b h = ground arith

within-ne : (n i w : ℕ) → (w == i) ≡ false → within (suc i) n w ≡ within i (suc n) w
within-ne n i w e = ground arith

drop_true : (x y : Bool) → ((x && true) && y) ≡ (x && y)
drop_true true y = refl
drop_true false y = refl

-- Serving word `i` and then the words behind it serves the words from `i` on.
pending_join :
    (n i w b : ℕ) (sel P M : Bits)
    → b < bits_per_long
    → sel i ≡ true
    → ((P w && not ((w == i) && (within 0 bits_per_long b && (P i && not (M i)))))
        && not ((within (suc i) n w && sel w) && not (M w)))
      ≡ (P w && not ((within i (suc n) w && sel w) && not (M w)))
pending_join n i w b sel P M h on = elim (Bool-cases (w == i)) [
  | inl e ↦
      subst
        (λ k.
          ((P k && not ((k == i) && (within 0 bits_per_long b && (P i && not (M i)))))
            && not ((within (suc i) n k && sel k) && not (M k)))
          ≡ (P k && not ((within i (suc n) k && sel k) && not (M k))))
        (sym ((==_iff w i).0 e)) (at_word (P i) (M i))
  | inr e ↦ rw e (elsewhere e)
]
  where
    at_word :
        (x y : Bool)
        → ((x && not ((i == i) && (within 0 bits_per_long b && (x && not y))))
            && not ((within (suc i) n i && sel i) && not y))
          ≡ (x && not ((within i (suc n) i && sel i) && not y))
    at_word true true = ground arith
    at_word true false = ground arith
    at_word false y = refl

    elsewhere :
        (w == i) ≡ false
        → ((P w && true) && not ((within (suc i) n w && sel w) && not (M w)))
          ≡ (P w && not ((within i (suc n) w && sel w) && not (M w)))
    elsewhere e =
        rw (within-ne n i w e) (drop_true (P w) (not ((within i (suc n) w && sel w) && not (M w))))

count_join :
    (n i w b c : ℕ) (sel L : Bits) (later : Bool)
    → b < bits_per_long
    → sel i ≡ true
    → (suc i ≤ w → later ≡ L w)
    → bumped
        ((within (suc i) n w && sel w) && later)
        (bumped ((w == i) && (within 0 bits_per_long b && L i)) c)
      ≡ bumped ((within i (suc n) w && sel w) && L w) c
count_join n i w b c sel L later h on same = elim (Bool-cases (w == i)) [
  | inl e ↦
      subst
        (λ k.
          bumped ((within (suc i) n k && sel k) && later)
            (bumped ((k == i) && (within 0 bits_per_long b && L i)) c)
          ≡ bumped ((within i (suc n) k && sel k) && L k) c)
        (sym ((==_iff w i).0 e))
        (rw (within-past n i, within-first n i, ==_self i, within-word b h, on))
  | inr e ↦
      rw (e, within-ne n i w e)
        (elim (Bool-cases (within i (suc n) w)) [
          | inl inside ↦ rw (same (ground (arith, e, inside)))
          | inr outside ↦ rw outside
        ])
]

pub serve_words :
    (n i : ℕ) (sel : Bits) (hs : Bool × EvState)
    → Served n i sel hs.1 (foldl serve_word hs (set_bits n i sel)).1
unfolding set_bits selected_calls
serve_words zero i sel (h, s) = record {
  pending = λ w b q. ground arith;
  mask = refl;
  count = λ q. ground arith;
  call = λ q. refl;
  calls = sym (append-nil s.calls);
}
serve_words (suc n) i sel (h, s) = elim (Bool-cases (sel i)) [
  | inl on ↦
      let hs1 = serve_word (h, s) i in
      let s1 = hs1.1 in
      let r = sweep bits_per_long 0 i (live s i) (h, s) (omega arith) in
      let rest = serve_words n (suc i) sel hs1 in
      let same = Swept-SameFrom i s s1 r in
      rw on (record {
        pending = λ w b q.
            rest.pending w b q
            ∙ ap₂ (λ x y. x && not ((within (suc i) n w && sel w) && not y)) (r.pending w b)
                (ap (λ f. f w b) r.mask)
            ∙ pending_join n i w b sel (λ k. s.pending k b) (λ k. s.mask k b) q on;
        mask = rest.mask ∙ r.mask;
        count = λ q.
            rest.count q
            ∙ ap (bumped ((within (suc i) n (q / 64) && sel (q / 64)) && live s1 (q / 64) (q % 64)))
                (r.count q)
            ∙ count_join n i (q / 64) (q % 64) (s.actions q).count sel (λ k. live s k (q % 64))
                (live s1 (q / 64) (q % 64)) (omega arith) on (same.lives (q / 64) (q % 64));
        call = λ q. rest.call q ∙ r.call q;
        calls = rw on (
            rest.calls
            ∙ ap₂ ◌++◌ r.calls (selected_calls-ext n (suc i) sel s s1 same)
            ∙ append_assoc s.calls (word_calls s i) (selected_calls n (suc i) sel s));
      })
  | inr off ↦
      let rest = serve_words n (suc i) sel (h, s) in
      rw off (record {
        pending = λ w b q. ground (arith, rest.pending w b q, off);
        mask = rest.mask;
        count = λ q. ground (arith, rest.count q, off);
        call = rest.call;
        calls = rw off rest.calls;
      })
]

-- The pass may start in a state that differs in other fields.
pub Served-start :
    (n i : ℕ) (sel : Bits) (s start t : EvState)
    → start.pending ≡ s.pending
    → start.mask ≡ s.mask
    → start.actions ≡ s.actions
    → start.calls ≡ s.calls
    → Served n i sel start t
    → Served n i sel s t
Served-start n i sel s start t p m a c r = record {
  pending = λ w b h.
      r.pending w b h
      ∙ ap₂ (λ (f g : ℕ → Bits). f w b && not ((within i n w && sel w) && not (g w b))) p m;
  mask = r.mask ∙ m;
  count = λ q.
      r.count q
      ∙ ap (λ x. bumped ((within i n (q / 64) && sel (q / 64)) && x) (start.actions q).count)
          (lives (q / 64) (q % 64))
      ∙ ap
          (λ (f : ℕ → EvAction).
            bumped ((within i n (q / 64) && sel (q / 64)) && live s (q / 64) (q % 64)) (f q).count)
          a;
  call = λ q. r.call q ∙ ap (λ f. call_of (f q) q) a;
  calls =
      r.calls
      ∙ ap₂ ◌++◌ c (
          selected_calls-ext n i sel s start
            (record { lives = λ w b _. lives w b; call = λ q. ap (λ f. call_of (f q) q) a }));
}
  where
    lives : (w b : ℕ) → live start w b ≡ live s w b
    lives w b = ap₂ (λ (f g : ℕ → Bits). f w b && not (g w b)) p m
