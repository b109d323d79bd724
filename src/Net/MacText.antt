-- ===== src/Net/MacText.antt =====
-- Which texts `XenNet_Connect` reads as a MAC address.
use win_pvdrivers_mirror.Net.Mac.{
  MacScan, hex_value, note_digit, fail_scan, digit_step, mac_step, mac_loop, pick_addr, read_mac,
  MacText, IsHex, with_octet,
}
use win_pvdrivers_mirror.Base.{
  ℕ, ◌*◌, suc, ◌-◌, leb, leb→le, bit_and, bit_or, update_self, fun_ext, ◌+◌, ◌≤◌, ◌<◌, ◌≡◌, ◌≢◌,
  ◌↔◌, refl, ap, ap₂, sym, subst, ◌∙◌, inl, inr, Bool, true, false, ◌&&◌, Option, none, some, List,
  [], ◌∷◌, ◌==◌, ==_iff, ==_ne, ne-of_==, if◌then◌else◌, Bool-cases, Option-cases, eq_of_some,
  arith,
}

both : (a b : Bool) → (a && b) ≡ true → (a ≡ true) × (b ≡ true)
both true true e = (refl, refl)
both true false e = absurd (cc)
both false b e = absurd (cc)

-- The digits, by the three ranges of characters.
hex_value-IsHex : (c v : ℕ) → hex_value c ≡ some v → IsHex c v
unfolding hex_value
hex_value-IsHex c v =
    pick _ _ _ (λ e. within 48 57 (both _ _ e)) (λ e. within 65 70 (both _ _ e))
      (λ e. within 97 102 (both _ _ e))
  where
    within : (a b : ℕ) → (leb a c ≡ true) × (leb c b ≡ true) → (a ≤ c) × (c ≤ b)
    within a b e = (leb→le e.0, leb→le e.1)

    pick :
        (p q r : Bool)
        → (p ≡ true → (48 ≤ c) × (c ≤ 57))
        → (q ≡ true → (65 ≤ c) × (c ≤ 70))
        → (r ≡ true → (97 ≤ c) × (c ≤ 102))
        → (if p
            then some (c - 48)
            else (if q then some (c - 65 + 10) else (if r then some (c - 97 + 10) else none)))
          ≡ some v
        → IsHex c v
    pick true q r f g h e = inl ((f refl).0, (f refl).1, omega (arith, f refl, eq_of_some e))
    pick false true r f g h e =
        inr (inl ((g refl).0, (g refl).1, omega (arith, g refl, eq_of_some e)))
    pick false false true f g h e =
        inr (inr ((h refl).0, (h refl).1, omega (arith, h refl, eq_of_some e)))
    pick false false false f g h e = absurd (cc)

hex_value-of_IsHex : (c v : ℕ) → IsHex c v → hex_value c ≡ some v
unfolding hex_value
hex_value-of_IsHex c v (inl (l, h, e)) = ground arith
hex_value-of_IsHex c v (inr (inl (l, h, e))) = ground arith
hex_value-of_IsHex c v (inr (inr (l, h, e))) = ground arith

-- Two digits set one after the other.
note_digit_twice :
    (f : ℕ → ℕ) (k x y : ℕ) → note_digit (note_digit f k 16 x) k 1 y ≡ with_octet f k x y
unfolding with_octet
note_digit_twice f k x y = fun_ext λ i. elim (Bool-cases (k == i)) [
  | inl e ↦
      subst (λ j. note_digit (note_digit f k 16 x) k 1 y j ≡ with_octet f k x y j)
        ((==_iff k i).0 e) here
  | inr e ↦
      ap
        (λ b.
          if b
          then bit_or (note_digit f k 16 x k) (y * 1)
          else (if b then bit_or (f k) (x * 16) else f i))
        e
      ∙ sym (ap (λ b. if b then bit_or (bit_or (f i) (x * 16)) y else f i) e)
]
  where
    times_one : (n : ℕ) → n * 1 ≡ n
    times_one n = omega arith

    here : note_digit (note_digit f k 16 x) k 1 y k ≡ with_octet f k x y k
    here =
        update_self (note_digit f k 16 x) k _
        ∙ ap₂ bit_or (update_self f k (bit_or (f k) (x * 16))) (times_one y)
        ∙ sym (ap (λ b. if b then bit_or (bit_or (f k) (x * 16)) y else f k) ((==_iff k k).1 refl))

abbrev at : (state octet : ℕ) → (ℕ → ℕ) → MacScan
at state octet addr = record { state = state; octet = octet; addr = addr }

mac_loop_failed : (cs : List ℕ) (k : ℕ) (f : ℕ → ℕ) → mac_loop cs (at 3 k f) ≡ at 3 k f
unfolding mac_loop
mac_loop_failed [] k f = refl
mac_loop_failed (c ∷ cs) k f = refl

mac_loop_next :
    (c : ℕ) (cs : List ℕ) (s : MacScan)
    → s.state ≢ 3
    → mac_loop (c ∷ cs) s ≡ mac_loop cs (mac_step c s)
unfolding mac_loop
mac_loop_next c cs s ne = ap (λ b. if b then s else mac_loop cs (mac_step c s)) (==_ne ne)

-- The rounds in the states 0 and 1, in the state 2, and past the last octet.
mac_step_digit :
    (c state k : ℕ) (f : ℕ → ℕ)
    → k < 6
    → state < 2
    → mac_step c (at state k f) ≡ digit_step (hex_value c) (at state k f)
unfolding mac_step
mac_step_digit c state k f low early =
    ap
      (λ b.
        if b
        then fail_scan (at state k f)
        else (if state == 2
            then (if c == 58 then at 0 (k + 1) f else fail_scan (at state k f))
            else digit_step (hex_value c) (at state k f)))
      (==_ne (λ e. absurd (omega (arith, e))))
    ∙ ap
        (λ b.
          if b
          then (if c == 58 then at 0 (k + 1) f else fail_scan (at state k f))
          else digit_step (hex_value c) (at state k f))
        (==_ne (λ e. absurd (omega (arith, e))))

mac_step_colon :
    (c k : ℕ) (f : ℕ → ℕ)
    → k < 6
    → mac_step c (at 2 k f) ≡ (if c == 58 then at 0 (k + 1) f else at 3 k f)
unfolding mac_step
mac_step_colon c k f low =
    ap (λ b. if b then at 3 k f else (if c == 58 then at 0 (k + 1) f else at 3 k f))
      (==_ne (λ e. absurd (omega (arith, e))))

-- Two digits of an octet.
two_digits :
    (a b : ℕ) (cs : List ℕ) (k x y : ℕ) (f : ℕ → ℕ)
    → k < 6
    → hex_value a ≡ some x
    → hex_value b ≡ some y
    → mac_loop (a ∷ b ∷ cs) (at 0 k f)
      ≡ mac_loop cs (at 2 k (note_digit (note_digit f k 16 x) k 1 y))
unfolding digit_step
two_digits a b cs k x y f low ea eb =
    mac_loop_next a (b ∷ cs) (at 0 k f) (λ e. absurd (cc))
    ∙ ap (mac_loop (b ∷ cs))
        (mac_step_digit a 0 k f low (omega arith) ∙ ap (λ o. digit_step o (at 0 k f)) ea)
    ∙ mac_loop_next b cs (at 1 k (note_digit f k 16 x)) (λ e. absurd (cc))
    ∙ ap (mac_loop cs) (
        mac_step_digit b 1 k (note_digit f k 16 x) low (omega arith)
        ∙ ap (λ o. digit_step o (at 1 k (note_digit f k 16 x))) eb)

-- A colon behind an octet.
then_colon :
    (cs : List ℕ) (k : ℕ) (f : ℕ → ℕ)
    → k < 6
    → mac_loop (58 ∷ cs) (at 2 k f) ≡ mac_loop cs (at 0 (k + 1) f)
then_colon cs k f low =
    mac_loop_next 58 cs (at 2 k f) (λ e. absurd (cc)) ∙ ap (mac_loop cs) (mac_step_colon 58 k f low)

-- A text is read to its end.
text_is_read :
    (k : ℕ) (cs : List ℕ) (f g : ℕ → ℕ)
    → MacText k cs f g
    → k ≤ 5
    → mac_loop cs (at 0 k f) ≡ at 2 5 g
unfolding mac_loop
text_is_read _ _ _ _ (MacText.last_octet {a} {b} x y {addr} ha hb) l =
    two_digits a b [] 5 x y addr (omega arith) (hex_value-of_IsHex a x ha)
      (hex_value-of_IsHex b y hb)
    ∙ ap (at 2 5) (note_digit_twice addr 5 x y)
text_is_read _ _ _ _ (MacText.octet_colon {k} {a} {b} x y {cs} {addr} {after} less ha hb t) l =
    let noted = with_octet addr k x y in
    two_digits a b (58 ∷ cs) k x y addr (omega arith) (hex_value-of_IsHex a x ha)
      (hex_value-of_IsHex b y hb)
    ∙ ap (λ g. mac_loop (58 ∷ cs) (at 2 k g)) (note_digit_twice addr k x y)
    ∙ then_colon cs k noted (omega arith)
    ∙ ap (λ j. mac_loop cs (at 0 j noted)) {y = suc k} (omega arith)
    ∙ text_is_read (suc k) cs noted after t (omega arith)

-- A character that is no digit ends the loop.
first_failed :
    (a : ℕ) (cs : List ℕ) (k : ℕ) (f : ℕ → ℕ)
    → k < 6
    → hex_value a ≡ none
    → mac_loop (a ∷ cs) (at 0 k f) ≡ at 3 k f
unfolding digit_step
first_failed a cs k f low ea =
    mac_loop_next a cs (at 0 k f) (λ e. absurd (cc))
    ∙ ap (mac_loop cs)
        (mac_step_digit a 0 k f low (omega arith) ∙ ap (λ o. digit_step o (at 0 k f)) ea)
    ∙ mac_loop_failed cs k f

first_digit :
    (a x : ℕ) (cs : List ℕ) (k : ℕ) (f : ℕ → ℕ)
    → k < 6
    → hex_value a ≡ some x
    → mac_loop (a ∷ cs) (at 0 k f) ≡ mac_loop cs (at 1 k (note_digit f k 16 x))
unfolding digit_step
first_digit a x cs k f low ea =
    mac_loop_next a cs (at 0 k f) (λ e. absurd (cc))
    ∙ ap (mac_loop cs)
        (mac_step_digit a 0 k f low (omega arith) ∙ ap (λ o. digit_step o (at 0 k f)) ea)

second_failed :
    (a b x : ℕ) (cs : List ℕ) (k : ℕ) (f : ℕ → ℕ)
    → k < 6
    → hex_value a ≡ some x
    → hex_value b ≡ none
    → mac_loop (a ∷ b ∷ cs) (at 0 k f) ≡ at 3 k (note_digit f k 16 x)
unfolding digit_step
second_failed a b x cs k f low ea eb =
    let g = note_digit f k 16 x in
    first_digit a x (b ∷ cs) k f low ea
    ∙ mac_loop_next b cs (at 1 k g) (λ e. absurd (cc))
    ∙ ap (mac_loop cs)
        (mac_step_digit b 1 k g low (omega arith) ∙ ap (λ o. digit_step o (at 1 k g)) eb)
    ∙ mac_loop_failed cs k g

-- Another character where the colon is expected.
no_colon :
    (c : ℕ) (cs : List ℕ) (k : ℕ) (f : ℕ → ℕ)
    → k < 6
    → (c == 58) ≡ false
    → mac_loop (c ∷ cs) (at 2 k f) ≡ at 3 k f
no_colon c cs k f low e =
    mac_loop_next c cs (at 2 k f) (λ e. absurd (cc))
    ∙ ap (mac_loop cs)
        (mac_step_colon c k f low ∙ ap (λ b. if b then at 0 (k + 1) f else at 3 k f) e)
    ∙ mac_loop_failed cs k f

-- Nothing is read behind the last octet.
past_last : (cs : List ℕ) (f g : ℕ → ℕ) → mac_loop cs (at 0 6 f) ≡ at 2 5 g → ⊥
unfolding mac_loop mac_step
past_last [] f g e = absurd (omega (arith, ap (λ (s : MacScan). s.state) e))
past_last (c ∷ cs) f g e =
    absurd (omega (arith, ap (λ (s : MacScan). s.state) (sym (mac_loop_failed cs 6 f) ∙ e)))

state_of : {s t : MacScan} → s ≡ t → s.state ≡ t.state
state_of e = ap (λ (s : MacScan). s.state) e

-- A text that is read begins with two digits.
begins :
    (k a b : ℕ) (cs : List ℕ) (f g : ℕ → ℕ)
    → k < 6
    → mac_loop (a ∷ b ∷ cs) (at 0 k f) ≡ at 2 5 g
    → (x : ℕ) × (y : ℕ) × IsHex a x
      × IsHex b y
      × (mac_loop cs (at 2 k (with_octet f k x y)) ≡ at 2 5 g)
begins k a b cs f g l e = elim (Option-cases (hex_value a)) [
  | inl ea ↦ absurd (omega (arith, state_of (sym (first_failed a (b ∷ cs) k f l ea) ∙ e)))
  | inr (x, ea) ↦ elim (Option-cases (hex_value b)) [
    | inl eb ↦ absurd (omega (arith, state_of (sym (second_failed a b x cs k f l ea eb) ∙ e)))
    | inr (y, eb) ↦ (
      x,
      y,
      hex_value-IsHex a x ea,
      hex_value-IsHex b y eb,
      ap (λ h. mac_loop cs (at 2 k h)) (sym (note_digit_twice f k x y))
          ∙ sym (two_digits a b cs k x y f l ea eb)
          ∙ e,
    )
  ]
]

-- The last octet, where the text ends.
ends_here :
    (k a b x y : ℕ) (f g : ℕ → ℕ)
    → IsHex a x
    → IsHex b y
    → at 2 k (with_octet f k x y) ≡ at 2 5 g
    → MacText k (a ∷ b ∷ []) f g
ends_here k a b x y f g ea eb e =
    subst (λ h. MacText k (a ∷ b ∷ []) f h) (ap (λ (s : MacScan). s.addr) e)
      (subst (λ j. MacText j (a ∷ b ∷ []) f (with_octet f j x y))
        (sym (ap (λ (s : MacScan). s.octet) e)) (MacText.last_octet x y ea eb))

-- What is read is a text.
read_is_text :
    (k : ℕ) (cs : List ℕ) (f g : ℕ → ℕ)
    → k ≤ 5
    → mac_loop cs (at 0 k f) ≡ at 2 5 g
    → MacText k cs f g
unfolding mac_loop
read_is_text k [] f g l e = absurd (omega (arith, state_of e))
read_is_text k (a ∷ []) f g l e = elim (Option-cases (hex_value a)) [
  | inl ea ↦ absurd (omega (arith, state_of (sym (first_failed a [] k f (omega arith) ea) ∙ e)))
  | inr (x, ea) ↦
      absurd (omega (arith, state_of (sym (first_digit a x [] k f (omega arith) ea) ∙ e)))
]
read_is_text k (a ∷ b ∷ []) f g l e =
    let (x, y, ea, eb, rest) = begins k a b [] f g (omega arith) e in
    ends_here k a b x y f g ea eb rest
read_is_text k (a ∷ b ∷ c ∷ ds) f g l e =
    let (x, y, ea, eb, rest) = begins k a b (c ∷ ds) f g (omega arith) e in
    let noted = with_octet f k x y in
    elim (Bool-cases (c == 58)) [
      | inr other ↦
          absurd (omega (arith, state_of (sym (no_colon c ds k noted (omega arith) other) ∙ rest)))
      | inl colon ↦
          let is_colon = (==_iff c 58).0 colon in
          let next : mac_loop ds (at 0 (suc k) noted) ≡ at 2 5 g =
            ap (λ j. mac_loop ds (at 0 j noted)) {y = k + 1} (omega arith)
            ∙ sym (then_colon ds k noted (omega arith))
            ∙ ap (λ h. mac_loop (h ∷ ds) (at 2 k noted)) (sym is_colon)
            ∙ rest in
          elim (Bool-cases (k == 5)) [
            | inl five ↦ absurd (
                past_last ds noted g (
                  ap (λ j. mac_loop ds (at 0 j noted)) {y = suc k}
                    (omega (arith, (==_iff k 5).0 five))
                  ∙ next))
            | inr less ↦
                subst (λ h. MacText k (a ∷ b ∷ h ∷ ds) f g) (sym is_colon)
                  (MacText.octet_colon x y (omega (arith, ne-of_== less)) ea eb
                    (read_is_text (suc k) ds noted g (omega (arith, ne-of_== less)) next))
          ]
    ]

-- The loop of `XenNet_Connect` accepts exactly the texts of six octets, each of two hexadecimal
-- digits, with colons between them; their bits are set in the permanent address by `or`, above those
-- that it had. The current address then is the permanent one, unless the low two bits of its first octet
-- were 2 (locally administered, not a group address): then it stays.
pub read_mac-MacText :
    (text : List ℕ) (curr perm perm' curr' : ℕ → ℕ)
    → (read_mac text curr perm ≡ some (perm', curr')) ↔ (
        MacText 0 text perm perm'
        × (bit_and (curr 0) 3 ≡ 2 → curr' ≡ curr)
        × (bit_and (curr 0) 3 ≢ 2 → curr' ≡ perm'))
unfolding read_mac
read_mac-MacText text curr perm perm' curr' = (
  (λ e. elim (Bool-cases ((s.octet == 5) && (s.state == 2))) [
    | inl ok ↦
        let pair = eq_of_some (sym (ap pick ok) ∙ e) in
        let new : s.addr ≡ perm' = ap (λ p. p.0) pair in
        (
          read_is_text 0 text perm perm' (omega arith)
              (ap₂ (λ st o. at st o s.addr) (is_two ok) (is_five ok) ∙ ap (at 2 5) new),
          (λ local.
              sym (ap (λ p. p.1) pair)
              ∙ ap (λ b. if b then curr else s.addr) ((==_iff (bit_and (curr 0) 3) 2).1 local)),
          (λ other.
              sym (ap (λ p. p.1) pair) ∙ ap (λ b. if b then curr else s.addr) (==_ne other) ∙ new),
        )
    | inr failed ↦ absurd (cc (sym (ap pick failed) ∙ e))
  ]),
  λ h.
      ap
        (λ (t : MacScan).
          if (t.octet == 5) && (t.state == 2) then some (t.addr, pick_addr curr t.addr) else none)
        (text_is_read 0 text perm perm' h.0 (omega arith))
      ∙ ap (λ c. some (perm', c)) (picked h.1 h.2),
)
  where
    picked :
        (bit_and (curr 0) 3 ≡ 2 → curr' ≡ curr)
        → (bit_and (curr 0) 3 ≢ 2 → curr' ≡ perm')
        → pick_addr curr perm' ≡ curr'
    picked local other = elim (Bool-cases (bit_and (curr 0) 3 == 2)) [
      | inl e ↦ ap (λ b. if b then curr else perm') e ∙ sym (local ((==_iff _ _).0 e))
      | inr e ↦ ap (λ b. if b then curr else perm') e ∙ sym (other (ne-of_== e))
    ]

    s : MacScan
    s = mac_loop text (at 0 0 perm)

    pick : Bool → Option ((ℕ → ℕ) × (ℕ → ℕ))
    pick b = if b then some (s.addr, pick_addr curr s.addr) else none

    is_five : ((s.octet == 5) && (s.state == 2)) ≡ true → s.octet ≡ 5
    is_five e = (==_iff _ _).0 (first (s.octet == 5) (s.state == 2) e)
      where
        first : (a b : Bool) → (a && b) ≡ true → a ≡ true
        first a b e = ground arith

    is_two : ((s.octet == 5) && (s.state == 2)) ≡ true → s.state ≡ 2
    is_two e = (==_iff _ _).0 (second (s.octet == 5) (s.state == 2) e)
      where
        second : (a b : Bool) → (a && b) ≡ true → b ≡ true
        second a b e = ground arith
