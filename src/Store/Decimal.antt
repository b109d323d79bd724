-- ===== src/Store/Decimal.antt =====
-- Numbers printed by "%d" and read by `atoi`.
use win_pvdrivers_mirror.Base.{
  ℕ, zero, suc, ◌+◌, ◌*◌, ◌/◌, ◌%◌, ◌<◌, ◌≡◌, refl, ap, sym, ◌∙◌, inl, inr, true, false, ◌&&◌, List,
  [], ◌∷◌, ◌++◌, append_assoc, ltb, leb, ltb→lt, ltb→le, ◌==◌, Bool-cases, arith,
}
use win_pvdrivers_mirror.Store.{
  digits_of, print_token, read_digits, is_space, skip_space, read_signed, atoi,
}

read_digit :
    (acc d : ℕ) (rest : List ℕ)
    → d < 10
    → read_digits acc ((48 + d) ∷ rest) ≡ read_digits (acc * 10 + d) rest
unfolding read_digits
read_digit acc d rest h =
    rw (digit_range d h) (ap (λ k. read_digits (acc * 10 + k) rest) (omega arith))
  where
    digit_range : (d : ℕ) → d < 10 → (leb 48 (48 + d) && leb (48 + d) 57) ≡ true
    digit_range d h = ground arith

read_digits-digits_of :
    (fuel n : ℕ) (rest : List ℕ)
    → n < fuel
    → read_digits 0 (digits_of fuel n ++ rest) ≡ read_digits n rest
unfolding digits_of
read_digits-digits_of zero n rest h = absurd (omega arith)
read_digits-digits_of (suc fuel) n rest h = elim (Bool-cases (ltb n 10)) [
  | inl one ↦
      rw one (read_digit 0 n rest (ltb→lt n 10 one) ∙ ap (λ k. read_digits k rest) (omega arith))
  | inr more ↦
      let big = ltb→le n 10 more in
      rw more (
        ap (read_digits 0) (append_assoc (digits_of fuel (n / 10)) ((48 + n % 10) ∷ []) rest)
        ∙ read_digits-digits_of fuel (n / 10) ((48 + n % 10) ∷ rest) (omega arith)
        ∙ read_digit (n / 10) (n % 10) rest (omega arith)
        ∙ ap (λ k. read_digits k rest) (omega arith))
]

first_digit :
    (fuel n : ℕ)
    → n < fuel
    → (d : ℕ) × (ys : List ℕ) × (d < 10) × (digits_of fuel n ≡ (48 + d) ∷ ys)
unfolding digits_of
first_digit zero n h = absurd (omega arith)
first_digit (suc fuel) n h = elim (Bool-cases (ltb n 10)) [
  | inl one ↦ (n, [], ltb→lt n 10 one, rw one)
  | inr more ↦
      let big = ltb→le n 10 more in
      let (d, ys, small, e) = first_digit fuel (n / 10) (omega arith) in
      (d, ys ++ (48 + n % 10) ∷ [], small, rw more (ap (λ l. l ++ (48 + n % 10) ∷ []) e))
]

atoi_digit :
    (d : ℕ) (xs : List ℕ) → d < 10 → atoi ((48 + d) ∷ xs) ≡ (false, read_digits 0 ((48 + d) ∷ xs))
unfolding atoi skip_space read_signed
atoi_digit d xs h = rw (no_space d h, no_sign d h, no_plus d h)
  where
    no_space : (d : ℕ) → d < 10 → is_space (48 + d) ≡ false
    no_space d h = ground arith

    no_sign : (d : ℕ) → d < 10 → (48 + d == 45) ≡ false
    no_sign d h = ground arith

    no_plus : (d : ℕ) → d < 10 → (48 + d == 43) ≡ false
    no_plus d h = ground arith

-- A number printed with "%d" and followed by a NUL is read back by `atoi`, whatever comes after.
pub atoi-print_token : (n : ℕ) (rest : List ℕ) → atoi (print_token n ++ (0 ∷ rest)) ≡ (false, n)
unfolding print_token read_digits
atoi-print_token n rest =
    let (d, ys, small, e) = first_digit (suc n) n (omega arith) in
    ap (λ l. atoi (l ++ (0 ∷ rest))) e
    ∙ atoi_digit d (ys ++ (0 ∷ rest)) small
    ∙ ap (λ l. (false, read_digits 0 (l ++ (0 ∷ rest)))) (sym e)
    ∙ ap (λ k. (false, k)) (read_digits-digits_of (suc n) n (0 ∷ rest) (omega arith) ∙ stop_at n)
  where
    stop_at : (n : ℕ) → read_digits n (0 ∷ rest) ≡ n
    stop_at n = refl
