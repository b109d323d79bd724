-- ===== src/Xenbus/Bytes.antt =====
-- The rings of xenpci/xenbus.c byte by byte: what a sequence of bytes at a running index is, and that
-- the code's copies in one or two pieces are that.
use win_pvdrivers_mirror.Base.{
  ℕ, zero, suc, ◌+◌, ◌-◌, ◌%◌, ◌^◌, ◌<◌, ◌≤◌, ◌≡◌, ◌≢◌, refl, ap, ap₂, sym, ◌∙◌, min, some, List,
  [], ◌∷◌, ◌++◌, arith, update, update_self, update_ne, length, take, drop, take-append-drop,
  length-take, length-drop,
}
use win_pvdrivers_mirror.Xenbus.{ring_size, mask_idx, blit, copy_out, memcpy_from_ring, write_loop}

-- A byte at a time into the ring, from index `p` on.
unfoldable pub put : (ℕ → ℕ) → ℕ → List ℕ → ℕ → ℕ
put ring p [] = ring
put ring p (x ∷ xs) = put (update ring (mask_idx p) x) (suc p) xs

-- `n` bytes of the ring, one at a time, from index `p` on.
unfoldable pub fetch : (ℕ → ℕ) → (p n : ℕ) → List ℕ
fetch ring p zero = []
fetch ring p (suc n) = ring (mask_idx p) ∷ fetch ring (suc p) n

pub put-append :
    (xs ys : List ℕ) (ring : ℕ → ℕ) (p : ℕ)
    → put ring p (xs ++ ys) ≡ put (put ring p xs) (p + length xs) ys
unfolding put
put-append [] ys ring p = ap (λ k. put ring k ys) (omega arith)
put-append (x ∷ xs) ys ring p =
    put-append xs ys (update ring (mask_idx p) x) (suc p)
    ∙ ap (λ k. put (put (update ring (mask_idx p) x) (suc p) xs) k ys) (omega arith)

-- Only the index within the ring counts.
pub put_mask :
    (xs : List ℕ) (ring : ℕ → ℕ) (p q : ℕ) → mask_idx p ≡ mask_idx q → put ring p xs ≡ put ring q xs
unfolding put
put_mask [] ring p q e = refl
put_mask (x ∷ xs) ring p q e =
    put_mask xs (update ring (mask_idx p) x) (suc p) (suc q) (omega arith)
    ∙ ap (λ k. put (update ring k x) (suc q) xs) e

pub blit-put :
    (xs : List ℕ) (ring : ℕ → ℕ) (off p : ℕ)
    → mask_idx p ≡ off
    → off + length xs ≤ ring_size
    → blit ring off xs ≡ put ring p xs
unfolding blit put
blit-put [] ring off p e h = refl
blit-put (x ∷ []) ring off p e h = ap (λ k. update ring k x) (sym e)
blit-put (x ∷ (y ∷ xs)) ring off p e h =
    blit-put (y ∷ xs) (update ring off x) (suc off) (suc p) (omega arith) (omega arith)
    ∙ ap (λ k. put (update ring k x) (suc p) (y ∷ xs)) (sym e)

pub write_loop-put :
    (fuel : ℕ) (ring : ℕ → ℕ) (p : ℕ) (bytes : List ℕ)
    → length bytes < fuel
    → p < 2 ^ 32
    → write_loop fuel ring p bytes ≡ some (put ring p bytes, (p + length bytes) % 2 ^ 32)
unfolding write_loop put
write_loop-put zero ring p bytes h k = absurd (omega arith)
write_loop-put (suc fuel) ring p [] h k = ap (λ q. some (ring, q)) (omega arith)
write_loop-put (suc fuel) ring p (x ∷ xs) h k =
    let bytes = x ∷ xs in
    let n = min (length bytes) (ring_size - mask_idx p) in
    let a = take n bytes in
    let b = drop n bytes in
    let la : length a ≡ n = omega (arith, length-take n bytes) in
    let lb : length b ≡ length bytes - n = length-drop n bytes in
    let first : blit ring (mask_idx p) a ≡ put ring p a =
      blit-put a ring (mask_idx p) p refl (omega arith) in
    ap (λ r. write_loop fuel r ((p + n) % 2 ^ 32) b) first
    ∙ write_loop-put fuel (put ring p a) ((p + n) % 2 ^ 32) b (omega arith) (omega arith)
    ∙ ap₂ (λ r q. some (r, q))
        (put_mask b (put ring p a) ((p + n) % 2 ^ 32) (p + length a) (omega arith)
          ∙ sym (put-append a b ring p)
          ∙ ap (put ring p) (take-append-drop n bytes))
        (omega arith)

-- A byte outside the stretch written stays.
pub put_outside :
    (xs : List ℕ) (ring : ℕ → ℕ) (p j : ℕ)
    → ((k : ℕ) → k < length xs → mask_idx (p + k) ≢ j)
    → put ring p xs j ≡ ring j
unfolding put
put_outside [] ring p j out = refl
put_outside (x ∷ xs) ring p j out =
    put_outside xs (update ring (mask_idx p) x) (suc p) j
      (λ k h e. out (suc k) (omega arith) (ap mask_idx (shift k) ∙ e))
    ∙ update_ne ring {i = mask_idx p} {j = j} x
        (λ e. out 0 (omega arith) (ap mask_idx (zero_add) ∙ e))
  where
    shift : (k : ℕ) → p + suc k ≡ suc p + k
    shift k = omega arith

    zero_add : p + 0 ≡ p
    zero_add = omega arith

-- What has been written is read again.
pub fetch-put :
    (xs : List ℕ) (ring : ℕ → ℕ) (p : ℕ)
    → length xs ≤ ring_size
    → fetch (put ring p xs) p (length xs) ≡ xs
unfolding put fetch
fetch-put [] ring p h = refl
fetch-put (x ∷ xs) ring p h =
    ap₂ (λ a b. a ∷ b)
      (put_outside xs (update ring (mask_idx p) x) (suc p) (mask_idx p)
          (λ k l e. absurd (omega arith))
        ∙ update_self ring (mask_idx p) x)
      (fetch-put xs (update ring (mask_idx p) x) (suc p) (omega arith))

copy_out-fetch :
    (n : ℕ) (ring : ℕ → ℕ) (off p : ℕ)
    → mask_idx p ≡ off
    → off + n ≤ ring_size
    → copy_out ring off n ≡ fetch ring p n
unfolding copy_out fetch
copy_out-fetch zero ring off p e h = refl
copy_out-fetch (suc zero) ring off p e h = ap (λ k. ring k ∷ []) (sym e)
copy_out-fetch (suc (suc n)) ring off p e h =
    ap₂ (λ a b. a ∷ b) (ap ring (sym e))
      (copy_out-fetch (suc n) ring (suc off) (suc p) (omega arith) (omega arith))

pub fetch-add :
    (a b : ℕ) (ring : ℕ → ℕ) (p : ℕ) → fetch ring p (a + b) ≡ fetch ring p a ++ fetch ring (p + a) b
unfolding fetch
fetch-add zero b ring p = ap₂ (fetch ring) (omega arith) (omega arith)
fetch-add (suc a) b ring p =
    ap (fetch ring p) add_suc
    ∙ ap (◌∷◌ (ring (mask_idx p))) (
        fetch-add a b ring (suc p) ∙ ap (λ k. fetch ring (suc p) a ++ fetch ring k b) (omega arith))
  where
    add_suc : suc a + b ≡ suc (a + b)
    add_suc = omega arith

-- `memcpy_from_ring` of at most a ring's worth of bytes.
pub memcpy_from_ring-fetch :
    (ring : ℕ → ℕ) (p n : ℕ) → n ≤ ring_size → memcpy_from_ring ring (mask_idx p) n ≡ fetch ring p n
unfolding memcpy_from_ring copy_out fetch
memcpy_from_ring-fetch ring p n h =
    let c1 = min n (ring_size - mask_idx p) in
    let c2 = n - c1 in
    ap₂ (λ a b. a ++ b) (copy_out-fetch c1 ring (mask_idx p) p refl (omega arith))
      (second c1 c2 refl refl)
    ∙ sym (fetch-add c1 c2 ring p)
    ∙ ap (fetch ring p) (omega arith)
  where
    second :
        (c1 c2 : ℕ)
        → c1 ≡ min n (ring_size - mask_idx p)
        → c2 ≡ n - c1
        → copy_out ring 0 c2 ≡ fetch ring (p + c1) c2
    second c1 zero e f = refl
    second c1 (suc c) e f = copy_out-fetch (suc c) ring 0 (p + c1) (omega arith) (omega arith)

pub fetch_mask :
    (n : ℕ) (ring : ℕ → ℕ) (p q : ℕ) → mask_idx p ≡ mask_idx q → fetch ring p n ≡ fetch ring q n
unfolding fetch
fetch_mask zero ring p q e = refl
fetch_mask (suc n) ring p q e =
    ap₂ (λ a b. a ∷ b) (ap ring e) (fetch_mask n ring (suc p) (suc q) (omega arith))

pub length-fetch : (n : ℕ) (ring : ℕ → ℕ) (p : ℕ) → length (fetch ring p n) ≡ n
unfolding fetch
length-fetch zero ring p = refl
length-fetch (suc n) ring p = ap suc (length-fetch n ring (suc p))
