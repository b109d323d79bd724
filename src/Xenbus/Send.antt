-- ===== src/Xenbus/Send.antt =====
-- `xb_write` and the request half of `xenbus_format_msg_reply`.
use win_pvdrivers_mirror.Base.{
  le→leb, ℕ, suc, ◌+◌, ◌%◌, ◌^◌, ◌<◌, ◌≤◌, ◌≡◌, ◌≢◌, refl, ap, ap₂, sym, ◌∙◌, some, List, [], ◌∷◌,
  ◌++◌, ◌>>=◌, arith, length, length-append, append_assoc, append-nil, replicate,
}
use win_pvdrivers_mirror.Xenbus.{
  ring_size, mask_idx, memcpy_from_ring, xb_write, write_all, send_request, encode, le32, total_len,
  sizeof_sockmsg, Header, XbState, XbCall, notify_port,
}
use win_pvdrivers_mirror.Xenbus.Bytes.{
  put, put-append, put_mask, put_outside, fetch-put, write_loop-put, memcpy_from_ring-fetch,
}

-- The parts of a request in one piece.
unfoldable pub joined : List (List ℕ) → List ℕ
joined [] = []
joined (r ∷ rs) = r ++ joined rs

length-joined : (rs : List (List ℕ)) → length (joined rs) ≡ total_len rs
unfolding joined total_len
length-joined [] = refl
length-joined (r ∷ rs) = omega (arith, length-append r (joined rs), length-joined rs)

-- The state after `bytes` have been written in some number of calls.
abbrev wrote : XbState → List ℕ → ℕ → XbState
wrote s bytes rounds = record s {
  req = put s.req s.req_prod bytes;
  req_prod = (s.req_prod + length bytes) % 2 ^ 32;
  calls = s.calls ++ replicate rounds notify_port;
}

xb_write_lem :
    (s : XbState) (bytes : List ℕ)
    → length bytes ≤ ring_size
    → s.req_prod < 2 ^ 32
    → xb_write s bytes ≡ some (wrote s bytes 1)
unfolding xb_write
xb_write_lem s bytes h k = rw (
  le→leb (length bytes) ring_size h,
  write_loop-put (length bytes + 1) s.req s.req_prod bytes (omega arith) k,
)

wrote-wrote :
    (s : XbState) (a b : List ℕ) (n : ℕ) → wrote (wrote s a 1) b n ≡ wrote s (a ++ b) (suc n)
wrote-wrote s a b n =
    let first = (s.req_prod + length a) % 2 ^ 32 in
    let total : ℕ → List XbCall → XbState =
      λ p c. record s { req = put s.req s.req_prod (a ++ b); req_prod = p; calls = c } in
    ap
      (λ (r : ℕ → ℕ). record s {
        req = r;
        req_prod = (first + length b) % 2 ^ 32;
        calls = (s.calls ++ notify_port ∷ []) ++ replicate n notify_port;
      })
      (put_mask b (put s.req s.req_prod a) first (s.req_prod + length a) (omega arith)
        ∙ sym (put-append a b s.req s.req_prod))
    ∙ ap₂ total (omega (arith, length-append a b))
        (append_assoc s.calls (notify_port ∷ []) (replicate n notify_port))

write_all_lem :
    (rs : List (List ℕ)) (s : XbState)
    → total_len rs ≤ ring_size
    → s.req_prod < 2 ^ 32
    → write_all s rs ≡ some (wrote s (joined rs) (length rs))
unfolding write_all total_len joined put
write_all_lem [] s h k =
    ap₂ (λ p c. some (record s { req_prod = p; calls = c })) (omega arith)
      (sym (append-nil s.calls))
write_all_lem (r ∷ rs) s h k =
    ap (λ m. m >>= λ t. write_all t rs) (xb_write_lem s r (omega arith) k)
    ∙ write_all_lem rs (wrote s r 1) (omega arith) (omega arith)
    ∙ ap some (wrote-wrote s r (joined rs) (length rs))

-- What a request leaves behind.
pub record Sent (s : XbState) (bytes : List ℕ) (t : XbState) : Type 0 where
  pub read_back : memcpy_from_ring t.req (mask_idx s.req_prod) (length bytes) ≡ bytes
  pub req_prod : t.req_prod ≡ (s.req_prod + length bytes) % 2 ^ 32
  pub kept :
      (j : ℕ) → ((k : ℕ) → k < length bytes → mask_idx (s.req_prod + k) ≢ j) → t.req j ≡ s.req j
  pub received : (t.rsp ≡ s.rsp) × (t.rsp_cons ≡ s.rsp_cons)
  pub reply : (t.xb_msg ≡ s.xb_msg) × (t.xb_reply ≡ s.xb_reply)

wrote-Sent :
    (s : XbState) (bytes : List ℕ) (n : ℕ)
    → length bytes ≤ ring_size
    → Sent s bytes (wrote s bytes n)
wrote-Sent s bytes n h = record {
  read_back =
      memcpy_from_ring-fetch (put s.req s.req_prod bytes) s.req_prod (length bytes) h
      ∙ fetch-put bytes s.req s.req_prod h;
  req_prod = refl;
  kept = λ j out. put_outside bytes s.req s.req_prod j out;
  received = (refl, refl);
  reply = (refl, refl);
}

-- A request whose header and parts fit in the ring is written without a failed assertion, wherever
-- the producer index stands and whether or not the bytes go round the end of the ring: what the
-- other side copies out from the old index is the header followed by the parts, the index moves on by
-- as much, modulo 2^32, and no other byte of the ring changes. The header gives the length of the
-- parts, and each piece written is followed by one notification.
pub send_request-Sent :
    (s : XbState) (type trans_id : ℕ) (req : List (List ℕ))
    → sizeof_sockmsg + total_len req ≤ ring_size
    → s.req_prod < 2 ^ 32
    → let bytes =
        encode (record { type = type; tx_id = trans_id; len = total_len req }) ++ joined req in
      (t : XbState) × (send_request s type trans_id req ≡ some t)
      × Sent s bytes t
      × (t.calls ≡ s.calls ++ replicate (suc (length req)) notify_port)
unfolding send_request encode le32
send_request-Sent s type trans_id req h k =
    let head : Header = record { type = type; tx_id = trans_id; len = total_len req } in
    let cut : total_len req % 2 ^ 32 ≡ total_len req = omega arith in
    let bytes = encode head ++ joined req in
    let size : length bytes ≤ ring_size =
      omega
        (arith, length-append (encode head) (joined req), length-joined req, length-encode head) in
    (
      wrote s bytes (suc (length req)),
      ap
            (λ n. xb_write s (encode (record { type = type; tx_id = trans_id; len = n })) >>= λ t.
              write_all t req)
            cut
          ∙ ap (λ m. m >>= λ t. write_all t req)
              (xb_write_lem s (encode head) (omega (arith, length-encode head)) k)
          ∙ write_all_lem req (wrote s (encode head) 1) (omega arith) (omega arith)
          ∙ ap some (wrote-wrote s (encode head) (joined req) (length req)),
      wrote-Sent s bytes (suc (length req)) size,
      refl,
    )
  where
    length-encode : (h : Header) → length (encode h) ≡ sizeof_sockmsg
    length-encode h = refl
