-- ===== src/Net/Filter.antt =====
-- `XenNet_FilterAcceptPacket`: which packets are handed to the system, by their destination.
use win_pvdrivers_mirror.Base.{
  ℕ, zero, suc, ◌+◌, ◌<◌, ◌≡◌, ◌≢◌, ◌↔◌, ◌⊎◌, refl, ap, sym, ◌∙◌, inl, inr, Bool, true, false, not,
  ◌&&◌, bit_and, ltb, ltb→lt, lt→ltb, ◌==◌, ==_iff, ==_ne, ne-of_==, subst, if◌then◌else◌,
  Bool-cases, arith,
}

-- The bits `NDIS_PACKET_TYPE_*`, which the system defines.
pub record PacketTypes : Type 0 where
  pub directed : ℕ
  pub multicast : ℕ
  pub all_multicast : ℕ
  pub broadcast : ℕ
  pub promiscuous : ℕ

-- The fields of `struct xennet_info` that the filter reads.
pub record FilterState : Type 0 where
  pub packet_filter : ℕ
  pub curr_mac_addr : ℕ → ℕ
  pub multicast_list : ℕ → ℕ → ℕ
  pub multicast_list_size : ℕ

-- `memcmp(a, b, n) == 0`
unfoldable pub mem_equal : (n : ℕ) → (a b : ℕ → ℕ) → Bool
mem_equal zero a b = true
mem_equal (suc n) a b = (a n == b n) && mem_equal n a b

-- The search of the multicast list from the entry `i` on, `n` of which are left: where it stops.
unfoldable pub search_list : (n i : ℕ) → (ℕ → ℕ → ℕ) → (ℕ → ℕ) → ℕ
search_list zero i entries header = i
search_list (suc n) i entries header =
    let later = search_list n (i + 1) entries header in
    if mem_equal 6 (entries i) header then i else later

abbrev pub has_type : FilterState → ℕ → Bool
has_type xi bits = not (bit_and xi.packet_filter bits == 0)

abbrev pub is_directed : FilterState → (ℕ → ℕ) → Bool
is_directed xi header = mem_equal 6 xi.curr_mac_addr header

abbrev pub is_my_multicast : FilterState → (is_multicast : Bool) → (ℕ → ℕ) → Bool
is_my_multicast xi is_multicast header =
    not (is_directed xi header)
    && (is_multicast
        && ltb (search_list xi.multicast_list_size 0 xi.multicast_list header)
            xi.multicast_list_size)

-- `XenNet_FilterAcceptPacket`
unfoldable pub filter_accept_packet :
    PacketTypes → FilterState → (is_multicast is_broadcast : Bool) → (ℕ → ℕ) → Bool
filter_accept_packet types xi is_multicast is_broadcast header =
    if is_directed xi header && has_type xi types.directed
    then true
    else (if is_my_multicast xi is_multicast header && has_type xi types.multicast
        then true
        else (if is_multicast && has_type xi types.all_multicast
            then true
            else (if is_broadcast && has_type xi types.broadcast
                then true
                else (if has_type xi types.promiscuous then true else false))))

both : {a b : Bool} → a ≡ true → b ≡ true → (a && b) ≡ true
both x y = ground arith

-- Two addresses are the same.
abbrev pub SameAddr : (ℕ → ℕ) → (ℕ → ℕ) → Type 0
SameAddr a b = (k : ℕ) → k < 6 → a k ≡ b k

-- The filter has one of these bits.
abbrev pub Wants : FilterState → ℕ → Type 0
Wants xi bits = bit_and xi.packet_filter bits ≢ 0

-- The packets that pass: to this station, to a group in the list, to any group, to all, or any.
abbrev pub Passes :
    PacketTypes → FilterState → (is_multicast is_broadcast : Bool) → (ℕ → ℕ) → Type 0
Passes types xi is_multicast is_broadcast header =
    (SameAddr xi.curr_mac_addr header × Wants xi types.directed)
    ⊎ (((SameAddr xi.curr_mac_addr header → ⊥)
          × (is_multicast ≡ true)
          × ((i : ℕ) × (i < xi.multicast_list_size) × SameAddr (xi.multicast_list i) header)
          × Wants xi types.multicast)
        ⊎ (((is_multicast ≡ true) × Wants xi types.all_multicast)
            ⊎ (((is_broadcast ≡ true) × Wants xi types.broadcast) ⊎ Wants xi types.promiscuous)))

mem_equal→same : (n : ℕ) (a b : ℕ → ℕ) → mem_equal n a b ≡ true → (k : ℕ) → k < n → a k ≡ b k
unfolding mem_equal
mem_equal→same zero a b e k l = absurd (omega arith)
mem_equal→same (suc n) a b e k l = elim (Bool-cases (k == n)) [
  | inl same ↦
      ap a ((==_iff k n).0 same)
      ∙ (==_iff (a n) (b n)).0 (ground arith)
      ∙ ap b (sym ((==_iff k n).0 same))
  | inr other ↦ mem_equal→same n a b (ground arith) k (omega (arith, ne-of_== other))
]

same→mem_equal : (n : ℕ) (a b : ℕ → ℕ) → ((k : ℕ) → k < n → a k ≡ b k) → mem_equal n a b ≡ true
unfolding mem_equal
same→mem_equal zero a b f = refl
same→mem_equal (suc n) a b f =
    both ((==_iff (a n) (b n)).1 (f n (omega arith)))
      (same→mem_equal n a b (λ k l. f k (omega arith)))

-- An address at the entry `i + j`, for `j` in another form.
move_addr :
    (entries : ℕ → ℕ → ℕ) (header : ℕ → ℕ) {i j : ℕ}
    → i ≡ j
    → SameAddr (entries i) header
    → SameAddr (entries j) header
move_addr entries header e = subst (λ i. SameAddr (entries i) header) e

-- The search stops in the list exactly where an entry matches.
search_list→entry :
    (n i : ℕ) (entries : ℕ → ℕ → ℕ) (header : ℕ → ℕ)
    → search_list n i entries header < i + n
    → (j : ℕ) × (j < n) × SameAddr (entries (i + j)) header
unfolding search_list
search_list→entry zero i entries header l = absurd (omega arith)
search_list→entry (suc n) i entries header l = elim (Bool-cases (mem_equal 6 (entries i) header)) [
  | inl e ↦ (
    0,
    omega arith,
    move_addr entries header (omega arith) (mem_equal→same 6 (entries i) header e),
  )
  | inr e ↦
      let (j, less, same) =
        search_list→entry n (i + 1) entries header
          (subst (λ x. x < i + 1 + n) (ap pick e) (omega (arith, l))) in
      (suc j, omega arith, move_addr entries header (omega arith) same)
]
  where
    pick : Bool → ℕ
    pick b = if b then i else search_list n (i + 1) entries header

entry→search_list :
    (n i : ℕ) (entries : ℕ → ℕ → ℕ) (header : ℕ → ℕ) (j : ℕ)
    → j < n
    → SameAddr (entries (i + j)) header
    → search_list n i entries header < i + n
unfolding search_list
entry→search_list zero i entries header j l same = absurd (omega arith)
entry→search_list (suc n) i entries header j l same =
    elim (Bool-cases (mem_equal 6 (entries i) header)) [
      | inl e ↦ subst (λ x. x < i + suc n) (sym (ap pick e)) (omega arith)
      | inr e ↦
          subst (λ x. x < i + suc n) (sym (ap pick e))
            (later e j l same (λ j l same. entry→search_list n (i + 1) entries header j l same))
    ]
  where
    pick : Bool → ℕ
    pick b = if b then i else search_list n (i + 1) entries header

    later :
        mem_equal 6 (entries i) header ≡ false
        → (j : ℕ) → j < suc n
        → SameAddr (entries (i + j)) header
        → ((j : ℕ)
            → j < n
            → SameAddr (entries (i + 1 + j)) header
            → search_list n (i + 1) entries header < i + 1 + n)
        → search_list n (i + 1) entries header < i + suc n
    later e zero l same ih =
        absurd
          (cc (same→mem_equal 6 (entries i) header (move_addr entries header (omega arith) same)))
    later e (suc j) l same ih =
        omega (arith, ih j (omega arith) (move_addr entries header (omega arith) same))

-- The filter's tests, one after the other.
abbrev tests : Bool → Bool → Bool → Bool → Bool → Bool
tests a b c d e =
    if a
    then true
    else (if b
        then true
        else (if c then true else (if d then true else (if e then true else false))))

abbrev OneOf : Bool → Bool → Bool → Bool → Bool → Type 0
OneOf a b c d e = (a ≡ true) ⊎ ((b ≡ true) ⊎ ((c ≡ true) ⊎ ((d ≡ true) ⊎ (e ≡ true))))

tests→one : (a b c d e : Bool) → tests a b c d e ≡ true → OneOf a b c d e
tests→one true b c d e h = inl refl
tests→one false true c d e h = inr (inl refl)
tests→one false false true d e h = inr (inr (inl refl))
tests→one false false false true e h = inr (inr (inr (inl refl)))
tests→one false false false false true h = inr (inr (inr (inr refl)))
tests→one false false false false false h = absurd (cc)

one→tests : (a b c d e : Bool) → OneOf a b c d e → tests a b c d e ≡ true
one→tests true b c d e o = refl
one→tests false true c d e o = refl
one→tests false false true d e o = refl
one→tests false false false true e o = refl
one→tests false false false false true o = refl
one→tests false false false false false o = absurd (ground arith)

and_iff : {a b : Bool} → ((a && b) ≡ true) ↔ ((a ≡ true) × (b ≡ true))
and_iff {a} {b} = (parts a b, λ h. both h.0 h.1)
  where
    parts : (a b : Bool) → (a && b) ≡ true → (a ≡ true) × (b ≡ true)
    parts true b h = (refl, h)
    parts false b h = absurd (cc)

not_iff : {a : Bool} → (not a ≡ true) ↔ (a ≡ false)
not_iff {a} = (there a, back a)
  where
    there : (a : Bool) → not a ≡ true → a ≡ false
    there true h = absurd (cc)
    there false h = refl

    back : (a : Bool) → a ≡ false → not a ≡ true
    back true h = absurd (cc)
    back false h = refl

module _ (xi : FilterState) (header : ℕ → ℕ) where
  wants : (bits : ℕ) → (has_type xi bits ≡ true) ↔ Wants xi bits
  wants bits = ((λ e. ne-of_== (not_iff.0 e)), λ ne. not_iff.1 (==_ne ne))

  directed_not : (is_directed xi header ≡ false) ↔ (SameAddr xi.curr_mac_addr header → ⊥)
  directed_not = (
    (λ e same. absurd (cc (same→mem_equal 6 xi.curr_mac_addr header same))),
    λ ne. elim (Bool-cases (is_directed xi header)) [
      | inl e ↦ absurd (ne (mem_equal→same 6 xi.curr_mac_addr header e))
      | inr e ↦ e
    ],
  )

  group_of :
      (is_multicast : Bool)
      → (is_my_multicast xi is_multicast header ≡ true) ↔ (
          (SameAddr xi.curr_mac_addr header → ⊥)
          × (is_multicast ≡ true)
          × ((i : ℕ) × (i < xi.multicast_list_size) × SameAddr (xi.multicast_list i) header))
  group_of m = (there, back)
    where
      size : ℕ
      size = xi.multicast_list_size

      found : ℕ
      found = search_list size 0 xi.multicast_list header

      there :
          is_my_multicast xi m header ≡ true
          → (SameAddr xi.curr_mac_addr header → ⊥)
            × (m ≡ true)
            × ((i : ℕ) × (i < size) × SameAddr (xi.multicast_list i) header)
      there e =
          let ac : (not (is_directed xi header) ≡ true) × ((m && ltb found size) ≡ true) =
            and_iff.0 e in
          let bl : (m ≡ true) × (ltb found size ≡ true) = and_iff.0 ac.1 in
          let (i, less, same) =
            search_list→entry size 0 xi.multicast_list header
              (omega (arith, ltb→lt found size bl.1)) in
          (
            directed_not.0 (not_iff.0 ac.0),
            bl.0,
            (i, less, move_addr xi.multicast_list header (omega arith) same),
          )

      back :
          (SameAddr xi.curr_mac_addr header → ⊥)
            × (m ≡ true)
            × ((i : ℕ) × (i < size) × SameAddr (xi.multicast_list i) header)
          → is_my_multicast xi m header ≡ true
      back (ne, b, (i, less, same)) = both (not_iff.1 (directed_not.1 ne)) (
          both b (
            lt→ltb found size (
              omega (
                arith,
                entry→search_list size 0 xi.multicast_list header i less
                    (move_addr xi.multicast_list header (omega arith) same),
              ))))

-- `XenNet_FilterAcceptPacket` accepts a packet exactly when it is for this station's address and
-- the filter has the bit for that, or else for a group in the multicast list, for any group, for
-- all stations, each with its bit, or the filter takes every packet.
pub filter_accept_packet-Passes :
    (types : PacketTypes) (xi : FilterState) (is_multicast is_broadcast : Bool) (header : ℕ → ℕ)
    → (filter_accept_packet types xi is_multicast is_broadcast header ≡ true)
      ↔ Passes types xi is_multicast is_broadcast header
unfolding filter_accept_packet
filter_accept_packet-Passes types xi m b header =
    ((λ e. accepted (tests→one t0 t1 t2 t3 t4 e)), λ p. one→tests t0 t1 t2 t3 t4 (passed p))
  where
    t0 : Bool
    t0 = is_directed xi header && has_type xi types.directed

    t1 : Bool
    t1 = is_my_multicast xi m header && has_type xi types.multicast

    t2 : Bool
    t2 = m && has_type xi types.all_multicast

    t3 : Bool
    t3 = b && has_type xi types.broadcast

    t4 : Bool
    t4 = has_type xi types.promiscuous

    want : (bits : ℕ) → (has_type xi bits ≡ true) ↔ Wants xi bits
    want = wants xi header

    accepted : OneOf t0 t1 t2 t3 t4 → Passes types xi m b header
    accepted (inl e) =
        let (x, y) = and_iff.0 e in inl (mem_equal→same 6 xi.curr_mac_addr header x, (want _).0 y)
    accepted (inr (inl e)) =
        let (x, y) = and_iff.0 e in
        let (ne, is_group, entry) = (group_of xi header m).0 x in
        inr (inl (ne, is_group, entry, (want _).0 y))
    accepted (inr (inr (inl e))) = let (x, y) = and_iff.0 e in inr (inr (inl (x, (want _).0 y)))
    accepted (inr (inr (inr (inl e)))) =
        let (x, y) = and_iff.0 e in inr (inr (inr (inl (x, (want _).0 y))))
    accepted (inr (inr (inr (inr e)))) = inr (inr (inr (inr ((want _).0 e))))

    passed : Passes types xi m b header → OneOf t0 t1 t2 t3 t4
    passed (inl (same, w)) =
        inl (both (same→mem_equal 6 xi.curr_mac_addr header same) ((want _).1 w))
    passed (inr (inl (ne, is_group, entry, w))) =
        inr (inl (both ((group_of xi header m).1 (ne, is_group, entry)) ((want _).1 w)))
    passed (inr (inr (inl (is_group, w)))) = inr (inr (inl (both is_group ((want _).1 w))))
    passed (inr (inr (inr (inl (to_all, w))))) = inr (inr (inr (inl (both to_all ((want _).1 w)))))
    passed (inr (inr (inr (inr w)))) = inr (inr (inr (inr ((want _).1 w))))
