-- ===== src/Net/Fields.antt =====
-- The parser reads the packet itself: neither the way the packet is cut into buffers nor the size of
-- the header asked for changes what it finds.
use win_pvdrivers_mirror.Net.{Cursor, Frame}
use win_pvdrivers_mirror.Net.Header.{page_size}
use win_pvdrivers_mirror.Net.Gather.{Mapped}
use win_pvdrivers_mirror.Net.Built.{Ready, build_header-Built}
use win_pvdrivers_mirror.Net.Parse.{
  ParseResult, Fields, Parser, get_net_long, clear_fields, give_up, decide, require, require_if,
  lengths, parse_lengths, note_tcp, parse_tcp, note_proto, parse_proto, parse_ip, is_broadcast_addr,
  note_destination, parse_ethernet, parse_frame, parse_packet_header,
}
use win_pvdrivers_mirror.IpSum.{xn_hdr_size, get_net}
use win_pvdrivers_mirror.Base.{
  ℕ, ◌+◌, ◌*◌, ◌/◌, ◌%◌, ◌^◌, ◌≤◌, ◌<◌, ◌≡◌, refl, ap, ap₂, ◌∙◌, inl, inr, min, max, Bool, true,
  false, ◌||◌, Option, some, List, ltb, ◌-◌, not, ◌&&◌, ◌==◌, ==_iff, if◌then◌else◌, length, get_or,
  All, Bool-cases, arith, ◌>>=◌,
}

-- Numbers of 16 and 32 bits in network order.
abbrev word : (ℕ → ℕ) → ℕ → ℕ
word b i = b i * 256 + b (i + 1)

abbrev long_word : (ℕ → ℕ) → ℕ → ℕ
long_word b i = word b i * 65536 + word b (i + 2)

-- The parser gives up, with the fields that it has read so far.
abbrev unknown_type : Fields → Fields
unknown_type f = record f { parse_result = ParseResult.parse_unknown_type }

-- The fields by the bytes `b` of a packet of `total` bytes, from the TCP header on. The length of the TCP
-- data is that of the IPv4 packet less both headers, modulo 2^16.
abbrev pub tcp_fields : (ℕ → ℕ) → (total mss : ℕ) → Fields → Fields
tcp_fields b total mss f =
    let size = b (14 + f.ip4_header_length + 12) / 16 % 16 * 4 in
    let data_length = (f.ip4_length + 65536 - f.ip4_header_length - size) % 65536 in
    let g = record f { tcp_header_length = size } in
    if ltb total (14 + f.ip4_length) then unknown_type g else record g {
      tcp_length = data_length;
      tcp_remaining = data_length;
      tcp_seq = long_word b (14 + f.ip4_header_length + 4);
      tcp_has_options = ltb 20 size;
      split_required = (ltb 0 mss && ltb mss data_length) || f.split_required;
      parse_result = ParseResult.parse_ok;
    }

-- From the IPv4 header on: the protocol must be TCP or UDP.
abbrev pub proto_fields : (ℕ → ℕ) → (total mss : ℕ) → Fields → Fields
proto_fields b total mss f =
    let g = record f {
      ip_proto = b 23;
      ip4_length = word b 16;
      ip_has_options = ltb 20 f.ip4_header_length;
    } in
    if (b 23 == 6) || (b 23 == 17) then tcp_fields b total mss g else unknown_type g

abbrev pub ip_fields : (ℕ → ℕ) → (total mss : ℕ) → Fields → Fields
ip_fields b total mss f =
    let g = record f { ip_version = b 14 / 16 % 16 } in
    if b 14 / 16 % 16 == 4
    then proto_fields b total mss (record g { ip4_header_length = b 14 % 16 * 4 })
    else unknown_type g

-- Six bytes of 255.
abbrev to_all : (ℕ → ℕ) → Bool
to_all b =
    (b 0 == 255) && (b 1 == 255) && (b 2 == 255) && (b 3 == 255) && (b 4 == 255) && (b 5 == 255)

-- The whole packet.
abbrev pub frame_fields : (ℕ → ℕ) → (total mss : ℕ) → Fields → Fields
frame_fields b total mss old =
    let f = record old {
      split_required = false;
      ip_version = 0;
      ip_proto = 0;
      ip4_header_length = 0;
      ip4_length = 0;
      tcp_header_length = 0;
      tcp_length = 0;
      is_broadcast = to_all b || old.is_broadcast;
      is_multicast = (not (to_all b) && (b 0 % 2 == 1)) || old.is_multicast;
    } in
    if word b 12 == 2048 then ip_fields b total mss f else unknown_type f

abbrev pub byte_of : List ℕ → ℕ → ℕ
byte_of packet i = get_or packet i 0

-- The packet has the headers that its fields announce: an Ethernet header, and behind the number of
-- IPv4 an IPv4 header with its options and the first 20 bytes of what follows.
abbrev pub HasHeaders : List ℕ → ℕ → Type 0
HasHeaders packet total =
    (14 ≤ total) × (get_net (byte_of packet) 12 ≡ 2048 → 34 + byte_of packet 14 % 16 * 4 ≤ total)

is_broadcast_addr_at :
    (g h : ℕ → ℕ) → ((i : ℕ) → i < 6 → g i ≡ h i) → is_broadcast_addr g ≡ is_broadcast_addr h
is_broadcast_addr_at g h e = rw (
  e 0 (omega arith),
  e 1 (omega arith),
  e 2 (omega arith),
  e 3 (omega arith),
  e 4 (omega arith),
  e 5 (omega arith),
)

module _ (packet : List ℕ) (fr : Frame) (enough : fr.total_length ≤ length packet) where
  abbrev pub Sound : Cursor → Type 0
  Sound c = Ready packet fr c × All Mapped c.mdls

  abbrev b : ℕ → ℕ
  b = byte_of packet

  -- The run ends with these fields.
  abbrev Gives : Option (Fields × Cursor) → Fields → Type 0
  Gives run f = (d : Cursor) × (run ≡ some (f, d)) × Ready packet fr d

  ends_at :
      {run run' : Option (Fields × Cursor)} {f : Fields} → run ≡ run' → Gives run' f → Gives run f
  ends_at e (d, run, r) = (d, e ∙ run, r)

  pub require_lem :
      (size : ℕ) (f : Fields) (next : Parser) (c : Cursor)
      → Sound c
      → size ≤ page_size
      → (d : Cursor) × (require fr size f next c ≡ next d)
        × Sound d
        × (d.header_length ≡ max c.header_length (min size fr.total_length))
  unfolding decide
  require_lem size f next c (ready, mapped) page =
      let ((ok, d), run, made) = build_header-Built packet fr c size ready (λ e. page) in
      let done : ok ≡ true = made.complete mapped enough in
      (
        d,
        ap (λ r. r >>= decide f next) run ∙ ap (λ b. decide f next (b, d)) done,
        ((made.cut, made.ready done), made.mapped mapped),
        made.exact done,
      )

  pub require_if_lem :
      (limit size : ℕ) (f : Fields) (next : Parser) (c : Cursor)
      → Sound c
      → size ≤ page_size
      → (d : Cursor) × (require_if fr limit size f next c ≡ next d)
        × Sound d
        × (c.header_length ≤ d.header_length)
        × (limit ≤ size → size ≤ fr.total_length → limit ≤ d.header_length)
  unfolding require_if
  require_if_lem limit size f next c sound page = elim (Bool-cases (ltb c.header_length limit)) [
    | inl e ↦
        let (d, run, sound, len) = require_lem size f next c sound page in
        (d, ap pick e ∙ run, sound, omega (arith, len), λ a b. omega (arith, len))
    | inr e ↦ (c, ap pick e, sound, omega arith, λ a b. ground arith)
  ]
    where
      pick : Bool → Option (Fields × Cursor)
      pick b = if b then require fr size f next c else next c

  ends_if :
      (t : Bool) {x y : Option (Fields × Cursor)} {f g : Fields}
      → (t ≡ true → Gives x f)
      → (t ≡ false → Gives y g)
      → Gives (if t then x else y) (if t then f else g)
  ends_if true l r = l refl
  ends_if false l r = r refl

  stops_here : (f : Fields) (c : Cursor) → Sound c → Gives (some (f, c)) f
  stops_here f c sound = (c, refl, sound.0)

  -- What is read from the header stands in the packet.
  read_byte : (c : Cursor) → Sound c → (i : ℕ) → i < c.header_length → c.header i ≡ b i
  read_byte c sound i l = sound.0.0.read i l

  read_net :
      (c : Cursor) → Sound c → (i : ℕ) → i + 1 < c.header_length → get_net c.header i ≡ get_net b i
  read_net c sound i l =
      ap₂ (λ x y. x * 256 + y) (read_byte c sound i (omega arith)) (read_byte c sound (i + 1) l)

  read_net_long :
      (c : Cursor)
      → Sound c
      → (i : ℕ) → i + 3 < c.header_length
      → get_net_long c.header i ≡ get_net_long b i
  read_net_long c sound i l =
      ap₂ (λ x y. x * 2 ^ 16 + y) (read_net c sound i (omega arith))
        (read_net c sound (i + 2) (omega arith))

  parse_lengths_lem :
      (mss : ℕ) (f : Fields) (c : Cursor)
      → Sound c
      → 14 + f.ip4_header_length + 20 ≤ c.header_length
      → Gives (parse_lengths fr mss f c) (
          if ltb fr.total_length (xn_hdr_size + f.ip4_length)
          then give_up ParseResult.parse_unknown_type f
          else lengths mss (get_net_long b (xn_hdr_size + f.ip4_header_length + 4)) f)
  unfolding parse_lengths
  parse_lengths_lem mss f c sound l =
      ends_if (ltb fr.total_length (xn_hdr_size + f.ip4_length)) (λ e. stops_here _ c sound)
        (λ e.
          ends_at
            (ap (λ n. some (lengths mss n f, c))
              (read_net_long c sound (xn_hdr_size + f.ip4_header_length + 4) (omega arith)))
            (stops_here _ c sound))

  parse_tcp_lem :
      (mss : ℕ) (f : Fields) (c : Cursor)
      → Sound c
      → 14 + f.ip4_header_length + 20 ≤ c.header_length
      → f.ip4_header_length ≤ 60
      → Gives
          (parse_tcp fr mss (b (xn_hdr_size + f.ip4_header_length + 12)) f c)
          (tcp_fields b fr.total_length mss f)
  unfolding parse_tcp
  parse_tcp_lem mss f c sound l small =
      let (d, run, sound', longer, _) =
        require_if_lem (xn_hdr_size + g.ip4_header_length + g.tcp_header_length)
          (xn_hdr_size + g.ip4_header_length + 20) g (parse_lengths fr mss g) c sound
          (omega arith) in
      ends_at run (parse_lengths_lem mss g d sound' (omega arith))
    where
      g : Fields
      g = note_tcp (b (xn_hdr_size + f.ip4_header_length + 12)) f

  parse_proto_lem :
      (mss : ℕ) (f : Fields) (c : Cursor)
      → Sound c
      → 14 + f.ip4_header_length + 20 ≤ c.header_length
      → f.ip4_header_length ≤ 60
      → Gives (parse_proto fr mss (b 23) (get_net b 16) f c) (proto_fields b fr.total_length mss f)
  unfolding parse_proto
  parse_proto_lem mss f c sound l small =
      ends_if ((b 23 == 6) || (b 23 == 17))
        (λ e.
          ends_at
            (ap (λ v. parse_tcp fr mss v g c)
              (read_byte c sound (xn_hdr_size + g.ip4_header_length + 12) (omega arith)))
            (parse_tcp_lem mss g c sound l small))
        (λ e. stops_here _ c sound)
    where
      g : Fields
      g = note_proto (b 23) (get_net b 16) f

  parse_ip_lem :
      (mss : ℕ) (f : Fields) (c : Cursor)
      → Sound c
      → 34 + b 14 % 16 * 4 ≤ fr.total_length
      → Gives (parse_ip fr mss (b 14) f c) (ip_fields b fr.total_length mss f)
  unfolding parse_ip
  parse_ip_lem mss f c sound has =
      ends_if (b 14 / 16 % 16 == 4) (λ e. with_options) (λ e. stops_here _ c sound)
    where
      k : Fields
      k = record f { ip_version = b 14 / 16 % 16; ip4_header_length = b 14 % 16 * 4 }

      size : ℕ
      size = xn_hdr_size + b 14 % 16 * 4 + 20

      next : Parser
      next d =
          parse_proto fr mss (d.header (xn_hdr_size + 9)) (get_net d.header (xn_hdr_size + 2)) k d

      with_options : Gives (require_if fr size size k next c) (proto_fields b fr.total_length mss k)
      with_options =
          let (d, run, sound', longer, reach) =
            require_if_lem size size k next c sound (omega arith) in
          let long : size ≤ d.header_length = reach (omega arith) (omega (arith, has)) in
          ends_at
            (run
              ∙ ap₂ (λ v l. parse_proto fr mss v l k d) (read_byte d sound' 23 (omega arith))
                  (read_net d sound' 16 (omega arith)))
            (parse_proto_lem mss k d sound' long (omega arith))

  parse_ethernet_lem :
      (mss : ℕ) (f : Fields) (c : Cursor)
      → Sound c
      → (get_net b 12 ≡ 2048 → 34 + b 14 % 16 * 4 ≤ fr.total_length)
      → Gives (parse_ethernet fr mss (get_net b 12) f c) (
          if get_net b 12 == 2048
          then ip_fields b fr.total_length mss f
          else give_up ParseResult.parse_unknown_type f)
  unfolding parse_ethernet
  parse_ethernet_lem mss f c sound has =
      ends_if (get_net b 12 == 2048) (λ e. with_ip (has ((==_iff _ _).0 e)))
        (λ e. stops_here _ c sound)
    where
      next : Parser
      next d = parse_ip fr mss (d.header xn_hdr_size) f d

      with_ip :
          34 + b 14 % 16 * 4 ≤ fr.total_length
          → Gives
              (require_if fr (xn_hdr_size + 20) (xn_hdr_size + 20) f next c)
              (ip_fields b fr.total_length mss f)
      with_ip l =
          let (d, run, sound', longer, reach) =
            require_if_lem (xn_hdr_size + 20) (xn_hdr_size + 20) f next c sound (omega arith) in
          let long : 34 ≤ d.header_length = reach (omega arith) (omega (arith, l)) in
          ends_at (run ∙ ap (λ v. parse_ip fr mss v f d) (read_byte d sound' 14 (omega arith)))
            (parse_ip_lem mss f d sound' l)

  -- `XenNet_ParsePacketHeader`, asked for a header of at most a page, on a packet of which the header
  -- is a front and the buffers, mapped, hold the rest, with its Ethernet header and, where that
  -- announces IPv4, its IPv4 header and 20 bytes behind it: it ends without a failed assertion, and its
  -- fields are those of the packet's bytes, however the packet is cut into buffers and whatever the
  -- size asked for up to a page.
  pub parse_packet_header-frame_fields :
      (mss min_header_size : ℕ) (old : Fields) (c : Cursor)
      → Ready packet fr c
      → All Mapped c.mdls
      → min_header_size ≤ page_size
      → HasHeaders packet fr.total_length
      → (d : Cursor) × (parse_packet_header fr mss min_header_size old c
          ≡ some (frame_fields (byte_of packet) fr.total_length mss old, d))
        × Ready packet fr d
  unfolding parse_packet_header
  parse_packet_header-frame_fields mss min_header_size old c ready mapped page has =
      let ((ok, d), run, made) = build_header-Built packet fr c min_header_size ready (λ e. page) in
      let done : ok ≡ true = made.complete mapped enough in
      let (d', run', sound, len) =
        require_lem xn_hdr_size f (parse_frame fr mss f) d
          ((made.cut, made.ready done), made.mapped mapped) (omega arith) in
      let long : 14 ≤ d'.header_length = omega (arith, len, has.0) in
      ends_at (ap then_require run ∙ run' ∙ reads d' sound long) (
        parse_ethernet_lem mss (note_destination (is_broadcast_addr b) (b 0 % 2 == 1) f) d' sound
          has.1)
    where
      f : Fields
      f = clear_fields old

      then_require : Option (Bool × Cursor) → Option (Fields × Cursor)
      then_require o = o >>= λ b. require fr xn_hdr_size f (parse_frame fr mss f) b.1

      reads :
          (d : Cursor)
          → Sound d
          → 14 ≤ d.header_length
          → parse_frame fr mss f d
            ≡ parse_ethernet fr mss
                (get_net b 12)
                (note_destination (is_broadcast_addr b) (b 0 % 2 == 1) f)
                d
      reads d sound l =
          ap
            (λ v.
              parse_ethernet fr mss v
                (note_destination (is_broadcast_addr d.header) (d.header 0 % 2 == 1) f) d)
            (read_net d sound 12 (omega arith))
          ∙ ap₂ (λ x y. parse_ethernet fr mss (get_net b 12) (note_destination x y f) d)
              (is_broadcast_addr_at d.header b λ i k. read_byte d sound i (omega arith))
              (ap (λ v. v % 2 == 1) (read_byte d sound 0 (omega arith)))
