-- ===== src/Net/Short.antt =====
-- What the parser does with a packet that is shorter than its headers.
use win_pvdrivers_mirror.Net.{Cursor, Frame}
use win_pvdrivers_mirror.Net.Header.{page_size}
use win_pvdrivers_mirror.Net.Gather.{Mapped}
use win_pvdrivers_mirror.Net.Built.{Ready, build_header-Built}
use win_pvdrivers_mirror.Net.Fields.{Sound, require_lem, require_if_lem}
use win_pvdrivers_mirror.Net.Parse.{
  ParseResult, Fields, get_net_long, clear_fields, give_up, require, lengths, parse_lengths,
  note_tcp, parse_tcp, note_proto, parse_proto, parse_ip, is_broadcast_addr, note_destination,
  parse_ethernet, parse_frame, parse_packet_header,
}
use win_pvdrivers_mirror.IpSum.{xn_hdr_size, get_net}
use win_pvdrivers_mirror.Base.{
  ℕ, ◌+◌, ◌*◌, ◌/◌, ◌%◌, ◌≤◌, ◌≡◌, ◌≢◌, refl, ap, ◌∙◌, Bool, true, false, ◌||◌, Option, some, List,
  ltb, ◌==◌, if◌then◌else◌, length, All, arith, ◌>>=◌,
}

-- The run ends, and not with `PARSE_TOO_SMALL`.
abbrev Settled : Option (Fields × Cursor) → Type 0
Settled run =
    (f : Fields) × (d : Cursor) × (run ≡ some (f, d))
    × (f.parse_result ≢ ParseResult.parse_too_small)

ends_at : {run run' : Option (Fields × Cursor)} → run ≡ run' → Settled run' → Settled run
ends_at e (f, d, run, ne) = (f, d, e ∙ run, ne)

ends_if :
    (t : Bool) {x y : Option (Fields × Cursor)}
    → Settled x
    → Settled y
    → Settled (if t then x else y)
ends_if true l r = l
ends_if false l r = r

unknown : (f : Fields) (d : Cursor) → Settled (some (give_up ParseResult.parse_unknown_type f, d))
unknown f d = (give_up ParseResult.parse_unknown_type f, d, refl, λ e. absurd (cc))

module _ (packet : List ℕ) (fr : Frame) (enough : fr.total_length ≤ length packet) where
  parse_lengths-Settled : (mss : ℕ) (f : Fields) (c : Cursor) → Settled (parse_lengths fr mss f c)
  unfolding parse_lengths
  parse_lengths-Settled mss f c =
      ends_if (ltb fr.total_length (xn_hdr_size + f.ip4_length)) (unknown f c) (
        lengths mss (get_net_long c.header (xn_hdr_size + f.ip4_header_length + 4)) f,
        c,
        refl,
        λ e. absurd (cc),
      )

  parse_tcp-Settled :
      (mss v : ℕ) (f : Fields) (c : Cursor)
      → Sound packet fr enough c
      → f.ip4_header_length ≤ 60
      → Settled (parse_tcp fr mss v f c)
  unfolding parse_tcp
  parse_tcp-Settled mss v f c sound small =
      let g : Fields = note_tcp v f in
      let (d, run, sound', longer, reach) =
        require_if_lem packet fr enough (xn_hdr_size + g.ip4_header_length + g.tcp_header_length)
          (xn_hdr_size + g.ip4_header_length + 20) g (parse_lengths fr mss g) c sound
          (omega arith) in
      ends_at run (parse_lengths-Settled mss g d)

  parse_proto-Settled :
      (mss proto len : ℕ) (f : Fields) (c : Cursor)
      → Sound packet fr enough c
      → f.ip4_header_length ≤ 60
      → Settled (parse_proto fr mss proto len f c)
  unfolding parse_proto
  parse_proto-Settled mss proto len f c sound small =
      let g : Fields = note_proto proto len f in
      ends_if ((proto == 6) || (proto == 17))
        (parse_tcp-Settled mss (c.header (xn_hdr_size + g.ip4_header_length + 12)) g c sound small)
        (unknown g c)

  parse_ip-Settled :
      (mss first : ℕ) (f : Fields) (c : Cursor)
      → Sound packet fr enough c
      → Settled (parse_ip fr mss first f c)
  unfolding parse_ip
  parse_ip-Settled mss first f c sound =
      let size : ℕ = xn_hdr_size + first % 16 * 4 + 20 in
      let k : Fields = record f {
        ip_version = first / 16 % 16;
        ip4_header_length = first % 16 * 4;
      } in
      let (d, run, sound', longer, reach) =
        require_if_lem packet fr enough size size k
          (λ d.
            parse_proto fr mss (d.header (xn_hdr_size + 9)) (get_net d.header (xn_hdr_size + 2)) k
              d)
          c sound (omega arith) in
      ends_if (first / 16 % 16 == 4)
        (ends_at run
          (parse_proto-Settled mss (d.header 23) (get_net d.header 16) k d sound' (omega arith)))
        (unknown (record f { ip_version = first / 16 % 16 }) c)

  parse_ethernet-Settled :
      (mss ethertype : ℕ) (f : Fields) (c : Cursor)
      → Sound packet fr enough c
      → Settled (parse_ethernet fr mss ethertype f c)
  unfolding parse_ethernet
  parse_ethernet-Settled mss ethertype f c sound =
      let (d, run, sound', longer, reach) =
        require_if_lem packet fr enough (xn_hdr_size + 20) (xn_hdr_size + 20) f
          (λ d. parse_ip fr mss (d.header xn_hdr_size) f d) c sound (omega arith) in
      ends_if (ethertype == 2048)
        (ends_at run (parse_ip-Settled mss (d.header xn_hdr_size) f d sound')) (unknown f c)

  -- `XenNet_ParsePacketHeader`, asked for a header of at most a page, on a packet of any length of
  -- which the header is a front and the buffers, mapped, hold the rest: it ends, and never with
  -- `PARSE_TOO_SMALL`.
  pub parse_packet_header-never_too_small :
      (mss min_header_size : ℕ) (old : Fields) (c : Cursor)
      → Ready packet fr c
      → All Mapped c.mdls
      → min_header_size ≤ page_size
      → (f : Fields) × (d : Cursor) × (parse_packet_header fr mss min_header_size old c
          ≡ some (f, d))
        × (f.parse_result ≢ ParseResult.parse_too_small)
  unfolding parse_packet_header
  parse_packet_header-never_too_small mss min_header_size old c ready mapped page =
      let ((ok, d), run, made) = build_header-Built packet fr c min_header_size ready (λ e. page) in
      let done : ok ≡ true = made.complete mapped enough in
      let (d', run', sound, len) =
        require_lem packet fr enough xn_hdr_size f (parse_frame fr mss f) d
          ((made.cut, made.ready done), made.mapped mapped) (omega arith) in
      ends_at (ap then_require run ∙ run') (
        parse_ethernet-Settled mss (get_net d'.header 12)
          (note_destination (is_broadcast_addr d'.header) (d'.header 0 % 2 == 1) f) d' sound)
    where
      f : Fields
      f = clear_fields old

      then_require : Option (Bool × Cursor) → Option (Fields × Cursor)
      then_require o = o >>= λ b. require fr xn_hdr_size f (parse_frame fr mss f) b.1
