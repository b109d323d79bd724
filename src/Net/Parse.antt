-- ===== src/Net/Parse.antt =====
-- `XenNet_ParsePacketHeader`: what the Ethernet, IPv4 and TCP headers of a packet say.
use win_pvdrivers_mirror.Net.{Cursor, Frame}
use win_pvdrivers_mirror.Net.Header.{build_header}
use win_pvdrivers_mirror.IpSum.{xn_hdr_size, get_net}
use win_pvdrivers_mirror.Base.{
  ℕ, ◌+◌, ◌-◌, ◌*◌, ◌/◌, ◌%◌, ◌^◌, Bool, true, false, not, ◌&&◌, ◌||◌, Option, some, ltb, ◌==◌,
  if◌then◌else◌, ◌>>=◌,
}

-- `PARSE_OK`, `PARSE_TOO_SMALL` and `PARSE_UNKNOWN_TYPE`
pub data ParseResult : Type 0 where
  parse_ok : ParseResult
  parse_too_small : ParseResult
  parse_unknown_type : ParseResult

-- The fields of `packet_info_t` that the parser sets.
pub record Fields : Type 0 where
  pub parse_result : ParseResult
  pub split_required : Bool
  pub ip_version : ℕ
  pub ip_proto : ℕ
  pub ip_has_options : Bool
  pub ip4_header_length : ℕ
  pub ip4_length : ℕ
  pub tcp_header_length : ℕ
  pub tcp_has_options : Bool
  pub tcp_length : ℕ
  pub tcp_remaining : ℕ
  pub tcp_seq : ℕ
  pub is_multicast : Bool
  pub is_broadcast : Bool

-- `GET_NET_PULONG` at an offset
abbrev pub get_net_long : (ℕ → ℕ) → ℕ → ℕ
get_net_long header off = get_net header off * 2 ^ 16 + get_net header (off + 2)

-- The fields that the parser clears first.
abbrev pub clear_fields : Fields → Fields
clear_fields f = record f {
  split_required = false;
  ip_version = 0;
  ip_proto = 0;
  ip4_header_length = 0;
  ip4_length = 0;
  tcp_header_length = 0;
  tcp_length = 0;
}

abbrev pub give_up : ParseResult → Fields → Fields
give_up result f = record f { parse_result = result }

abbrev pub Parser : Type 0
Parser = Cursor → Option (Fields × Cursor)

-- A call of `XenNet_BuildHeader` that must succeed: else the packet is too small.
unfoldable pub decide : Fields → Parser → Bool × Cursor → Option (Fields × Cursor)
decide f next (true, d) = next d
decide f next (false, d) = some (give_up ParseResult.parse_too_small f, d)

abbrev pub require : Frame → (size : ℕ) → Fields → Parser → Parser
require fr size f next c = build_header fr c size >>= decide f next

-- The call is made when the header is shorter than `limit`.
unfoldable pub require_if : Frame → (limit size : ℕ) → Fields → Parser → Parser
require_if fr limit size f next c =
    if ltb c.header_length limit then require fr size f next c else next c

-- The end, on the fields read so far and the TCP sequence number `seq`.
abbrev pub lengths : (mss seq : ℕ) → Fields → Fields
lengths mss seq f =
    let tcp_length = (f.ip4_length + 2 ^ 16 - f.ip4_header_length - f.tcp_header_length) % 2 ^ 16 in
    record f {
      tcp_length = tcp_length;
      tcp_remaining = tcp_length;
      tcp_seq = seq;
      tcp_has_options = ltb 20 f.tcp_header_length;
      split_required = (ltb 0 mss && ltb mss tcp_length) || f.split_required;
      parse_result = ParseResult.parse_ok;
    }

unfoldable pub parse_lengths : Frame → (mss : ℕ) → Fields → Parser
parse_lengths fr mss f c =
    if ltb fr.total_length (xn_hdr_size + f.ip4_length)
    then some (give_up ParseResult.parse_unknown_type f, c)
    else some (lengths mss (get_net_long c.header (xn_hdr_size + f.ip4_header_length + 4)) f, c)

-- The length of the TCP header, from the byte `data_offset`.
abbrev pub note_tcp : (data_offset : ℕ) → Fields → Fields
note_tcp data_offset f = record f { tcp_header_length = data_offset / 16 % 16 * 4 }

unfoldable pub parse_tcp : Frame → (mss data_offset : ℕ) → Fields → Parser
parse_tcp fr mss data_offset f c =
    let g = note_tcp data_offset f in
    require_if fr (xn_hdr_size + g.ip4_header_length + g.tcp_header_length)
      (xn_hdr_size + g.ip4_header_length + 20) g (parse_lengths fr mss g) c

-- The protocol must be TCP or UDP.
abbrev pub note_proto : (proto len : ℕ) → Fields → Fields
note_proto proto len f = record f {
  ip_proto = proto;
  ip4_length = len;
  ip_has_options = ltb 20 f.ip4_header_length;
}

unfoldable pub parse_proto : Frame → (mss proto len : ℕ) → Fields → Parser
parse_proto fr mss proto len f c =
    let g = note_proto proto len f in
    if (proto == 6) || (proto == 17)
    then parse_tcp fr mss (c.header (xn_hdr_size + g.ip4_header_length + 12)) g c
    else some (give_up ParseResult.parse_unknown_type g, c)

-- The version and the length of the IPv4 header, from its first byte.
unfoldable pub parse_ip : Frame → (mss first : ℕ) → Fields → Parser
parse_ip fr mss first f c =
    let g = record f { ip_version = first / 16 % 16 } in
    if g.ip_version == 4
    then (let size = first % 16 * 4 in
        let k = record g { ip4_header_length = size } in
        require_if fr (xn_hdr_size + size + 20) (xn_hdr_size + size + 20) k
          (λ d.
            parse_proto fr mss (d.header (xn_hdr_size + 9)) (get_net d.header (xn_hdr_size + 2)) k
              d)
          c)
    else some (give_up ParseResult.parse_unknown_type g, c)

-- Broadcast, or else multicast; the other flag is left as it is.
abbrev pub is_broadcast_addr : (ℕ → ℕ) → Bool
is_broadcast_addr h =
    (h 0 == 255) && (h 1 == 255) && (h 2 == 255) && (h 3 == 255) && (h 4 == 255) && (h 5 == 255)

abbrev pub note_destination : (broadcast multicast : Bool) → Fields → Fields
note_destination broadcast multicast f = record f {
  is_broadcast = broadcast || f.is_broadcast;
  is_multicast = (not broadcast && multicast) || f.is_multicast;
}

-- By the protocol field `ethertype`: IPv4; IPv6 is given up like any other.
unfoldable pub parse_ethernet : Frame → (mss ethertype : ℕ) → Fields → Parser
parse_ethernet fr mss ethertype f c =
    if ethertype == 2048
    then require_if fr (xn_hdr_size + 20) (xn_hdr_size + 20) f
        (λ d. parse_ip fr mss (d.header xn_hdr_size) f d) c
    else some (give_up ParseResult.parse_unknown_type f, c)

abbrev pub parse_frame : Frame → (mss : ℕ) → Fields → Parser
parse_frame fr mss f c =
    parse_ethernet fr mss (get_net c.header 12)
      (note_destination (is_broadcast_addr c.header) (c.header 0 % 2 == 1) f) c

-- `XenNet_ParsePacketHeader`, from the cursor at the packet's first buffer with an empty header.
unfoldable pub parse_packet_header :
    Frame → (mss min_header_size : ℕ) → Fields → Cursor → Option (Fields × Cursor)
parse_packet_header fr mss min_header_size old c =
    let f = clear_fields old in
    build_header fr c min_header_size >>= λ b. require fr xn_hdr_size f (parse_frame fr mss f) b.1
