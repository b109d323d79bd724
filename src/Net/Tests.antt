-- ===== src/Net/Tests.antt =====
-- The packet headers on a TCP packet in three buffers, on one that is cut short, and the filter on a
-- group address.
use win_pvdrivers_mirror.Net.{Mdl, Cursor, Frame}
use win_pvdrivers_mirror.Net.Built.{Ready, Built}
use win_pvdrivers_mirror.Net.Parse.{ParseResult, Fields, parse_packet_header}
use win_pvdrivers_mirror.Net.Fields.{frame_fields, byte_of, parse_packet_header-frame_fields}
use win_pvdrivers_mirror.Net.Short.{parse_packet_header-never_too_small}
use win_pvdrivers_mirror.Net.Filter.{
  PacketTypes, FilterState, Passes, mem_equal, search_list, filter_accept_packet,
  filter_accept_packet-Passes,
}
use win_pvdrivers_mirror.Net.Mac.{hex_value, digit_step, mac_step, mac_loop, read_mac, MacText}
use win_pvdrivers_mirror.Net.MacText.{read_mac-MacText}
use win_pvdrivers_mirror.Base.{
  ℕ, ◌+◌, bit_and, ◌≡◌, ◌≢◌, ◌↔◌, refl, sym, true, false, some, List, [], ◌∷◌, ◌++◌,
  get_or-append_before, arith,
}

abbrev ethernet : List ℕ
ethernet = 2 ∷ 0 ∷ 0 ∷ 0 ∷ 0 ∷ 1 ∷ 2 ∷ 0 ∷ 0 ∷ 0 ∷ 0 ∷ 2 ∷ 8 ∷ 0 ∷ []

abbrev ip_header : List ℕ
ip_header = 69 ∷ 0 ∷ 0 ∷ 42 ∷ 0 ∷ 0 ∷ 0 ∷ 0 ∷ 64 ∷ 6 ∷ 0 ∷ 0 ∷ 10 ∷ 0 ∷ 0 ∷ 1 ∷ 10 ∷ 0 ∷ 0 ∷ 2 ∷ []

abbrev tcp : List ℕ
tcp =
    0 ∷ 80 ∷ 4 ∷ 0 ∷ 0 ∷ 0 ∷ 1 ∷ 2 ∷ 0 ∷ 0 ∷ 0 ∷ 0 ∷ 80 ∷ 16 ∷ 1 ∷ 0 ∷ 0 ∷ 0 ∷ 0 ∷ 0 ∷ 104 ∷ 105
    ∷ []

abbrev packet : List ℕ
packet = ethernet ++ (ip_header ++ tcp)

abbrev mapped_mdl : List ℕ → Mdl
mapped_mdl bytes = record { bytes = bytes; mapped = true }

-- The Ethernet header is the first buffer, and the header in place.
abbrev frame_in_place : Frame
frame_in_place = record { total_length = 56; first_mdl_length = 14; in_place = true }

abbrev at_start : Cursor
at_start = record {
  mdls = mapped_mdl ethernet ∷ mapped_mdl ip_header ∷ mapped_mdl tcp ∷ [];
  offset = 0;
  pbs = 7 ∷ 8 ∷ 9 ∷ [];
  header_length = 0;
  header = byte_of ethernet;
}

at_start-Ready : Ready packet frame_in_place at_start
at_start-Ready = (
  record {
    within = omega arith;
    read = λ i l. absurd (omega arith);
    rest = refl;
    fits = (omega arith, (omega arith, (omega arith, (omega arith, tt))));
  },
  λ p. record {
    bytes = λ i l. sym (get_or-append_before ethernet (ip_header ++ tcp) i 0 0 l);
    fits = omega arith;
    here = λ l. (
      mapped_mdl ethernet,
      mapped_mdl ip_header ∷ mapped_mdl tcp ∷ [],
      refl,
      refl,
      refl,
      (omega arith, (omega arith, (omega arith, tt))),
    );
  },
)

abbrev cleared : Fields
cleared = record {
  parse_result = ParseResult.parse_ok;
  split_required = false;
  ip_version = 0;
  ip_proto = 0;
  ip_has_options = false;
  ip4_header_length = 0;
  ip4_length = 0;
  tcp_header_length = 0;
  tcp_has_options = false;
  tcp_length = 0;
  tcp_remaining = 0;
  tcp_seq = 0;
  is_multicast = false;
  is_broadcast = false;
}

-- The packet has two bytes of TCP data.
packet_fields : (frame_fields (byte_of packet) 56 1460 cleared).tcp_length ≡ 2
packet_fields = refl

parse_packet_header-frame_fields_example :
    (d : Cursor) × (parse_packet_header frame_in_place 1460 20 cleared at_start
      ≡ some (frame_fields (byte_of packet) 56 1460 cleared, d))
    × Ready packet frame_in_place d
parse_packet_header-frame_fields_example =
    parse_packet_header-frame_fields packet frame_in_place (omega arith) 1460 20 cleared at_start
      at_start-Ready (refl, (refl, (refl, tt))) (omega arith) (omega arith, λ e. omega arith)

-- The packet cut off behind the Ethernet header, which still announces IPv4.
abbrev short_frame : Frame
short_frame = record { total_length = 14; first_mdl_length = 14; in_place = false }

abbrev short_start : Cursor
short_start = record {
  mdls = mapped_mdl ethernet ∷ [];
  offset = 0;
  pbs = [];
  header_length = 0;
  header = λ i. 0;
}

short_start-Ready : Ready ethernet short_frame short_start
short_start-Ready = (
  record {
    within = omega arith;
    read = λ i l. absurd (omega arith);
    rest = refl;
    fits = (omega arith, (omega arith, tt));
  },
  λ p. absurd (cc),
)

parse_packet_header-never_too_small_example :
    (f : Fields) × (d : Cursor) × (parse_packet_header short_frame 0 4096 cleared short_start
      ≡ some (f, d))
    × (f.parse_result ≢ ParseResult.parse_too_small)
parse_packet_header-never_too_small_example =
    parse_packet_header-never_too_small ethernet short_frame (omega arith) 0 4096 cleared
      short_start short_start-Ready (refl, tt) (omega arith)

-- The station 2:0:0:0:0:1 listens to the group 1:0:0:0:0:7.
abbrev types : PacketTypes
types = record { directed = 1; multicast = 2; all_multicast = 4; broadcast = 8; promiscuous = 32 }

abbrev station : FilterState
station = record {
  packet_filter = 11;
  curr_mac_addr = byte_of (2 ∷ 0 ∷ 0 ∷ 0 ∷ 0 ∷ 1 ∷ []);
  multicast_list = λ i. byte_of (1 ∷ 0 ∷ 0 ∷ 0 ∷ 0 ∷ (i + 6) ∷ []);
  multicast_list_size = 2;
}

abbrev group_header : ℕ → ℕ
group_header = byte_of (1 ∷ 0 ∷ 0 ∷ 0 ∷ 0 ∷ 7 ∷ [])

filter_accept_packet-Passes_example :
    (filter_accept_packet types station true false group_header ≡ true)
    ↔ Passes types station true false group_header
filter_accept_packet-Passes_example =
    filter_accept_packet-Passes types station true false group_header

group_passes : filter_accept_packet types station true false group_header ≡ true
unfolding filter_accept_packet mem_equal search_list
group_passes = refl

-- The text 00:16:3e:5F:00:0a and what is read of it.
abbrev mac_text : List ℕ
mac_text = 48 ∷ 48 ∷ 58 ∷ 49 ∷ 54 ∷ 58 ∷ 51 ∷ 101 ∷ 58 ∷ 53 ∷ 70 ∷ 58 ∷ 48 ∷ 48 ∷ 58 ∷ 48 ∷ 97 ∷ []

abbrev no_addr : ℕ → ℕ
no_addr k = 0

abbrev read_addr : ℕ → ℕ
read_addr = byte_of (0 ∷ 22 ∷ 62 ∷ 95 ∷ 0 ∷ 10 ∷ [])

read_mac-MacText_example : (read_mac mac_text no_addr no_addr ≡ some (read_addr, read_addr)) ↔ (
    MacText 0 mac_text no_addr read_addr
    × (bit_and (no_addr 0) 3 ≡ 2 → read_addr ≡ no_addr)
    × (bit_and (no_addr 0) 3 ≢ 2 → read_addr ≡ read_addr))
read_mac-MacText_example = read_mac-MacText mac_text no_addr no_addr read_addr read_addr

mac_is_read :
    (a : ℕ → ℕ) × (c : ℕ → ℕ) × (read_mac mac_text no_addr no_addr ≡ some (a, c)) × (a 3 ≡ 95)
unfolding read_mac mac_loop mac_step digit_step hex_value
mac_is_read = (_, _, refl, refl)
