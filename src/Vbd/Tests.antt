-- ===== src/Vbd/Tests.antt =====
-- Runs of the block miniport.
use win_pvdrivers_mirror.Base.{
  ◌∷◌, elem, ℕ, ◌+◌, ◌*◌, ◌^◌, ◌<◌, ◌≡◌, refl, Bool, true, false, Option, none, some, [], ◌==◌,
  if◌then◌else◌, arith,
}
use win_pvdrivers_mirror.Vbd.{
  active, execute_scsi, Host, Srb, Shadow, Filled, VbdState, rw10, scsiop_read, scsiop_write,
  decode_cdb_is_read, decode_cdb_length, decode_cdb_sector, big_endian, cdb_blocks, cdb_start,
  put_srb_on_ring, is_active, fill_segments, any_conflict, shadow_conflicts, overlaps, get_shadow,
  place_mapped, place_srb, with_shadow, is_free, fill_shadow, take_shadow, end_fill, submit,
  add_segment, fill_next,
}
use win_pvdrivers_mirror.Vbd.Cdb.{decode_cdb-rw, Decodes, rw16, scsiop_read16}
use win_pvdrivers_mirror.Vbd.Segments.{Cut, fill_segments-Cut}
use win_pvdrivers_mirror.Vbd.Submit.{
  Ready, Outcome, Apart, put_srb_on_ring-Outcome, put_srb_on_ring-Apart,
}
use win_pvdrivers_mirror.Vbd.Reply.{handle_response}
use win_pvdrivers_mirror.Vbd.Pool.{
  IsPool, PoolAfter, pool, put_srb_on_ring-IsPool, handle_response-IsPool,
}

-- A disk of 512-byte sectors with 32 free shadows. SRB 5 writes 24 sectors from sector 100 on, SRB 6 reads
-- the 8 after those.
abbrev write_srb : Srb
write_srb = record {
  function = execute_scsi;
  cdb = rw10 scsiop_write 100 24;
  data_length = 24 * 512;
  srb_status = 0;
  scsi_status = 0;
  disable_autosense = false;
  has_sense_buffer = true;
  length = 24 * 512;
  offset = 0;
  outstanding = 0;
  error = false;
}

abbrev read_srb : Srb
read_srb = record write_srb {
  cdb = rw10 scsiop_read 124 8;
  data_length = 8 * 512;
  length = 8 * 512;
}

abbrev idle_shadow : ℕ → Shadow
idle_shadow i = record {
  req = record { id = i; is_read = false; sector_number = 0; segs = [] };
  srb = none;
  system_address = 0;
  length = 0;
  aligned_in_use = false;
  reset = false;
}

abbrev idle : VbdState
idle = record {
  device_state = active;
  shadows = idle_shadow;
  free_list = λ k. k;
  shadow_free = 32;
  srbs = λ id. if id == 5 then write_srb else read_srb;
  srb_list = [];
  ring = [];
  aligned_in_use = false;
  aligned_buffer = 0x40000;
  aligned_size = 12 * 4096;
  bytes_per_sector = 512;
  last_sense = record { key = 0; code = 0; qualifier = 0 };
  cac = false;
  calls = [];
}

-- The buffer starts in the middle of a page, and every grant is given.
abbrev host : Host
host = record { system_address = some 0x10800; phys = λ p. p; grant = λ k. some (100 + k) }

idle-Ready : Ready host idle 5 0x10800
unfolding is_active cdb_blocks decode_cdb_length big_endian
idle-Ready = record {
  active = refl;
  mapped = refl;
  whole = refl;
  more = omega arith;
  free = λ n. refl;
  unmarked = λ n. refl;
  unused = refl;
  aligned = record { keeps = λ p. refl; buffer = refl };
}

put_srb_on_ring-Outcome_example :
    (r : Bool × VbdState) × (put_srb_on_ring host idle 5 ≡ some r) × Outcome host idle 5 0x10800 r
put_srb_on_ring-Outcome_example = put_srb_on_ring-Outcome host idle 5 0x10800 idle-Ready

-- While SRB 5 is on the ring, SRB 6 goes there too.
abbrev run_of : Option (Bool × VbdState) → Bool × VbdState
run_of none = (false, idle)
run_of (some r) = r

abbrev writing : VbdState
writing = (run_of (put_srb_on_ring host idle 5)).1

writing-Ready : Ready host writing 6 0x10800
unfolding put_srb_on_ring is_active place_mapped place_srb cdb_blocks cdb_start decode_cdb_length
    decode_cdb_sector decode_cdb_is_read big_endian any_conflict shadow_conflicts overlaps
    get_shadow with_shadow is_free fill_shadow take_shadow end_fill submit add_segment fill_next
    fill_segments
writing-Ready = record {
  active = refl;
  mapped = refl;
  whole = refl;
  more = omega arith;
  free = λ n. refl;
  unmarked = λ n. refl;
  unused = refl;
  aligned = record { keeps = λ p. refl; buffer = refl };
}

put_srb_on_ring-Apart_example : Apart 124 8 100 24
unfolding put_srb_on_ring is_active place_mapped place_srb cdb_blocks cdb_start decode_cdb_length
    decode_cdb_sector decode_cdb_is_read big_endian any_conflict shadow_conflicts overlaps
    get_shadow with_shadow is_free fill_shadow take_shadow end_fill submit add_segment fill_next
    fill_segments
put_srb_on_ring-Apart_example =
    put_srb_on_ring-Apart host writing (run_of (put_srb_on_ring host writing 6)).1 6 0x10800 31 5
      writing-Ready refl refl (omega arith) refl refl (omega arith) (omega arith)

fill_segments-Cut_example :
    (f : Filled) × (fill_segments host 11 0 0x10800 12288 ≡ some f) × Cut host 11 0 0x10800 12288 f
fill_segments-Cut_example = fill_segments-Cut host 11 0 0x10800 12288 (λ p. refl) refl refl

decode_cdb-rw_example :
    (100 < 2 ^ 32 → 24 < 2 ^ 16 → Decodes (rw10 scsiop_read 100 24) 100 24 true)
    × (100 < 2 ^ 64 → 24 < 2 ^ 32 → Decodes (rw16 scsiop_read16 100 24) 100 24 true)
decode_cdb-rw_example = decode_cdb-rw 100 24 true

-- Two shadows are free, 1 and then 0.
abbrev two_free : VbdState
two_free = record idle { shadow_free = 2 }

two_free-Ready : Ready host two_free 5 0x10800
unfolding is_active cdb_blocks decode_cdb_length big_endian
two_free-Ready = record {
  active = refl;
  mapped = refl;
  whole = refl;
  more = omega arith;
  free = λ n. refl;
  unmarked = λ n. refl;
  unused = refl;
  aligned = record { keeps = λ p. refl; buffer = refl };
}

two_free-IsPool : IsPool two_free
two_free-IsPool = record {
  distinct = (refl, (refl, tt));
  free = λ j e. (ground (arith, e), refl);
  ids = λ j l. omega arith;
}

put_srb_on_ring-IsPool_example :
    (r : Bool × VbdState) × (put_srb_on_ring host two_free 5 ≡ some r) × PoolAfter two_free r
put_srb_on_ring-IsPool_example =
    put_srb_on_ring-IsPool host two_free 5 0x10800 two_free-Ready two_free-IsPool

-- Shadow 5 holds SRB 5, which has one request outstanding.
abbrev one_out : VbdState
one_out = record two_free {
  shadows = λ i. record (idle_shadow i) { srb = if i == 5 then some 5 else none };
  srbs = λ id. record write_srb { outstanding = 1 };
}

one_out-IsPool : IsPool one_out
one_out-IsPool = record {
  distinct = (refl, (refl, tt));
  free = λ j e. (ground (arith, e), not_held j e);
  ids = λ j l. omega arith;
}
  where
    not_held : (j : ℕ) → elem j (1 ∷ 0 ∷ []) ≡ true → (one_out.shadows j).srb ≡ none
    not_held j e = ground (arith, e)

handle_response-IsPool_example :
    (t : VbdState) × (handle_response one_out (record { id = 5; okay = true }) ≡ some t)
    × IsPool t
    × (pool t ≡ 5 ∷ pool one_out)
handle_response-IsPool_example =
    handle_response-IsPool one_out (record { id = 5; okay = true }) 5 refl refl (λ e. absurd (cc))
      (omega arith) (omega arith) (omega arith) one_out-IsPool
