-- ===== src/Vbd/Queue/Tests.antt =====
-- Runs of the queue and of commands.
use win_pvdrivers_mirror.Base.{
  ℕ, ◌+◌, ◌-◌, ◌*◌, ◌≡◌, refl, min, true, false, none, some, [], ◌∷◌, ◌==◌, if◌then◌else◌, length,
  arith,
}
use win_pvdrivers_mirror.Vbd.{active, execute_scsi, flush, Host, VbdState, rw10, scsiop_write}
use win_pvdrivers_mirror.Vbd.Reply.{srb_status_success}
use win_pvdrivers_mirror.Vbd.Reply.Frame.{completions}
use win_pvdrivers_mirror.Vbd.Command.{disk, Disk, Pages, failure, read_capacity, read_capacity16}
use win_pvdrivers_mirror.Vbd.Command.Capacity.{number_at, read_capacity-number_at}
use win_pvdrivers_mirror.Vbd.Queue.{Device, process_srb_list, finish_success}
use win_pvdrivers_mirror.Vbd.Queue.Ends.{Finished, process_srb_list-Finished}
use win_pvdrivers_mirror.Vbd.Queue.Finish.{finish_success_lem}

-- SRB 5 writes 24 sectors, SRB 6 asks for the capacity, and SRB 7 is a flush.
abbrev queued : VbdState
queued = record {
  device_state = active;
  shadows = λ i. record {
    req = record { id = i; is_read = false; sector_number = 0; segs = [] };
    srb = none;
    system_address = 0;
    length = 0;
    aligned_in_use = false;
    reset = false;
  };
  free_list = λ k. k;
  shadow_free = 32;
  srbs = λ id. record {
    function = if id == 7 then flush else execute_scsi;
    cdb = if id == 5 then rw10 scsiop_write 100 24 else λ _. 0x25;
    data_length = if id == 5 then 24 * 512 else 8;
    srb_status = 0;
    scsi_status = 0;
    disable_autosense = false;
    has_sense_buffer = true;
    length = if id == 5 then 24 * 512 else 8;
    offset = 0;
    outstanding = 0;
    error = false;
  };
  srb_list = 5 ∷ 6 ∷ 7 ∷ [];
  ring = [];
  aligned_in_use = false;
  aligned_buffer = 0x40000;
  aligned_size = 12 * 4096;
  bytes_per_sector = 512;
  last_sense = record { key = 0; code = 0; qualifier = 0 };
  cac = false;
  calls = [];
}

-- A disk of 2^33 sectors
abbrev big_disk : Disk
big_disk = record {
  device_type = disk;
  total_sectors = 0x200000000;
  bytes_per_sector = 512;
  hw_bytes_per_sector = 4096;
  serial_number = 0x41 ∷ 0x42 ∷ [];
}

abbrev device : Device
device = record { vbd = queued; disk = big_disk; new_total_sectors = some 0x200000000 }

abbrev pages : Pages
pages = record { inquiry = λ _. failure 0 true; mode_page = λ d cdb len. failure len true }

abbrev hosts : ℕ → Host
hosts _ = record { system_address = some 0x10800; phys = λ p. p; grant = λ k. some (100 + k) }

process_srb_list-Finished_example : Finished (process_srb_list 36 pages hosts true device)
process_srb_list-Finished_example =
    process_srb_list-Finished pages hosts true device 36 (omega arith)

finish_success_lem_example :
    (((finish_success queued 6 4096).srbs 6).data_length ≡ 4096)
    × (((finish_success queued 6 4096).srbs 6).srb_status ≡ srb_status_success)
    × (completions 6 (finish_success queued 6 4096).calls ≡ completions 6 queued.calls + 1)
finish_success_lem_example = finish_success_lem queued 6 4096 refl

read_capacity-number_at_example :
    (number_at (read_capacity16 big_disk) 8 0 + 1 ≡ big_disk.total_sectors)
    × (number_at (read_capacity big_disk) 4 0 ≡ min (big_disk.total_sectors - 1) 0xffffffff)
    × (number_at (read_capacity16 big_disk) 4 8 ≡ big_disk.bytes_per_sector)
    × (number_at (read_capacity big_disk) 4 4 ≡ big_disk.bytes_per_sector)
    × ((read_capacity16 big_disk).data_transfer_length ≡ length (read_capacity16 big_disk).bytes)
    × ((read_capacity big_disk).data_transfer_length ≡ length (read_capacity big_disk).bytes)
read_capacity-number_at_example =
    read_capacity-number_at big_disk (omega arith) (omega arith) (omega arith)
