-- ===== src/Grant/Defs.antt =====
-- The state of xenpci/gnttbl.c and the stack of liblfds that it keeps its free references in.
use win_pvdrivers_mirror.Base.{
  ℕ, ◌+◌, ◌*◌, ◌/◌, ◌%◌, ◌^◌, ltb, if◌then◌else◌, ◌≤◌, ◌<◌, ◌≡◌, min, Option, none, some, List, [],
  ◌∷◌,
}

-- What the driver relies on of `stack_new`, `stack_push` and `stack_pop`. `contents` lists the
-- entries, the top first, and `room` is the number of pushes that find a free element. A push that
-- finds none does nothing, and the driver ignores its status.
pub record StackApi : Type 1 where
  pub Stack : Type 0
  pub new : ℕ → Stack
  pub push : Stack → ℕ → Stack
  pub pop : Stack → Option (ℕ × Stack)
  pub contents : Stack → List ℕ
  pub room : Stack → ℕ
  pub contents-new : (n : ℕ) → contents (new n) ≡ []
  pub room-new : (n : ℕ) → n ≤ room (new n)
  pub contents-push : (s : Stack) (x : ℕ) → 0 < room s → contents (push s x) ≡ x ∷ contents s
  pub room-push : (s : Stack) (x : ℕ) → room s ≤ room (push s x) + 1
  pub pop-nil : (s : Stack) → contents s ≡ [] → pop s ≡ none
  pub pop-cons :
      (s : Stack) (x : ℕ) (xs : List ℕ)
      → contents s ≡ x ∷ xs
      → (t : Stack) × (pop s ≡ some (x, t)) × (contents t ≡ xs) × (room s + 1 ≤ room t)

-- `grant_entry_t`
pub record GrantEntry : Type 0 where
  pub flags : ℕ
  pub domid : ℕ
  pub frame : ℕ

-- `grant_tag_t`; the tag 0 marks a free reference.
pub record GrantTag : Type 0 where
  pub generation : ℕ
  pub tag : ℕ

-- The hypercalls of the grant table, by what they name.
pub data GrantCall : Type 0 where
  add_to_physmap : (idx gpfn : ℕ) → GrantCall
  decrease_reservation : (pfn : ℕ) → GrantCall

-- The fields of `XENPCI_DEVICE_DATA` that gnttbl.c works on. `mdl_pfn` is the frame array of
-- `gnttbl_mdl`.
pub record GrantState (Stack : Type 0) : Type 0 where
  pub ss : Stack
  pub ss_copy : Option Stack
  pub hiber_grefs : List ℕ
  pub mdl_pfn : ℕ → ℕ
  pub table : ℕ → GrantEntry
  pub table_copy : ℕ → GrantEntry
  pub generation : ℕ
  pub tags : ℕ → GrantTag
  pub tags_copy : ℕ → GrantTag
  pub grant_frames : ℕ
  pub calls : List GrantCall

abbrev pub invalid_grant_ref : ℕ
invalid_grant_ref = 0xffffffff

abbrev pub page_size : ℕ
page_size = 4096

abbrev pub sizeof_grant_entry : ℕ
sizeof_grant_entry = 8

abbrev pub nr_reserved_entries : ℕ
nr_reserved_entries = 8

abbrev pub nr_grant_entries : ℕ
nr_grant_entries = 32 * page_size / sizeof_grant_entry

abbrev pub hiber_gref_count : ℕ
hiber_gref_count = 128

-- The multi-character constant 'HIBR'.
abbrev pub hibr : ℕ
hibr = 0x48494252

abbrev pub gtf_permit_access : ℕ
gtf_permit_access = 1

abbrev pub gtf_readonly : ℕ
gtf_readonly = 4

-- `GTF_reading | GTF_writing`
abbrev pub gtf_in_use : ℕ
gtf_in_use = 24

-- The number of entries in `grant_frames * PAGE_SIZE` bytes, a product of 32 bits.
abbrev pub table_size : ℕ → ℕ
table_size frames = frames * page_size % 2 ^ 32 / sizeof_grant_entry

-- `min(NR_GRANT_ENTRIES, grant_frames * PAGE_SIZE / sizeof(grant_entry_t))`
abbrev pub grant_entries : ℕ → ℕ
grant_entries frames = min nr_grant_entries (frames * page_size % 2 ^ 32 / sizeof_grant_entry)

-- The rounds of a loop from 0 up to `(int)grant_frames`: none where that is negative.
abbrev pub hole_rounds : ℕ → ℕ
hole_rounds frames = if ltb frames (2 ^ 31) then frames else 0
