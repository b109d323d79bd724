-- ===== src/Grant/Setup.antt =====
-- `GntTbl_Init` and `GntTbl_Map`: which references are free at the start, and which frames the
-- hypervisor is asked to map.
use win_pvdrivers_mirror.Base.{
  ℕ, zero, suc, ◌+◌, ◌-◌, ◌<◌, ◌≡◌, ◌&&◌, ◌||◌, List, [], ◌∷◌, ◌++◌, ltb, leb, copy_prefix, elem,
  Distinct, All,
}
use win_pvdrivers_mirror.Grant.{
  StackApi, GrantTag, GrantEntry, GrantCall, add_to_physmap, decrease_reservation, GrantState,
  grant_entries, table_size, nr_reserved_entries, push_range,
}

-- The frames `i`, `i - 1`, and so on, `n + 1` of them, with the pages that they go to.
unfoldable pub frames_down : (ℕ → ℕ) → (n i : ℕ) → List GrantCall
frames_down pfn zero i = add_to_physmap i (pfn i) ∷ []
frames_down pfn (suc n) i = add_to_physmap i (pfn i) ∷ frames_down pfn n (i - 1)

unfoldable pub holes_up : (ℕ → ℕ) → (n i : ℕ) → List GrantCall
holes_up pfn zero i = []
holes_up pfn (suc n) i = decrease_reservation (pfn i) ∷ holes_up pfn n (suc i)

module _ (lf : StackApi) where
  open lf use {Stack, new, push, contents, room, contents-new, room-new, contents-push, room-push}

  -- References `i`, `i + 1`, and so on pushed on a stack of smaller ones.
  record Pushed (ss : Stack) (n i : ℕ) (out : Stack) : Type 0 where
    distinct : Distinct (contents out)
    below : All (λ r. r < i + n) (contents out)
    members : (r : ℕ) → elem r (contents out) ≡ ((leb i r && ltb r (i + n)) || elem r (contents ss))

  abbrev blank_tag : GrantTag
  blank_tag = record { generation = 0; tag = 0 }

  abbrev zero_entry : GrantEntry
  zero_entry = record { flags = 0; domid = 0; frame = 0 }

  initial : GrantState Stack → ℕ → GrantState Stack
  initial s frames =
      let n = grant_entries frames in
      record s {
        ss = push_range lf (new n) (n - nr_reserved_entries) nr_reserved_entries;
        table = copy_prefix (table_size frames) (λ _. zero_entry) s.table;
        generation = 0;
        tags = copy_prefix n (λ _. blank_tag) s.tags;
        grant_frames = frames;
        calls =
            (s.calls ++ holes_up s.mdl_pfn frames 0)
            ++ frames_down s.mdl_pfn (frames - 1) (frames - 1);
      }
