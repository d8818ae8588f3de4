-- ===== src/Heap/Stats.antt =====
-- heap_get_stats and heap_check: walks over the blocks from the heap's start to its end.
use apsyde.Heap.State.{Heap, header_size, heap_magic_free, heap_magic_used, next_block}
use apsyde.Common.{
  ℕ, zero, suc, ◌+◌, not, ◌&&◌, ◌||◌, Option, none, some, ltb, ◌==◌, if◌then◌else◌, u64, sub64,
}

-- `heap_stats_t`
pub record HeapStats : Type 0 where
  pub total_bytes : ℕ
  pub used_bytes : ℕ
  pub free_bytes : ℕ
  pub total_blocks : ℕ
  pub free_blocks : ℕ
  pub used_blocks : ℕ
  pub alloc_count : ℕ
  pub free_count : ℕ

-- The loop of heap_get_stats, which has the bytes and the blocks in use; `none` where the fuel is
-- used up.
unfoldable pub stats_from : ℕ → Heap → ℕ → ℕ → ℕ → Option (ℕ × ℕ)
stats_from zero h b used_bytes used_blocks = none
stats_from (suc fuel) h b used_bytes used_blocks =
    let used = h.magic b == heap_magic_used in
    let rest =
      stats_from fuel h (next_block h b)
        (if used then u64 (used_bytes + header_size + h.size b) else used_bytes)
        (if used then u64 (used_blocks + 1) else used_blocks) in
    if ltb b h.heap_end
    then if used || (h.magic b == heap_magic_free) then rest else some (used_bytes, used_blocks)
    else some (used_bytes, used_blocks)

-- heap_get_stats after its loop.
unfoldable pub report : Heap → Option (ℕ × ℕ) → Option HeapStats
report h none = none
report h (some (used_bytes, used_blocks)) =
    let total = sub64 h.heap_end h.heap_start in
    some record {
      total_bytes = total;
      used_bytes = used_bytes;
      free_bytes = sub64 total used_bytes;
      total_blocks = h.total_blocks;
      free_blocks = h.free_blocks;
      used_blocks = used_blocks;
      alloc_count = h.alloc_count;
      free_count = h.free_count;
    }

-- Both walks have a round for each block and one for the end.
unfoldable pub heap_get_stats : Heap → Option HeapStats
heap_get_stats h = report h (stats_from (suc h.total_blocks) h h.heap_start 0 0)

-- The loop of heap_check; `none` where the fuel is used up.
unfoldable pub check_from : ℕ → Heap → ℕ → Option ℕ
check_from zero h b = none
check_from (suc fuel) h b =
    let next = next_block h b in
    let rest = check_from fuel h next in
    if not (ltb b h.heap_end)
    then some 1
    else if not (h.magic b == heap_magic_free) && not (h.magic b == heap_magic_used)
    then some 0
    else if ltb h.heap_end next
    then some 0
    else if next == b
    then some 0
    else rest

unfoldable pub heap_check : Heap → Option ℕ
heap_check h = check_from (suc h.total_blocks) h h.heap_start
