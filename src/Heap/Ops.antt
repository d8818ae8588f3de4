-- ===== src/Heap/Ops.antt =====
-- heap_alloc, heap_free, heap_realloc, heap_calloc, and their names in kmalloc.c.
use apsyde.Heap.State.{
  Heap, Result, header_size, heap_alignment, heap_magic_free, heap_magic_used, write, align_up,
  next_block, write_free_header, is_in_heap, ok, panicked, hung,
}
use apsyde.Pmm.State.{null}
use apsyde.Common.{
  ℕ, zero, suc, ◌+◌, ◌-◌, ◌*◌, ◌/◌, ◌^◌, not, ◌&&◌, ◌||◌, Option, none, some, ltb, leb, ◌==◌,
  if◌then◌else◌, u32, u64, sub64, sub32,
}

-- How the loop of heap_alloc ends: at a block that is large enough and the one before it in the
-- list, at the list's end, at a damaged header, or not within the fuel.
pub data Found : Type 0 where
  fit : (prev b : ℕ) → Found
  missing : Found
  damaged : Found
  searching : Found

unfoldable pub find_fit : ℕ → Heap → ℕ → ℕ → ℕ → Found
find_fit zero h aligned prev b = searching
find_fit (suc fuel) h aligned prev b =
    let rest = find_fit fuel h aligned b (h.next_free b) in
    if b == null
    then missing
    else if not (h.magic b == heap_magic_free)
    then damaged
    else if leb aligned (h.size b)
    then fit prev b
    else rest

-- `if (prev) prev->next_free = v; else g_free_list = v;`
unfoldable pub relink : ℕ → ℕ → Heap → Heap
relink prev v h =
    if prev == null
    then record h { free_list = v }
    else record h { next_free = write h.next_free prev v }

-- The rest of the block becomes a free block that takes its place in the list.
unfoldable pub split_block : ℕ → ℕ → ℕ → ℕ → Heap → Heap
split_block aligned remaining prev b h =
    let new_b = u64 (b + header_size + aligned) in
    let h' =
      relink prev new_b
        (write_free_header new_b (u32 (remaining - header_size)) (h.next_free b) h) in
    record h' { total_blocks = u64 (h'.total_blocks + 1) }

unfoldable pub unlink_block : ℕ → ℕ → Heap → Heap
unlink_block prev b h =
    let h' = relink prev (h.next_free b) h in record h' { free_blocks = sub64 h'.free_blocks 1 }

unfoldable pub mark_used : ℕ → ℕ → Heap → Heap
mark_used aligned b h = record h {
  magic = write h.magic b heap_magic_used;
  size = write h.size b (u32 aligned);
  flags = write h.flags b 0;
  next_free = write h.next_free b null;
  alloc_count = u64 (h.alloc_count + 1);
}

-- The body of the loop at the block that is large enough.
unfoldable pub take_block : ℕ → ℕ → ℕ → Heap → Heap
take_block aligned prev b h =
    let remaining = sub32 (h.size b) (u32 aligned) in
    mark_used aligned b (
      if leb (header_size + heap_alignment) remaining
      then split_block aligned remaining prev b h
      else unlink_block prev b h)

unfoldable pub place : ℕ → Found → Heap → Result (ℕ × Heap)
place aligned (fit prev b) h = ok (u64 (b + header_size), take_block aligned prev b h)
place aligned missing h = ok (null, h)
place aligned damaged h = panicked
place aligned searching h = hung

-- The loop has a round for each free block and one for the list's end.
unfoldable pub heap_alloc : ℕ → Heap → Result (ℕ × Heap)
heap_alloc n h =
    let aligned = align_up n in
    if n == 0
    then ok (null, h)
    else if ltb (2 ^ 32 - 1) aligned
    then ok (null, h)
    else place aligned (find_fit (suc h.free_blocks) h aligned null h.free_list) h

-- The loop of heap_free: the block of the list before `next`, or 0; `none` where the fuel is used up.
unfoldable pub find_prev : ℕ → (ℕ → ℕ) → ℕ → ℕ → Option ℕ
find_prev zero nexts next prev = none
find_prev (suc fuel) nexts next prev =
    let rest = find_prev fuel nexts next (nexts prev) in
    if prev == null then some null else if nexts prev == next then some prev else rest

unfoldable pub absorb : ℕ → ℕ → Heap → Heap
absorb b next h = record h {
  free_blocks = sub64 h.free_blocks 1;
  size = write h.size b (u32 (h.size b + header_size + h.size next));
  total_blocks = sub64 h.total_blocks 1;
}

-- `if (prev) prev->next_free = next->next_free;`
unfoldable pub bypass : Option ℕ → ℕ → ℕ → Heap → Result Heap
bypass none b next h = hung
bypass (some prev) b next h = ok (
    absorb b next (
      if prev == null
      then h
      else record h { next_free = write h.next_free prev (h.next_free next) }))

-- The block behind `b` is joined to it, if it is free.
unfoldable pub join_next : ℕ → Heap → Result Heap
join_next b h =
    let next = next_block h b in
    if ltb next h.heap_end && (h.magic next == heap_magic_free)
    then if h.free_list == next
      then ok (absorb b next record h { free_list = h.next_free next })
      else bypass (find_prev (suc h.free_blocks) h.next_free next h.free_list) b next h
    else ok h

unfoldable pub push_free : ℕ → Heap → Heap
push_free b h = record h {
  magic = write h.magic b heap_magic_free;
  flags = write h.flags b 1;
  next_free = write h.next_free b h.free_list;
  free_list = b;
  free_blocks = u64 (h.free_blocks + 1);
  free_count = u64 (h.free_count + 1);
}

unfoldable pub heap_free : ℕ → Heap → Result Heap
heap_free p h =
    let b = sub64 p header_size in
    if p == null
    then ok h
    else if not (is_in_heap h p)
    then panicked
    else if h.magic b == heap_magic_free
    then panicked
    else if not (h.magic b == heap_magic_used)
    then panicked
    else join_next b (push_free b h)

-- memcpy of ranges that do not overlap, and memset.
unfoldable pub move_bytes : ℕ → ℕ → ℕ → Heap → Heap
move_bytes to from n h = record h {
  bytes = λ x. if leb to x && ltb x (to + n) then h.bytes (from + (x - to)) else h.bytes x;
}

unfoldable pub set_bytes : ℕ → ℕ → ℕ → Heap → Heap
set_bytes to v n h = record h { bytes = λ x. if leb to x && ltb x (to + n) then v else h.bytes x }

unfoldable pub returned : ℕ → Result Heap → Result (ℕ × Heap)
returned p (ok h) = ok (p, h)
returned p panicked = panicked
returned p hung = hung

-- heap_realloc after its call of heap_alloc.
unfoldable pub move_to : ℕ → ℕ → Result (ℕ × Heap) → Result (ℕ × Heap)
move_to p n (ok (q, h)) =
    if q == null then ok (null, h) else returned q (heap_free p (move_bytes q p n h))
move_to p n panicked = panicked
move_to p n hung = hung

unfoldable pub heap_realloc : ℕ → ℕ → Heap → Result (ℕ × Heap)
heap_realloc p n h =
    let old_size = h.size (sub64 p header_size) in
    let copy_size = (if ltb old_size n then old_size else n) in
    if p == null
    then heap_alloc n h
    else if n == 0
    then returned null (heap_free p h)
    else move_to p copy_size (heap_alloc n h)

-- heap_calloc after its call of heap_alloc.
unfoldable pub clear_at : ℕ → Result (ℕ × Heap) → Result (ℕ × Heap)
clear_at n (ok (q, h)) = ok (q, if q == null then h else set_bytes q 0 n h)
clear_at n panicked = panicked
clear_at n hung = hung

unfoldable pub heap_calloc : ℕ → ℕ → Heap → Result (ℕ × Heap)
heap_calloc n size h =
    if n == 0 || (size == 0)
    then ok (null, h)
    else if ltb ((2 ^ 64 - 1) / size) n
    then ok (null, h)
    else clear_at (u64 (n * size)) (heap_alloc (u64 (n * size)) h)

unfoldable pub kmalloc : ℕ → Heap → Result (ℕ × Heap)
kmalloc n h = heap_alloc n h

unfoldable pub kfree : ℕ → Heap → Result Heap
kfree p h = heap_free p h

unfoldable pub krealloc : ℕ → ℕ → Heap → Result (ℕ × Heap)
krealloc p n h = heap_realloc p n h

unfoldable pub kcalloc : ℕ → ℕ → Heap → Result (ℕ × Heap)
kcalloc n size h = heap_calloc n size h
