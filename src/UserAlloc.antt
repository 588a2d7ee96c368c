-- ===== src/UserAlloc.antt =====
-- buenos/tests/lib.c: the allocator of user programs. A free block is its address with its size; the list
-- of free blocks stands for the links between them. The size word of an allocated block is `header` of
-- its address. Pointers and sizes are 32-bit words; the null pointer is 0.
pub mod FreeList
pub mod Insert
pub mod Heap
use osm_re_exam.Prelude.{
  ℕ, ◌+◌, ◌-◌, ◌%◌, ◌^◌, List, [], ◌∷◌, Bool, Option, none, some, ◌==◌, if◌then◌else◌, ltb, leb,
}
use osm_re_exam.Prelude.Int.{pos, leb_ℤ, word_add, word_sub, as_int}

-- `free_block_t`
pub record Block : Type 0 where
  pub address : ℕ
  pub size : ℕ

pub record UserHeap : Type 0 where
  pub free_list : List Block
  pub header : ℕ → ℕ

abbrev pub min_alloc_size : ℕ
min_alloc_size = 8

-- The size that `malloc` looks for: room for the links, in whole words.
unfoldable pub round_size : ℕ → ℕ
round_size size =
    let wide = if ltb min_alloc_size size then size else min_alloc_size in
    if wide % 4 == 0 then wide else word_add (wide - wide % 4) 4

-- The test for a block that is split.
unfoldable pub can_split : Block → ℕ → Bool
can_split b size = leb_ℤ (pos 12) (as_int (word_sub (word_sub b.size size) 4))

-- The loop of `malloc` over the free blocks: the block that is handed out, and the list after it.
unfoldable pub find_block : ℕ → List Block → Option (Block × List Block)
find_block size [] = none
find_block size (b ∷ bs) =
    let kept = word_sub b.size (word_add size 4) in
    let split = some (
      record { address = word_add b.address kept; size = word_add size 4 },
      record { address = b.address; size = kept } ∷ bs,
    ) in
    let rest : Option (Block × List Block) = elim (find_block size bs) [
      | none ↦ none
      | some found ↦ some (found.0, b ∷ found.1)
    ] in
    if can_split b size then split else if leb (word_add size 4) b.size then some (b, bs) else rest

abbrev pub set_header : (ℕ → ℕ) → ℕ → ℕ → ℕ → ℕ
set_header header a size x = if x == a then size else header x

-- `memlimit` is `syscall_memlimit`, over the state `K` of the kernel.
module _ {K : Type 0} (memlimit : K → ℕ → ℕ × K) where
  -- The end of `malloc`, where the heap is made larger.
  unfoldable pub extend_heap : UserHeap → K → ℕ → ℕ × UserHeap × K
  extend_heap h k size =
      let (heap_end, k1) = memlimit k 0 in
      let full_size = word_add 4 size in
      let (heap_end_new, k2) = memlimit k1 (word_add heap_end full_size) in
      if heap_end_new == 0
      then (0, h, k2)
      else (word_add heap_end 4, record h { header = set_header h.header heap_end full_size }, k2)

  unfoldable pub malloc : UserHeap → K → ℕ → ℕ × UserHeap × K
  malloc h k size =
      let wanted = round_size size in
      let found : ℕ × UserHeap × K = elim (find_block wanted h.free_list) [
        | none ↦ extend_heap h k wanted
        | some r ↦ (
          word_add (r.0).address 4,
          record { free_list = r.1; header = set_header h.header (r.0).address (r.0).size },
          k,
        )
      ] in
      if size == 0 then (0, h, k) else found

-- Two blocks next to each other become one.
unfoldable pub merge_next : Block → List Block → List Block
merge_next b [] = b ∷ []
merge_next b (c ∷ cs) =
    if word_sub c.address b.address == b.size
    then record { address = b.address; size = word_add b.size c.size } ∷ cs
    else b ∷ c ∷ cs

-- The block put between the block before it and the list behind it.
unfoldable pub place : Option Block → Block → List Block → List Block
place none b bs = merge_next b bs
place (some p) b bs =
    if word_sub b.address p.address == p.size
    then merge_next (record { address = p.address; size = word_add p.size b.size }) bs
    else p ∷ merge_next b bs

-- The loop of `free`: the list from the block before on.
unfoldable pub insert_block : Option Block → Block → List Block → List Block
insert_block previous b [] = place previous b []
insert_block previous b (c ∷ cs) =
    let further : List Block = elim previous [
      | none ↦ insert_block (some c) b cs
      | some p ↦ p ∷ insert_block (some c) b cs
    ] in
    if ltb b.address c.address then place previous b (c ∷ cs) else further

unfoldable pub free : UserHeap → ℕ → UserHeap
free h ptr =
    let a = word_sub ptr 4 in
    let b : Block = record { address = a; size = h.header a } in
    if ptr == 0 then h else record h { free_list = insert_block none b h.free_list }
