-- ===== src/Examples/Blocks.antt =====
-- The allocator of user programs over a kernel whose state is the end of the heap.
use osm_re_exam.Prelude.{
  ℕ, ◌+◌, ◌≡◌, ◌≢◌, refl, sym, ◌∙◌, inl, inr, [], ◌∷◌, ◌==◌, if◌then◌else◌, leb, arith, Bool-cases,
  leb→le, ne→==,
}
use osm_re_exam.UserAlloc.{
  Block, UserHeap, round_size, can_split, find_block, malloc, merge_next, place, insert_block, free,
}
use osm_re_exam.UserAlloc.FreeList.{user_end, total}
use osm_re_exam.UserAlloc.Heap.{IsHeap, IsMemlimit, Outcome, malloc-Outcome, free-IsHeap}

abbrev move_end : ℕ → ℕ → ℕ × ℕ
move_end k e = if e == 0 then (k, k) else if leb e user_end then (e, e) else (0, k)

move_end-IsMemlimit : IsMemlimit move_end (λ k. k)
move_end-IsMemlimit = record {
  asks = λ k. refl;
  moves = λ k e some_end. elim (Bool-cases (leb e user_end)) [
    | inl t ↦ rw (ne→== e 0 some_end, t) (inr (refl, refl, leb→le e user_end t))
    | inr t ↦ rw (ne→== e 0 some_end, t) (inl (refl, refl))
  ];
}

abbrev used_block : Block
used_block = record { address = 4160; size = 32 }

abbrev small_heap : UserHeap
small_heap = record {
  free_list = record { address = 4096; size = 64 } ∷ [];
  header = λ a. if a == 4160 then 32 else 0;
}

small_heap-IsHeap : IsHeap 4192 small_heap (λ x. x ≡ used_block)
small_heap-IsHeap = record {
  fits = omega arith;
  aligned = refl;
  ordered = (omega arith, omega arith, refl, refl, omega arith, tt);
  held = λ x e.
      rw e (refl, (omega arith, omega arith, refl, refl, omega arith), (inr (omega arith), tt));
  disjoint = λ x y e f. inl (e ∙ sym f);
}

malloc_splits : (malloc move_end small_heap 4192 5).0 ≡ 4152
unfolding malloc round_size find_block can_split
malloc_splits = refl

malloc-Outcome_example :
    Outcome (λ k. k) small_heap (λ x. x ≡ used_block) 4192 20 (malloc move_end small_heap 4192 20)
malloc-Outcome_example =
    malloc-Outcome move_end (λ k. k) move_end-IsMemlimit small_heap (λ x. x ≡ used_block) 4192 20
      small_heap-IsHeap (omega arith)

free_merges : (free small_heap 4164).free_list ≡ record { address = 4096; size = 96 } ∷ []
unfolding free insert_block place merge_next
free_merges = refl

free-IsHeap_example :
    IsHeap 4192 (free small_heap (4160 + 4)) (λ x. (x ≡ used_block) × (x ≢ used_block))
    × (total (free small_heap (4160 + 4)).free_list ≡ 32 + total small_heap.free_list)
free-IsHeap_example =
    free-IsHeap 4192 small_heap (λ x. x ≡ used_block) used_block small_heap-IsHeap refl
