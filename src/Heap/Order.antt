-- ===== src/Heap/Order.antt =====
-- `heap_insert` keeps the heap order.
use osm_re_exam.Prelude.{ℕ, ◌+◌, ◌/◌, ◌≡◌, refl, Bool, true, false, not, arith}
use osm_re_exam.Heap.{
  Node, leaf, node, Heap, merge_on_path, insert_below, insert_on_path, heap_insert, dominates,
  subheap_is_valid, heap_is_valid,
}

-- What the heap asks of its comparison: a strict order in which incomparable values are
-- interchangeable.
pub record IsStrictWeak {T : Type 0} (less : T → T → Bool) : Type 0 where
  pub asym : (a b : T) → less a b ≡ true → less b a ≡ false
  pub trans_not : (a b c : T) → less a b ≡ false → less b c ≡ false → less a c ≡ false

module _ {T : Type 0} {less : T → T → Bool} (order : IsStrictWeak less) where
  dominates_trans :
      (v w : T) (t : Node T)
      → less v w ≡ false
      → dominates less w t ≡ true
      → dominates less v t ≡ true
  dominates_trans v w leaf h d = refl
  dominates_trans v w (node l r x) h d = ground (arith, order.trans_not v w x h)

  dominates-merge :
      (v : T) (t : Node T) (w : T) (path mask : ℕ)
      → dominates less v (merge_on_path t w path mask) ≡ not (less v w)
  unfolding merge_on_path
  dominates-merge v leaf w path mask = refl
  dominates-merge v (node l r x) w path mask = ground arith

  -- Below a value that is not less than the displaced root, the merged tree is ordered.
  merge-valid :
      (t : Node T) (v : T) (path mask : ℕ)
      → dominates less v t ≡ true
      → subheap_is_valid less t ≡ true
      → subheap_is_valid less (merge_on_path t v path mask) ≡ true
  unfolding merge_on_path subheap_is_valid
  merge-valid leaf v path mask d h = refl
  merge-valid (node l r w) v path mask d h = ground (
    arith,
    dominates_trans v w l,
    dominates_trans v w r,
    dominates-merge v r w path (mask / 2),
    dominates-merge v l w path (mask / 2),
    merge-valid r w path (mask / 2),
    merge-valid l w path (mask / 2),
  )

  -- What dominates the old tree and the new value dominates the new tree.
  dominates-insert :
      (u : T) (t : Node T) (v : T) (path mask : ℕ)
      → dominates less u t ≡ true
      → less u v ≡ false
      → dominates less u (insert_below less t v path mask) ≡ true
  unfolding insert_below
  dominates-insert u leaf v path mask d h = rw (dominates-merge u leaf v path mask) (ground arith)
  dominates-insert u (node l r w) v path mask d h =
      ground (arith, dominates-merge u (node l r w) v path mask)

  insert-valid :
      (t : Node T) (v : T) (path mask : ℕ)
      → subheap_is_valid less t ≡ true
      → subheap_is_valid less (insert_below less t v path mask) ≡ true
  unfolding insert_below subheap_is_valid
  insert-valid leaf v path mask h = merge-valid leaf v path mask refl refl
  insert-valid (node l r w) v path mask h = ground (
    arith,
    order.asym v w,
    dominates-insert w r v path (mask / 2),
    dominates-insert w l v path (mask / 2),
    insert-valid r v path (mask / 2),
    insert-valid l v path (mask / 2),
    merge-valid (node l r w) v path mask,
  )

  -- For a strict weak order, whatever path the insertion takes and whether or not `malloc`
  -- succeeds, `heap_insert` turns a heap that passes `heap_is_valid` into one that passes it.
  pub heap_insert-valid :
      (ilogb : ℕ → ℕ) (malloc_ok : Bool) (heap : Heap T) (v : T)
      → heap_is_valid less heap ≡ true
      → heap_is_valid less (heap_insert less ilogb malloc_ok heap v).0 ≡ true
  unfolding heap_insert insert_on_path heap_is_valid
  heap_insert-valid ilogb true heap v h = insert-valid heap.root v (heap.n_nodes + 1) _ h
  heap_insert-valid ilogb false heap v h = h
