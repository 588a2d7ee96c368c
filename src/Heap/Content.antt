-- ===== src/Heap/Content.antt =====
-- `heap_insert` adds one value to those in the heap and loses none.
use mathlib.Core.List.{Perm, perm_middle}
use mathlib.Core.List.Perm
use osm_re_exam.Prelude.{
  ℕ, ◌+◌, ◌/◌, ◌^◌, ◌≡◌, refl, Bool, true, false, inl, inr, bit_and, ltb, List, [], ◌∷◌, ◌++◌,
  arith, Bool-cases,
}
use osm_re_exam.Heap.{
  Node, leaf, node, Heap, success, enomem, merge_on_path, insert_below, insert_on_path, heap_insert,
  cardinality,
}

module _ {T : Type 0} where
  -- The values of a tree, the root first.
  unfoldable pub values : Node T → List T
  values leaf = []
  values (node l r v) = v ∷ (values l ++ values r)

  -- A value moves from within one half to the front.
  front_left : (a : T) (xs xs' ys : List T) → Perm xs' (a ∷ xs) → Perm (xs' ++ ys) (a ∷ (xs ++ ys))
  front_left a xs xs' ys p = Perm.append p (Perm.refl ys)

  front_right : (a : T) (xs ys ys' : List T) → Perm ys' (a ∷ ys) → Perm (xs ++ ys') (a ∷ (xs ++ ys))
  front_right a xs ys ys' p = Perm.trans (Perm.append (Perm.refl xs) p) (perm_middle xs ys)

  merge-perm :
      (t : Node T) (v : T) (path mask : ℕ)
      → Perm (values (merge_on_path t v path mask)) (v ∷ values t)
  unfolding merge_on_path values
  merge-perm leaf v path mask = Perm.refl _
  merge-perm (node l r w) v path mask = elim (Bool-cases (ltb 0 (bit_and path (mask / 2)))) [
    | inl e ↦
        rw e (Perm.cons v (front_right w (values l) (values r) _ (merge-perm r w path (mask / 2))))
    | inr e ↦
        rw e (Perm.cons v (front_left w (values l) _ (values r) (merge-perm l w path (mask / 2))))
  ]

  cardinality-merge :
      (t : Node T) (v : T) (path mask : ℕ)
      → cardinality (merge_on_path t v path mask) ≡ cardinality t + 1
  unfolding merge_on_path cardinality
  cardinality-merge leaf v path mask = refl
  cardinality-merge (node l r w) v path mask =
      ground (arith, cardinality-merge r w path (mask / 2), cardinality-merge l w path (mask / 2))

module _ {T : Type 0} (less : T → T → Bool) where
  insert-perm :
      (t : Node T) (v : T) (path mask : ℕ)
      → Perm (values (insert_below less t v path mask)) (v ∷ values t)
  unfolding insert_below values
  insert-perm leaf v path mask = merge-perm leaf v path mask
  insert-perm (node l r w) v path mask = elim (Bool-cases (less v w)) [
    | inr stop ↦ rw stop (merge-perm (node l r w) v path mask)
    | inl down ↦ rw down (elim (Bool-cases (ltb 0 (bit_and path (mask / 2)))) [
      | inl e ↦ rw e (
          Perm.trans
            (Perm.cons w (front_right v (values l) (values r) _ (insert-perm r v path (mask / 2))))
            (Perm.swap v w _))
      | inr e ↦ rw e (
          Perm.trans
            (Perm.cons w (front_left v (values l) _ (values r) (insert-perm l v path (mask / 2))))
            (Perm.swap v w _))
    ])
  ]

  cardinality-insert :
      (t : Node T) (v : T) (path mask : ℕ)
      → cardinality (insert_below less t v path mask) ≡ cardinality t + 1
  unfolding insert_below cardinality
  cardinality-insert leaf v path mask = cardinality-merge leaf v path mask
  cardinality-insert (node l r w) v path mask = ground (
    arith,
    cardinality-insert r v path (mask / 2),
    cardinality-insert l v path (mask / 2),
    cardinality-merge (node l r w) v path mask,
  )

  -- Whatever the comparison and the path, `heap_insert` with memory for the node succeeds, the
  -- values of the new heap are those of the old one and the inserted value, up to order, and both
  -- the counter and the number of nodes grow by one; without memory it returns ENOMEM and the heap
  -- as it was.
  pub heap_insert-perm :
      (ilogb : ℕ → ℕ) (heap : Heap T) (v : T)
      → ((heap_insert less ilogb true heap v).1 ≡ success)
        × Perm (values (heap_insert less ilogb true heap v).0.root) (v ∷ values heap.root)
        × ((heap_insert less ilogb true heap v).0.n_nodes ≡ heap.n_nodes + 1)
        × (cardinality (heap_insert less ilogb true heap v).0.root ≡ cardinality heap.root + 1)
        × (heap_insert less ilogb false heap v ≡ (heap, enomem))
  unfolding heap_insert insert_on_path
  heap_insert-perm ilogb heap v = (
    refl,
    insert-perm heap.root v (heap.n_nodes + 1) _,
    refl,
    cardinality-insert heap.root v (heap.n_nodes + 1) (2 ^ ilogb (heap.n_nodes + 1)),
    refl,
  )
