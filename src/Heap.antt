-- ===== src/Heap.antt =====
-- heap/sequential-heap.c (heap/concurrent-heap.c has the same code): a binary max-heap of nodes linked by pointers.
-- Every node has one parent, so a `node_t *` is the tree below it: `leaf` is NULL, and the writes
-- through `edge`, `parent` and `heap->root` rebuild the path from the root down to the node.
pub mod Order
pub mod Content
pub mod Shape
use osm_re_exam.Prelude.{
  ℕ, ◌+◌, ◌/◌, ◌^◌, ◌==◌, Bool, true, false, ◌&&◌, not, bit_and, ltb, if◌then◌else◌,
}

-- `node left_child right_child value`; the macro `T` of the header is a parameter.
pub data Node (T : Type 0) : Type 0 where
  leaf : Node T
  node : Node T → Node T → T → Node T

-- The comparison, which the struct holds too, is the argument `less` of what calls it.
pub record Heap (T : Type 0) : Type 0 where
  pub n_nodes : ℕ
  pub root : Node T

-- `errno.h` defines the number that stands for `enomem`.
pub data Status : Type 0 where
  success : Status
  enomem : Status

module _ {T : Type 0} where
  -- `merge_on_path`, with `edge` the node of value `v`: the tree below `edge` afterwards. The cases
  -- of the inner `elim` are the two directions of the path.
  unfoldable pub merge_on_path : Node T → T → ℕ → ℕ → Node T
  merge_on_path leaf v path mask = node leaf leaf v
  merge_on_path (node l r w) v path mask =
      let mask' = mask / 2 in
      let right = node l (merge_on_path r w path mask') v in
      let left = node (merge_on_path l w path mask') r v in
      if ltb 0 (bit_and path mask') then right else left

module _ {T : Type 0} (less : T → T → Bool) where
  -- The loop of `insert_on_path` from `current` on, and the writes behind it.
  unfoldable pub insert_below : Node T → T → ℕ → ℕ → Node T
  insert_below leaf v path mask = merge_on_path leaf v path mask
  insert_below (node l r w) v path mask =
      let mask' = mask / 2 in
      let right = node l (insert_below r v path mask') w in
      let left = node (insert_below l v path mask') r w in
      let stop = merge_on_path (node l r w) v path mask in
      if less v w then (if ltb 0 (bit_and path mask') then right else left) else stop

  -- `ilogb` is the function of `math.h`.
  unfoldable pub insert_on_path : (ilogb : ℕ → ℕ) → Heap T → T → Heap T
  insert_on_path ilogb heap v =
      let path = heap.n_nodes in
      record heap { root = insert_below heap.root v path (2 ^ ilogb path) }

  -- `malloc_ok` says whether `malloc` finds memory for the node.
  unfoldable pub heap_insert : (ilogb : ℕ → ℕ) → (malloc_ok : Bool) → Heap T → T → Heap T × Status
  heap_insert ilogb malloc_ok heap value =
      if malloc_ok
      then (insert_on_path ilogb (record heap { n_nodes = heap.n_nodes + 1 }) value, success)
      else (heap, enomem)

module _ {T : Type 0} where
  unfoldable pub heap_init : Heap T
  heap_init = record { n_nodes = 0; root = leaf }

  unfoldable pub heap_clear : Heap T → Heap T
  heap_clear heap = record { n_nodes = 0; root = leaf }

  unfoldable pub cardinality : Node T → ℕ
  cardinality leaf = 0
  cardinality (node l r v) = cardinality l + cardinality r + 1

module _ {T : Type 0} (less : T → T → Bool) where
  -- The value `v` is not less than that of the child, if there is one.
  abbrev pub dominates : T → Node T → Bool
  dominates v leaf = true
  dominates v (node _ _ w) = not (less v w)

  unfoldable pub subheap_is_valid : Node T → Bool
  subheap_is_valid leaf = true
  subheap_is_valid (node l r v) =
      dominates v l && (dominates v r && (subheap_is_valid l && subheap_is_valid r))

  -- A wrong size is reported on the error stream, and not in the result.
  unfoldable pub heap_is_valid : Heap T → Bool
  heap_is_valid heap = subheap_is_valid heap.root
