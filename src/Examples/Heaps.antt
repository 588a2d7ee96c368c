-- ===== src/Examples/Heaps.antt =====
-- The heap over numbers, with a concrete `ilogb`.
use native.Mathlib.Nat.{one-le-pow}
use mathlib.Core.List.{Perm}
use osm_re_exam.Prelude.{
  ◌∷◌, ℕ, zero, suc, ◌+◌, ◌/◌, ◌^◌, ◌≤◌, ◌<◌, ◌≡◌, refl, true, false, inl, inr, arith, ltb,
  if◌then◌else◌, Bool-cases, ltb→ge,
}
use osm_re_exam.Prelude.Bits.{two-pow-suc}
use osm_re_exam.Heap.{
  leaf, node, Heap, success, enomem, insert_on_path, insert_below, merge_on_path, heap_insert,
  heap_is_valid, subheap_is_valid, cardinality,
}
use osm_re_exam.Heap.Order.{IsStrictWeak, heap_insert-valid}
use osm_re_exam.Heap.Content.{values, heap_insert-perm}
use osm_re_exam.Heap.Shape.{IsLog, IsComplete, occupied, heap_insert-IsComplete}

ltb-IsStrictWeak : IsStrictWeak ltb
ltb-IsStrictWeak = record { asym = λ a b h. ground arith; trans_not = λ a b c h h'. ground arith }

log_fuel : ℕ → ℕ → ℕ
log_fuel zero x = 0
log_fuel (suc f) x = let rest = suc (log_fuel f (x / 2)) in if ltb x 2 then 0 else rest

log_fuel_bounds : (f x : ℕ) → x ≤ f → 0 < x → (2 ^ log_fuel f x ≤ x) × (x < 2 ^ suc (log_fuel f x))
unfolding log_fuel
log_fuel_bounds zero x h h' = absurd (omega arith)
log_fuel_bounds (suc f) x h h' = elim (Bool-cases (ltb x 2)) [
  | inl small ↦ rw small (omega arith, ground arith)
  | inr large ↦
      let big = ltb→ge x 2 large in
      let (a, b) = log_fuel_bounds f (x / 2) (omega arith) (omega arith) in
      rw large (
        omega (arith, two-pow-suc (log_fuel f (x / 2))),
        omega (arith, two-pow-suc (suc (log_fuel f (x / 2)))),
      )
]

ilogb : ℕ → ℕ
ilogb x = log_fuel x x

ilogb-IsLog : IsLog ilogb
unfolding ilogb
ilogb-IsLog x h small = log_fuel_bounds x x (omega arith) h

abbrev one_node : Heap ℕ
one_node = record { n_nodes = 1; root = node leaf leaf 5 }

insert_larger :
    heap_insert ltb ilogb true one_node 9
    ≡ (record { n_nodes = 2; root = node (node leaf leaf 5) leaf 9 }, success)
unfolding heap_insert ilogb log_fuel insert_on_path insert_below merge_on_path
insert_larger = refl

heap_insert-valid_example : heap_is_valid ltb (heap_insert ltb ilogb true one_node 9).0 ≡ true
unfolding heap_is_valid subheap_is_valid
heap_insert-valid_example = heap_insert-valid ltb-IsStrictWeak ilogb true one_node 9 refl

heap_insert-perm_example :
    ((heap_insert ltb ilogb true one_node 9).1 ≡ success)
    × Perm (values (heap_insert ltb ilogb true one_node 9).0.root) (9 ∷ values one_node.root)
    × ((heap_insert ltb ilogb true one_node 9).0.n_nodes ≡ 2)
    × (cardinality (heap_insert ltb ilogb true one_node 9).0.root ≡ cardinality one_node.root + 1)
    × (heap_insert ltb ilogb false one_node 9 ≡ (one_node, enomem))
heap_insert-perm_example = heap_insert-perm ltb ilogb one_node 9

one_node-IsComplete : IsComplete one_node.root 1
unfolding occupied
one_node-IsComplete zero k lo hi = ground arith
one_node-IsComplete (suc d) k lo hi = ground (arith, two-pow-suc d, one-le-pow d 2)

heap_insert-IsComplete_example : IsComplete (heap_insert ltb ilogb true one_node 9).0.root 2
heap_insert-IsComplete_example =
    heap_insert-IsComplete ltb ilogb one_node 9 ilogb-IsLog (omega arith) one_node-IsComplete
