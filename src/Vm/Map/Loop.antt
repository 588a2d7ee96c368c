-- ===== src/Vm/Map/Loop.antt =====
-- The loop of `vm_map` against the search for a page pair.
use osm_re_exam.Prelude.{
  ℕ, zero, suc, ◌+◌, ◌/◌, ◌^◌, ◌≤◌, ◌<◌, ◌≡◌, refl, inl, inr, Option, none, some, ◌==◌, arith,
  length, Bool-cases,
}
use osm_re_exam.Prelude.Int.{pos}
use osm_re_exam.Prelude.Result.{Result, ok, ◌>>=◌, write, read-ok}
use osm_re_exam.Vm.{Pagetable, is_on_odd_page, map_pair, map_new, map_loop, vm_map, dirty_bit}
use osm_re_exam.Vm.Lookup.{blank, entry, IsTable, find_pair}

-- The loop of `vm_map`, by the place that the search finds.
abbrev pub mapped_at : Pagetable → ℕ → ℕ → ℕ → Option ℕ → Result Pagetable
mapped_at pt physaddr vaddr dirty none = map_new pt physaddr vaddr dirty
mapped_at pt physaddr vaddr dirty (some i) = do
  e' ← map_pair (entry pt.entries i) physaddr (is_on_odd_page vaddr) dirty
  entries ← write pt.entries i e'
  ok (record pt { entries = entries })

map_loop-mapped_at :
    (pt : Pagetable) (physaddr vaddr dirty n i : ℕ)
    → i + n ≤ length pt.entries
    → map_loop n i pt physaddr vaddr dirty
      ≡ mapped_at pt physaddr vaddr dirty (find_pair n i pt.entries (vaddr / 2 ^ 13))
unfolding map_loop find_pair
map_loop-mapped_at pt physaddr vaddr dirty zero i h = refl
map_loop-mapped_at pt physaddr vaddr dirty (suc n) i h =
    rw (read-ok pt.entries i blank (omega arith))
      (elim (Bool-cases ((entry pt.entries i).vpn2 == vaddr / 2 ^ 13)) [
        | inl here ↦ rw here
        | inr next ↦ rw next (map_loop-mapped_at pt physaddr vaddr dirty n (i + 1) (omega arith))
      ])

pub vm_map_pos :
    (pt : Pagetable) (physaddr vaddr dirty : ℕ)
    → IsTable pt
    → dirty < 2
    → vm_map pt physaddr vaddr (pos dirty)
      ≡ mapped_at pt physaddr vaddr dirty (find_pair pt.valid_count 0 pt.entries (vaddr / 2 ^ 13))
unfolding vm_map dirty_bit
vm_map_pos pt physaddr vaddr zero t small =
    map_loop-mapped_at pt physaddr vaddr 0 pt.valid_count 0 (omega (arith, t.used, t.places))
vm_map_pos pt physaddr vaddr (suc zero) t small =
    map_loop-mapped_at pt physaddr vaddr 1 pt.valid_count 0 (omega (arith, t.used, t.places))
vm_map_pos pt physaddr vaddr (suc (suc d)) t small = absurd (omega arith)
