-- ===== src/Vm/Map.antt =====
-- `vm_map` maps one page, and leaves the others alone.
pub mod Loop
pub mod Pair
pub mod New
use Loop.{mapped_at, vm_map_pos}
use Pair.{Mapped, pair-Mapped}
use New.{new_Mapped, map_new-eq}
use osm_re_exam.Prelude.{
  ℕ, zero, suc, ◌+◌, ◌-◌, ◌/◌, ◌%◌, ◌^◌, ◌≤◌, ◌<◌, ◌≡◌, refl, ◌≢◌, ◌⊎◌, inl, inr, sym, ap, ◌∙◌,
  List, [], ◌∷◌, Bool, true, false, not, Option, none, some, ◌==◌, if◌then◌else◌, ltb, leb, arith,
  length, get_or, set, Bool-cases, ==→eq, ==→ne, eq→==, gt→leb, le→leb, get_or-set_self,
  get_or-set_ne, length-set,
}
use osm_re_exam.Prelude.Int.{ℤ, pos}
use osm_re_exam.Prelude.Result.{
  Result, ok, panic, ◌>>=◌, Yields, yields, Yields-bind, read, write, read-ok, write-ok,
}
use osm_re_exam.Vm.{
  TlbEntry, Pagetable, pagetable_entries, is_on_odd_page, map_pair, map_first, map_new, map_loop,
  vm_map, dirty_bit,
}
use osm_re_exam.Vm.Lookup.{
  blank, entry, IsTable, find_pair, half, half_at, translate, page_of_pair, find_pair-some,
  find_pair-set_same, find_pair-set_behind, or_else, find_pair-suc, half_at-set, bits-set,
}

-- The pair that holds the page is in use, or there is a place for a new one.
abbrev pub HasRoom : Pagetable → ℕ → Type 0
HasRoom pt vaddr =
    (find_pair pt.valid_count 0 pt.entries (vaddr / 2 ^ 13) ≢ none)
    ⊎ (pt.valid_count < pagetable_entries)

-- On a table within its bounds, `vm_map` of a page that is not mapped yet, with a dirty argument of
-- 0 or 1 and room for it, succeeds: the page then leads to the frame of `physaddr` with that dirty
-- bit, every other page leads to where it did, and the table is within its bounds.
pub vm_map-Mapped :
    (pt : Pagetable) (physaddr vaddr dirty : ℕ)
    → IsTable pt
    → dirty < 2
    → HasRoom pt vaddr
    → translate pt vaddr ≡ none
    → Yields
        (λ pt'. Mapped pt pt' (physaddr / 2 ^ 12) vaddr dirty)
        (vm_map pt physaddr vaddr (pos dirty))
unfolding translate
vm_map-Mapped pt physaddr vaddr dirty t small room free =
    rw (vm_map_pos pt physaddr vaddr dirty t small) (cases _ refl room free)
  where
    cases :
        (o : Option ℕ)
        → find_pair pt.valid_count 0 pt.entries (vaddr / 2 ^ 13) ≡ o
        → HasRoom pt vaddr
        → half_at pt.entries o (is_on_odd_page vaddr) ≡ none
        → Yields
            (λ pt'. Mapped pt pt' (physaddr / 2 ^ 12) vaddr dirty)
            (mapped_at pt physaddr vaddr dirty o)
    cases (some j) e room free = pair-Mapped pt physaddr vaddr dirty t j e free
    cases none e (inl some_pair) free = absurd (some_pair e)
    cases none e (inr room) free =
        rw (map_new-eq pt physaddr vaddr dirty t room)
          (yields (new_Mapped pt physaddr vaddr dirty t room e))

map_pair-panic :
    (e : TlbEntry) (physaddr : ℕ) (odd : Bool) (dirty : ℕ)
    → (e.v0 < 2) × (e.v1 < 2)
    → half e odd ≢ none
    → map_pair e physaddr odd dirty ≡ panic
unfolding map_pair
map_pair-panic e physaddr false dirty b used = ground arith
map_pair-panic e physaddr true dirty b used = ground arith

-- `vm_map` panics for a page that is mapped already, and for a page whose pair has no entry when
-- all 340 are in use.
pub vm_map-panic :
    (pt : Pagetable) (physaddr vaddr dirty : ℕ)
    → IsTable pt
    → dirty < 2
    → (translate pt vaddr ≢ none)
      ⊎ ((find_pair pt.valid_count 0 pt.entries (vaddr / 2 ^ 13) ≡ none)
          × (pt.valid_count ≡ pagetable_entries))
    → vm_map pt physaddr vaddr (pos dirty) ≡ panic
unfolding translate map_new
vm_map-panic pt physaddr vaddr dirty t small (inl used) =
    vm_map_pos pt physaddr vaddr dirty t small ∙ cases _ used
  where
    cases :
        (o : Option ℕ)
        → half_at pt.entries o (is_on_odd_page vaddr) ≢ none
        → mapped_at pt physaddr vaddr dirty o ≡ panic
    cases none used = absurd (used refl)
    cases (some j) used =
        rw (
          map_pair-panic (entry pt.entries j) physaddr (is_on_odd_page vaddr) dirty (t.bits j) used)
vm_map-panic pt physaddr vaddr dirty t small (inr (nowhere, full)) =
    vm_map_pos pt physaddr vaddr dirty t small
    ∙ rw (nowhere, le→leb pagetable_entries pt.valid_count (omega arith))
