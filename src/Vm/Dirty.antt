-- ===== src/Vm/Dirty.antt =====
-- `vm_set_dirty` changes the dirty bit of one page.
use osm_re_exam.Prelude.{
  ℕ, zero, suc, ◌+◌, ◌/◌, ◌^◌, ◌≤◌, ◌<◌, ◌≡◌, refl, ◌∙◌, Bool, true, false, Option, none, some,
  ◌==◌, arith, length, Bool-cases, inl, inr,
}
use osm_re_exam.Prelude.Int.{pos}
use osm_re_exam.Prelude.Result.{
  Result, ok, panic, ◌>>=◌, Yields, yields, Yields-bind, write, read-ok, write-ok,
}
use osm_re_exam.Vm.{
  TlbEntry, Pagetable, is_on_odd_page, dirty_bit, set_half_dirty, set_dirty_loop, vm_set_dirty,
}
use osm_re_exam.Vm.Lookup.{
  blank, entry, IsTable, find_pair, half, half_at, translate, find_pair-some,
}
use osm_re_exam.Vm.Map.Pair.{Mapped, Written, Written-Mapped}

abbrev dirtied_at : Pagetable → ℕ → ℕ → Option ℕ → Result Pagetable
dirtied_at pt vaddr dirty none = panic
dirtied_at pt vaddr dirty (some i) = do
  e' ← set_half_dirty (entry pt.entries i) (is_on_odd_page vaddr) dirty
  entries ← write pt.entries i e'
  ok (record pt { entries = entries })

set_dirty_loop-dirtied_at :
    (pt : Pagetable) (vaddr dirty n i : ℕ)
    → i + n ≤ length pt.entries
    → set_dirty_loop n i pt vaddr dirty
      ≡ dirtied_at pt vaddr dirty (find_pair n i pt.entries (vaddr / 2 ^ 13))
unfolding set_dirty_loop find_pair
set_dirty_loop-dirtied_at pt vaddr dirty zero i h = refl
set_dirty_loop-dirtied_at pt vaddr dirty (suc n) i h =
    rw (read-ok pt.entries i blank (omega arith))
      (elim (Bool-cases ((entry pt.entries i).vpn2 == vaddr / 2 ^ 13)) [
        | inl here ↦ rw here
        | inr next ↦ rw next (set_dirty_loop-dirtied_at pt vaddr dirty n (i + 1) (omega arith))
      ])

vm_set_dirty_pos :
    (pt : Pagetable) (vaddr dirty : ℕ)
    → IsTable pt
    → dirty < 2
    → vm_set_dirty pt vaddr (pos dirty)
      ≡ dirtied_at pt vaddr dirty (find_pair pt.valid_count 0 pt.entries (vaddr / 2 ^ 13))
unfolding vm_set_dirty dirty_bit
vm_set_dirty_pos pt vaddr zero t small =
    set_dirty_loop-dirtied_at pt vaddr 0 pt.valid_count 0 (omega (arith, t.used, t.places))
vm_set_dirty_pos pt vaddr (suc zero) t small =
    set_dirty_loop-dirtied_at pt vaddr 1 pt.valid_count 0 (omega (arith, t.used, t.places))
vm_set_dirty_pos pt vaddr (suc (suc d)) t small = absurd (omega arith)

set_half_dirty-Written :
    (e : TlbEntry) (odd : Bool) (pfn old dirty : ℕ)
    → (e.v0 < 2) × (e.v1 < 2)
    → half e odd ≡ some (pfn, old)
    → Yields (λ e'. Written e e' odd pfn dirty) (set_half_dirty e odd dirty)
unfolding set_half_dirty
set_half_dirty-Written e false pfn old dirty b used = elim (Bool-cases (e.v0 == 0)) [
  | inl no_half ↦ ground arith
  | inr valid ↦
      rw valid (yields (record { pair = refl; this = ground arith; other = refl; bits = b }))
]
set_half_dirty-Written e true pfn old dirty b used = elim (Bool-cases (e.v1 == 0)) [
  | inl no_half ↦ ground arith
  | inr valid ↦
      rw valid (yields (record { pair = refl; this = ground arith; other = refl; bits = b }))
]

set_half_dirty-panic :
    (e : TlbEntry) (odd : Bool) (dirty : ℕ) → half e odd ≡ none → set_half_dirty e odd dirty ≡ panic
unfolding set_half_dirty
set_half_dirty-panic e false dirty h = ground arith
set_half_dirty-panic e true dirty h = ground arith

-- For a mapped page and a dirty argument of 0 or 1, `vm_set_dirty` on a table within its bounds
-- succeeds: the page keeps its frame and has the new dirty bit, every other page leads to where it
-- did, and the table is within its bounds.
vm_set_dirty-Mapped :
    (pt : Pagetable) (vaddr dirty pfn old : ℕ)
    → IsTable pt
    → dirty < 2
    → translate pt vaddr ≡ some (pfn, old)
    → Yields (λ pt'. Mapped pt pt' pfn vaddr dirty) (vm_set_dirty pt vaddr (pos dirty))
unfolding translate
vm_set_dirty-Mapped pt vaddr dirty pfn old t small used =
    rw (vm_set_dirty_pos pt vaddr dirty t small) (cases _ refl used)
  where
    cases :
        (o : Option ℕ)
        → find_pair pt.valid_count 0 pt.entries (vaddr / 2 ^ 13) ≡ o
        → half_at pt.entries o (is_on_odd_page vaddr) ≡ some (pfn, old)
        → Yields (λ pt'. Mapped pt pt' pfn vaddr dirty) (dirtied_at pt vaddr dirty o)
    cases none e used = cc
    cases (some j) e used =
        Yields-bind _
          (set_half_dirty-Written (entry pt.entries j) (is_on_odd_page vaddr) pfn old dirty
            (t.bits j) used)
          λ e' w.
            rw
              (write-ok pt.entries j e'
                (omega (arith, find_pair-some _ 0 _ _ j e, t.used, t.places)))
              (yields (Written-Mapped pt pfn vaddr dirty t j e' e w))

-- `vm_set_dirty` panics for a page that is not mapped.
pub vm_set_dirty-panic :
    (pt : Pagetable) (vaddr dirty : ℕ)
    → IsTable pt
    → dirty < 2
    → translate pt vaddr ≡ none
    → vm_set_dirty pt vaddr (pos dirty) ≡ panic
unfolding translate
vm_set_dirty-panic pt vaddr dirty t small free =
    vm_set_dirty_pos pt vaddr dirty t small ∙ cases _ free
  where
    cases :
        (o : Option ℕ)
        → half_at pt.entries o (is_on_odd_page vaddr) ≡ none
        → dirtied_at pt vaddr dirty o ≡ panic
    cases none free = refl
    cases (some j) free =
        rw (set_half_dirty-panic (entry pt.entries j) (is_on_odd_page vaddr) dirty free)
