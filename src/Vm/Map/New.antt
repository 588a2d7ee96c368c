-- ===== src/Vm/Map/New.antt =====
-- A new entry behind the last one, as `vm_map` makes it.
use osm_re_exam.Prelude.{
  ℕ, suc, ◌+◌, ◌/◌, ◌^◌, ◌<◌, ◌≡◌, refl, ◌≢◌, inl, inr, sym, ap, ◌∙◌, List, Bool, true, false, not,
  Option, none, some, ◌==◌, if◌then◌else◌, arith, length, set, Bool-cases, ==→eq, eq→==, gt→leb,
  get_or-set_self, get_or-set_ne, length-set,
}
use osm_re_exam.Prelude.Result.{ok, read-ok, write-ok}
use osm_re_exam.Vm.{TlbEntry, Pagetable, pagetable_entries, is_on_odd_page, map_first, map_new}
use osm_re_exam.Vm.Lookup.{
  blank, entry, IsTable, find_pair, half, half_at, translate, page_of_pair, find_pair-some,
  find_pair-set_behind, or_else, find_pair-suc, bits-set,
}
use osm_re_exam.Vm.Map.Pair.{Mapped, other_half}

-- A fresh entry maps its own half, and the other half of its pair leads nowhere.
record First (e' : TlbEntry) (vaddr : ℕ) (odd : Bool) (pfn dirty : ℕ) : Type 0 where
  pair : e'.vpn2 ≡ vaddr / 2 ^ 13
  this : half e' odd ≡ some (pfn, dirty)
  other : half e' (not odd) ≡ none
  bits : (e'.v0 < 2) × (e'.v1 < 2)

map_first-First :
    (e : TlbEntry) (asid physaddr vaddr : ℕ) (odd : Bool) (dirty : ℕ)
    → First (map_first e asid physaddr vaddr odd dirty) vaddr odd (physaddr / 2 ^ 12) dirty
unfolding map_first
map_first-First e asid physaddr vaddr false dirty = record {
  pair = refl;
  this = refl;
  other = refl;
  bits = omega arith;
}
map_first-First e asid physaddr vaddr true dirty = record {
  pair = refl;
  this = refl;
  other = refl;
  bits = omega arith;
}

module _ (pt : Pagetable) (physaddr vaddr dirty : ℕ) (t : IsTable pt) where
  -- In a new entry behind the last one.
  module _ (room : pt.valid_count < pagetable_entries) where
    new_entry : TlbEntry
    new_entry =
        map_first (entry pt.entries pt.valid_count) pt.asid physaddr vaddr (is_on_odd_page vaddr)
          dirty

    new_entries : List TlbEntry
    new_entries = set pt.entries pt.valid_count new_entry

    new_fits : pt.valid_count < length pt.entries
    new_fits = omega (arith, t.places)

    first : First new_entry vaddr (is_on_odd_page vaddr) (physaddr / 2 ^ 12) dirty
    unfolding new_entry
    first = map_first-First _ pt.asid physaddr vaddr (is_on_odd_page vaddr) dirty

    find_new :
        (v : ℕ)
        → find_pair (pt.valid_count + 1) 0 new_entries v
          ≡ or_else
              (find_pair pt.valid_count 0 pt.entries v)
              (if vaddr / 2 ^ 13 == v then some pt.valid_count else none)
    unfolding new_entries
    find_new v =
        let c = pt.valid_count in
        let next : c + 1 ≡ suc c = omega arith in
        rw (
          next,
          find_pair-suc c 0 c new_entries v (omega arith),
          find_pair-set_behind c 0 pt.entries c new_entry v (omega arith),
          get_or-set_self pt.entries c new_entry blank new_fits,
          first.pair,
        )

    pub new_table : Pagetable
    new_table = record pt { entries = new_entries; valid_count = pt.valid_count + 1 }

    -- An old entry is where it was.
    old_entry : (i : ℕ) → i < pt.valid_count → entry new_entries i ≡ entry pt.entries i
    unfolding new_entries
    old_entry i h = get_or-set_ne pt.entries pt.valid_count i new_entry blank (omega arith)

    at_new : entry new_entries pt.valid_count ≡ new_entry
    unfolding new_entries
    at_new = get_or-set_self pt.entries pt.valid_count new_entry blank new_fits

    -- What the search in the old table says decides for another page.
    new_elsewhere :
        (va : ℕ) (o : Option ℕ)
        → find_pair pt.valid_count 0 pt.entries (va / 2 ^ 13) ≡ o
        → va / 2 ^ 12 ≢ vaddr / 2 ^ 12
        → half_at new_entries
            (or_else o (if vaddr / 2 ^ 13 == va / 2 ^ 13 then some pt.valid_count else none))
            (is_on_odd_page va)
          ≡ half_at pt.entries o (is_on_odd_page va)
    unfolding new_entries
    new_elsewhere va (some i) found apart =
        ap (λ e. half e (is_on_odd_page va))
          (old_entry i (omega (arith, find_pair-some _ 0 _ _ i found)))
    new_elsewhere va none nowhere apart = elim (Bool-cases (vaddr / 2 ^ 13 == va / 2 ^ 13)) [
      | inr off ↦ rw off
      | inl at ↦
          let odd =
            other_half (is_on_odd_page va) (is_on_odd_page vaddr)
              (λ q. apart (page_of_pair va vaddr (sym (==→eq _ _ at)) q)) in
          rw (at, get_or-set_self pt.entries pt.valid_count new_entry blank new_fits, odd)
            first.other
    ]

    pub new_Mapped :
        find_pair pt.valid_count 0 pt.entries (vaddr / 2 ^ 13) ≡ none
        → Mapped pt new_table (physaddr / 2 ^ 12) vaddr dirty
    unfolding new_table translate
    new_Mapped nowhere = record {
      table = record {
        bits = unfold new_entries in bits-set pt.entries pt.valid_count new_entry t.bits first.bits;
        places = unfold new_entries in length-set pt.entries pt.valid_count new_entry ∙ t.places;
        used = omega arith;
      };
      there =
          rw (find_new (vaddr / 2 ^ 13), nowhere, eq→== (vaddr / 2 ^ 13) (vaddr / 2 ^ 13) refl)
            (ap (λ e. half e (is_on_odd_page vaddr)) at_new ∙ first.this);
      elsewhere = λ va apart. rw (find_new (va / 2 ^ 13)) (new_elsewhere va _ refl apart);
      grown = omega arith;
    }

    pub map_new-eq : map_new pt physaddr vaddr dirty ≡ ok new_table
    unfolding map_new new_table new_entries new_entry
    map_new-eq = rw (
      gt→leb pagetable_entries pt.valid_count room,
      read-ok pt.entries pt.valid_count blank new_fits,
      write-ok pt.entries pt.valid_count new_entry new_fits,
    )
