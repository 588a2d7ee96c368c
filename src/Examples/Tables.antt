-- ===== src/Examples/Tables.antt =====
-- Page tables.
use osm_re_exam.Prelude.{
  ℕ, zero, suc, ◌/◌, ◌^◌, ◌<◌, ◌≡◌, refl, inr, ◌∷◌, true, none, some, arith, replicate,
  length-replicate, ap,
}
use osm_re_exam.Prelude.Int.{pos}
use osm_re_exam.Prelude.Result.{Yields}
use osm_re_exam.Vm.{TlbEntry, Pagetable, is_on_odd_page, tlb_access_exception, vm_map}
use osm_re_exam.Vm.Miss.{Missed, tlb_access_exception-Missed}
use osm_re_exam.Vm.Lookup.{blank, entry, IsTable, find_pair, translate}
use osm_re_exam.Vm.Map.{vm_map-Mapped}
use osm_re_exam.Vm.Map.Pair.{Mapped}

-- One entry, with the page of address 0x2000 on frame 7, writable.
abbrev pub first : TlbEntry
first = record blank { vpn2 = 1; pfn0 = 7; d0 = 1; v0 = 1 }

abbrev pub table : Pagetable
table = record { asid = 3; valid_count = 1; entries = first ∷ replicate 339 blank }

replicate_bits :
    (n i : ℕ) → ((entry (replicate n blank) i).v0 < 2) × ((entry (replicate n blank) i).v1 < 2)
replicate_bits zero i = omega arith
replicate_bits (suc n) zero = omega arith
replicate_bits (suc n) (suc i) = replicate_bits n i

pub table-IsTable : IsTable table
table-IsTable = record {
  bits = bits;
  places = ap suc (length-replicate 339 blank);
  used = omega arith;
}
  where
    bits : (i : ℕ) → ((entry table.entries i).v0 < 2) × ((entry table.entries i).v1 < 2)
    bits zero = omega arith
    bits (suc i) = replicate_bits 339 i

at_2000 : translate table 0x2000 ≡ some (7, 1)
unfolding translate find_pair is_on_odd_page
at_2000 = refl

at_3000 : translate table 0x3000 ≡ none
unfolding translate find_pair is_on_odd_page
at_3000 = refl

tlb_access_exception-Missed_example :
    Missed table true 0x2000 (tlb_access_exception (some table) true 0x2000 (0x2000 / 2 ^ 13))
tlb_access_exception-Missed_example = tlb_access_exception-Missed table true 0x2000 table-IsTable

vm_map-Mapped_example :
    Yields (λ pt'. Mapped table pt' (0x5000 / 2 ^ 12) 0x3000 0) (vm_map table 0x5000 0x3000 (pos 0))
vm_map-Mapped_example =
    vm_map-Mapped table 0x5000 0x3000 0 table-IsTable (omega arith) (inr (omega arith)) at_3000
