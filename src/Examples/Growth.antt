-- ===== src/Examples/Growth.antt =====
-- The heap of a process.
use osm_re_exam.Prelude.{◌≡◌, refl, none, some, arith, ◌==◌, inl, inr, Bool-cases, ==→eq, ==→ne}
use osm_re_exam.Prelude.Result.{Yields}
use osm_re_exam.Bitmap.Digits.{bit}
use osm_re_exam.Bitmap.Find.{AllTaken}
use osm_re_exam.Prelude.Bits.{digit}
use osm_re_exam.Vm.{is_on_odd_page}
use osm_re_exam.Vm.Lookup.{translate, find_pair}
use osm_re_exam.Process.{Space, process_memlimit}
use osm_re_exam.Process.Memory.{IsSpace, Unmapped, Raised, process_memlimit-Raised}
use osm_re_exam.Examples.Pages.{pool, pool-Inv}
use osm_re_exam.Examples.Tables.{table, table-IsTable}

-- A heap that ends in page 4, and one that ends in page 1, just below the mapped page 2.
abbrev space : Space
space = record { heap_end = 0x4000; pagetable = table; pool = pool }

abbrev low_space : Space
low_space = record space { heap_end = 0x1ffc }

space-IsSpace : IsSpace space 2
space-IsSpace = record { inv = pool-Inv; table = table-IsTable; room = omega arith }

low_space-IsSpace : IsSpace low_space 0
low_space-IsSpace = record { inv = pool-Inv; table = table-IsTable; room = omega arith }

page_5 : translate table 0x5000 ≡ none
unfolding translate find_pair is_on_odd_page
page_5 = refl

page_6 : translate table 0x6000 ≡ none
unfolding translate find_pair is_on_odd_page
page_6 = refl

page_2 : translate table 0x2000 ≡ some (7, 1)
unfolding translate find_pair is_on_odd_page
page_2 = refl

space-Unmapped : Unmapped space 5 2
space-Unmapped k above below = elim (Bool-cases (k == 5)) [
  | inl five ↦ let e : k ≡ 5 = ==→eq k 5 five in rw e page_5
  | inr six ↦ let e : k ≡ 6 = omega (arith, ==→ne k 5 six) in rw e page_6
]

pool_free : ¬ AllTaken pool.free_pages pool.num_pages
unfolding bit digit
pool_free taken = cc (taken 3 (omega arith))

process_memlimit-Raised_example : Yields (Raised space 0x6000) (process_memlimit space 0x6000)
process_memlimit-Raised_example =
    process_memlimit-Raised space 0x6000 (omega arith) (omega arith) (omega arith) space-IsSpace
      space-Unmapped
