-- ===== src/Kmalloc.antt =====
-- buenos/kernel/kmalloc.c: the permanent allocator, a pointer that only moves up. The addresses are
-- `uint32_t`. The table of devices and the address of `KERNEL_ENDS_HERE` come from outside.
pub mod Alloc
use osm_re_exam.Prelude.{
  ℕ, zero, suc, ◌+◌, ◌-◌, ◌*◌, ◌/◌, ◌%◌, ◌^◌, ◌<◌, bit_and, List, [], ◌∷◌, ◌==◌, if◌then◌else◌, ltb,
}
use osm_re_exam.Prelude.Int.{ℤ, pos, negsuc}
use osm_re_exam.Prelude.Result.{Result, ok, panic, ◌>>=◌}

abbrev pub page_size : ℕ
page_size = 4096

abbrev pub yams_max_devices : ℕ
yams_max_devices = 128

abbrev pub kernel_base : ℕ
kernel_base = 0x8000_0000

abbrev pub disabled : ℕ
disabled = 0xffff_ffff

-- The two fields of `io_descriptor_t` that are read; `area` is the word at `io_area_base`.
pub record IoDescriptor : Type 0 where
  pub type : ℕ
  pub area : ℕ

pub record Kmalloc : Type 0 where
  pub free_area_start : ℕ
  pub memory_end : ℕ

-- The loop over the descriptors, with `n` of them left to look at.
find_meminfo : ℕ → List IoDescriptor → ℕ
find_meminfo zero io_desc = 0
find_meminfo (suc n) [] = 0
find_meminfo (suc n) (d ∷ rest) = if d.type == 0x101 then d.area else find_meminfo n rest

unfoldable pub kmalloc_get_numpages : List IoDescriptor → Result ℕ
unfolding find_meminfo
kmalloc_get_numpages io_desc =
    let num_pages = find_meminfo yams_max_devices io_desc in
    if num_pages == 0 then panic else ok num_pages

unfoldable pub kmalloc_get_reserved_pages : Kmalloc → ℕ
kmalloc_get_reserved_pages k =
    let used = (k.free_area_start + 2 ^ 32 - kernel_base) % 2 ^ 32 in
    if used % page_size == 0 then used / page_size else used / page_size + 1

unfoldable pub kmalloc_disable : Kmalloc → Kmalloc
kmalloc_disable k = record k { free_area_start = disabled }

-- Round an address up to a word boundary.
unfoldable pub align : ℕ → ℕ
align start = if bit_and start 0x03 == 0 then start else bit_and ((start + 4) % 2 ^ 32) 0xffff_fffc

unfoldable pub kmalloc_init : List IoDescriptor → ℕ → Result Kmalloc
unfolding align
kmalloc_init io_desc kernel_ends_here = do
  n ← kmalloc_get_numpages io_desc
  ok (record {
    free_area_start = align kernel_ends_here;
    memory_end = (kernel_base + n * page_size) % 2 ^ 32;
  })

unfoldable pub kmalloc : Kmalloc → ℤ → Result (ℕ × Kmalloc)
unfolding align
kmalloc k (negsuc _) = panic
kmalloc k (pos bytes) =
    if k.free_area_start == disabled
    then panic
    else if k.free_area_start == 0
    then panic
    else if ltb k.memory_end ((k.free_area_start + bytes) % 2 ^ 32)
    then panic
    else ok (
      k.free_area_start,
      record k { free_area_start = align ((k.free_area_start + bytes) % 2 ^ 32) },
    )
