-- ===== src/Vm.antt =====
-- buenos/vm/vm.c, buenos/vm/tlb.c and the types of buenos/vm/pagetable.h and buenos/vm/tlb.h: page
-- tables as arrays of TLB entries, and the TLB miss handler that reads them.
pub mod Lookup
pub mod Miss
pub mod Map
pub mod Dirty
use osm_re_exam.Prelude.{
  ℕ, zero, suc, ◌+◌, ◌-◌, ◌/◌, ◌%◌, ◌^◌, bit_and, bit_or, List, Bool, true, false, not, Option,
  none, some, ◌==◌, if◌then◌else◌, ltb, leb,
}
use osm_re_exam.Prelude.Int.{ℤ, pos}
use osm_re_exam.Prelude.Result.{Result, ok, panic, ◌>>=◌, read, write}
use osm_re_exam.Bitmap.{Bitmap}
use osm_re_exam.Kmalloc.{IoDescriptor, Kmalloc, kmalloc_disable}
use osm_re_exam.Pagepool.{Pagepool, pagepool_init, pagepool_get_phys_page, pagepool_free_phys_page}

abbrev pub pagetable_entries : ℕ
pagetable_entries = 340

-- The fields of `tlb_entry_t` that the code uses.
pub record TlbEntry : Type 0 where
  pub vpn2 : ℕ
  pub asid : ℕ
  pub pfn0 : ℕ
  pub d0 : ℕ
  pub v0 : ℕ
  pub g0 : ℕ
  pub pfn1 : ℕ
  pub d1 : ℕ
  pub v1 : ℕ
  pub g1 : ℕ

pub record Pagetable : Type 0 where
  pub asid : ℕ
  pub valid_count : ℕ
  pub entries : List TlbEntry

-- `ADDR_IS_ON_ODD_PAGE`
unfoldable pub is_on_odd_page : ℕ → Bool
is_on_odd_page vaddr = ltb 0 (bit_and vaddr 0x1000)

-- `KERNEL_ASSERT(dirty == 0 || dirty == 1)`, and the value for the one-bit field.
dirty_bit : ℤ → Result ℕ
dirty_bit (pos zero) = ok 0
dirty_bit (pos (suc zero)) = ok 1
dirty_bit _ = panic

unfoldable pub vm_init :
    List IoDescriptor → (ℕ → ℕ → Bitmap) → Kmalloc → Result (Pagepool × Kmalloc)
vm_init io_desc memory k = do
  (pool, k') ← pagepool_init io_desc memory k
  ok (pool, kmalloc_disable k')

-- `memory addr` are the entries that a page at `addr` holds before it becomes a page table.
unfoldable pub vm_create_pagetable :
    Pagepool → (ℕ → List TlbEntry) → ℕ → Result (Option (ℕ × Pagetable) × Pagepool)
vm_create_pagetable pool memory asid = do
  (addr, pool') ← pagepool_get_phys_page pool
  let table = bit_or addr 0x8000_0000
  ok (
    (if addr == 0
        then none
        else some (table, record { asid = asid; valid_count = 0; entries = memory table })),
    pool',
  )

-- `pagetable` is the kernel address of the table.
unfoldable pub vm_destroy_pagetable : Pagepool → ℕ → Result Pagepool
vm_destroy_pagetable pool pagetable = pagepool_free_phys_page pool (bit_and pagetable 0x7fff_ffff)

-- The update of an entry whose other half is mapped already.
pub map_pair : TlbEntry → ℕ → Bool → ℕ → Result TlbEntry
map_pair e physaddr false dirty =
    if e.v0 == 1
    then panic
    else ok (record e { pfn0 = physaddr / 2 ^ 12; d0 = dirty; v0 = 1; g0 = 0 })
map_pair e physaddr true dirty =
    if e.v1 == 1
    then panic
    else ok (record e { pfn1 = physaddr / 2 ^ 12; d1 = dirty; v1 = 1; g1 = 0 })

-- The entry behind the last one, once it is filled in.
pub map_first : TlbEntry → ℕ → ℕ → ℕ → Bool → ℕ → TlbEntry
map_first e asid physaddr vaddr false dirty = record e {
  vpn2 = vaddr / 2 ^ 13;
  asid = asid % 2 ^ 8;
  pfn0 = physaddr / 2 ^ 12;
  d0 = dirty;
  v0 = 1;
  g0 = 0;
  v1 = 0;
}
map_first e asid physaddr vaddr true dirty = record e {
  vpn2 = vaddr / 2 ^ 13;
  asid = asid % 2 ^ 8;
  pfn1 = physaddr / 2 ^ 12;
  d1 = dirty;
  v1 = 1;
  g1 = 0;
  v0 = 0;
}

pub map_new : Pagetable → ℕ → ℕ → ℕ → Result Pagetable
unfolding map_first
map_new pt physaddr vaddr dirty = if leb pagetable_entries pt.valid_count then panic else do
  e ← read pt.entries pt.valid_count
  entries ←
      write pt.entries pt.valid_count
        (map_first e pt.asid physaddr vaddr (is_on_odd_page vaddr) dirty)
  ok (record pt { entries = entries; valid_count = pt.valid_count + 1 })

-- The loop of `vm_map`, with `n` entries left to look at, and what follows it.
map_loop : ℕ → ℕ → Pagetable → ℕ → ℕ → ℕ → Result Pagetable
unfolding map_pair map_new
map_loop zero i pt physaddr vaddr dirty = map_new pt physaddr vaddr dirty
map_loop (suc n) i pt physaddr vaddr dirty =
    let rest = map_loop n (i + 1) pt physaddr vaddr dirty in
    do
      e ← read pt.entries i
      let pair = do
        e' ← map_pair e physaddr (is_on_odd_page vaddr) dirty
        entries ← write pt.entries i e'
        ok (record pt { entries = entries })
      if e.vpn2 == vaddr / 2 ^ 13 then pair else rest

unfoldable pub vm_map : Pagetable → ℕ → ℕ → ℤ → Result Pagetable
unfolding dirty_bit map_loop
vm_map pt physaddr vaddr dirty = do
  bit ← dirty_bit dirty
  map_loop pt.valid_count 0 pt physaddr vaddr bit

set_half_dirty : TlbEntry → Bool → ℕ → Result TlbEntry
set_half_dirty e false dirty = if e.v0 == 0 then panic else ok (record e { d0 = dirty })
set_half_dirty e true dirty = if e.v1 == 0 then panic else ok (record e { d1 = dirty })

-- The loop of `vm_set_dirty`, and the panic behind it.
set_dirty_loop : ℕ → ℕ → Pagetable → ℕ → ℕ → Result Pagetable
unfolding set_half_dirty
set_dirty_loop zero i pt vaddr dirty = panic
set_dirty_loop (suc n) i pt vaddr dirty =
    let rest = set_dirty_loop n (i + 1) pt vaddr dirty in
    do
      e ← read pt.entries i
      let here = do
        e' ← set_half_dirty e (is_on_odd_page vaddr) dirty
        entries ← write pt.entries i e'
        ok (record pt { entries = entries })
      if e.vpn2 == vaddr / 2 ^ 13 then here else rest

unfoldable pub vm_set_dirty : Pagetable → ℕ → ℤ → Result Pagetable
unfolding dirty_bit set_dirty_loop
vm_set_dirty pt vaddr dirty = do bit ← dirty_bit dirty; set_dirty_loop pt.valid_count 0 pt vaddr bit

-- How a TLB exception ends: with an entry for `_tlb_write_random`, or in `process_finish(255)`, from
-- which a thread in user mode does not return.
pub data TlbOutcome : Type 0 where
  refill : TlbEntry → TlbOutcome
  finish_process : TlbOutcome

unfoldable pub tlb_error : Bool → Result TlbOutcome
tlb_error is_userland = if is_userland then ok finish_process else panic

unfoldable pub tlb_modified_exception : Bool → Result TlbOutcome
tlb_modified_exception is_userland = tlb_error is_userland

unfoldable pub tlb_entry_is_valid : TlbEntry → ℕ → Bool
tlb_entry_is_valid entry vaddr =
    if is_on_odd_page vaddr then not (entry.v1 == 0) else not (entry.v0 == 0)

-- The loop of `tlb_access_exception`; `badvpn2` is the page pair of `badvaddr`.
access_loop : ℕ → ℕ → Pagetable → Bool → ℕ → ℕ → Result TlbOutcome
access_loop zero i ptable is_userland badvaddr badvpn2 = panic
access_loop (suc n) i ptable is_userland badvaddr badvpn2 =
    let rest = access_loop n (i + 1) ptable is_userland badvaddr badvpn2 in
    do
      entry ← read ptable.entries i
      let here =
          if tlb_entry_is_valid entry badvaddr then ok (refill entry) else tlb_error is_userland
      if entry.vpn2 == badvpn2 then here else rest

-- `_tlb_get_exception_state` gives the address and the page pair.
unfoldable pub tlb_access_exception : Option Pagetable → Bool → ℕ → ℕ → Result TlbOutcome
unfolding access_loop
tlb_access_exception none is_userland badvaddr badvpn2 = tlb_error is_userland
tlb_access_exception (some ptable) is_userland badvaddr badvpn2 =
    access_loop ptable.valid_count 0 ptable is_userland badvaddr badvpn2
