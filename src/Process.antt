-- ===== src/Process.antt =====
-- buenos/proc/process.c and buenos/proc/process.h: the process table, the files of a process, its
-- heap, and the end of a process. `process_table_slock` is held over each of these routines, so each
-- is one step; `process_join` also waits, and sees the table anew after each wait.
pub mod Slots
pub mod Files
pub mod Life
pub mod Memory
use osm_re_exam.Prelude.{
  ℕ, zero, suc, ◌+◌, ◌-◌, ◌*◌, ◌/◌, ◌%◌, ◌^◌, List, [], ◌∷◌, map, Bool, true, false, ◌||◌, not,
  Option, none, some, ◌==◌, if◌then◌else◌, ltb, leb, length, set, replicate,
}
use osm_re_exam.Prelude.Int.{ℤ, pos, negsuc, minus_one, ◌==ℤ◌, ltb_ℤ, leb_ℤ}
use osm_re_exam.Prelude.Result.{Result, ok, panic, fault, ◌>>=◌, read, write}
use osm_re_exam.Pagepool.{Pagepool, pagepool_get_phys_page}
use osm_re_exam.Kmalloc.{page_size}
use osm_re_exam.Vm.{Pagetable, vm_map, vm_destroy_pagetable}
use osm_re_exam.Sleepq.{Sleepq, sleepq_wake_all}

abbrev pub process_max_processes : ℕ
process_max_processes = 32

abbrev pub max_open_files : ℕ
max_open_files = 512

abbrev pub process_illegal_join : ℤ
process_illegal_join = negsuc 1

pub data ProcessState : Type 0 where
  process_free process_running process_zombie : ProcessState

-- `process_control_block_t`
pub record Pcb : Type 0 where
  pub executable : List ℕ
  pub state : ProcessState
  pub retval : ℤ
  pub parent : ℤ
  pub heap_end : ℕ
  pub files : List ℤ

abbrev pub is_free : ProcessState → Bool
is_free process_free = true
is_free _ = false

abbrev pub is_zombie : ProcessState → Bool
is_zombie process_zombie = true
is_zombie _ = false

unfoldable pub reset_block : Pcb → Pcb
reset_block p = record p {
  state = process_free;
  executable = set p.executable 0 0;
  retval = pos 0;
  parent = minus_one;
  files = replicate max_open_files minus_one;
}

unfoldable pub process_reset : List Pcb → ℕ → Result (List Pcb)
unfolding reset_block
process_reset table pid = do p ← read table pid; write table pid (reset_block p)

-- The loop of `process_init`, over the whole table.
unfoldable pub process_init : List Pcb → List Pcb
unfolding reset_block
process_init table = map reset_block table

-- The loop of `alloc_process_id` from slot `i` on. The result is one past the last slot if no
-- slot is free, PROCESS_MAX_PROCESSES for the whole table.
unfoldable pub alloc_from : ℕ → List Pcb → ℕ × List Pcb
alloc_from i [] = (i, [])
alloc_from i (p ∷ ps) =
    let (j, ps') = alloc_from (i + 1) ps in
    if is_free p.state then (i, record p { state = process_running } ∷ ps) else (j, p ∷ ps')

unfoldable pub alloc_process_id : List Pcb → ℕ × List Pcb
alloc_process_id table = alloc_from 0 table

-- The loop of `process_finish` over the children.
unfoldable pub orphan : ℕ → Pcb → Pcb
orphan pid p = if p.parent ==ℤ pos pid then record p { parent = minus_one } else p

-- `tid` is the current thread, and `address` the one of its slot in `process_table`, on which a join
-- sleeps. What runs behind is the end of the thread.
unfoldable pub process_finish :
    List Pcb → Pagepool → Sleepq → (pid tid address : ℕ) → ℤ → Result (List Pcb × Pagepool × Sleepq)
process_finish table pool q pid tid address retval = do
  thread ← read q.threads.table tid
  p ← read table pid
  table' ← write table pid (record p { retval = retval; state = process_zombie })
  pool' ← vm_destroy_pagetable pool thread.pagetable
  threads ← write q.threads.table tid (record thread { pagetable = 0 })
  q' ← sleepq_wake_all (record q { threads = record (q.threads) { table = threads } }) address
  ok (map (orphan pid) table', pool', q')

-- `illegal` is the return of PROCESS_ILLEGAL_JOIN; `waiting`, a join that has not returned yet.
pub data Joined : Type 0 where
  illegal : Joined
  waiting : Joined
  joined : ℤ → List Pcb → Joined

-- The wait of `process_join`, over the tables that it finds whenever it holds the lock.
unfoldable pub join_wait : List (List Pcb) → ℕ → Result Joined
join_wait [] pid = ok waiting
join_wait (table ∷ later) pid =
    let rest = join_wait later pid in
    do
      p ← read table pid
      let done = do table' ← process_reset table pid; ok (joined p.retval table')
      if is_zombie p.state then done else rest

-- `current` is the process of the caller, and `table` the one of its test, made without the lock.
unfoldable pub process_join : List Pcb → List (List Pcb) → (current pid : ℤ) → Result Joined
process_join table later current (negsuc _) = ok illegal
process_join table later current (pos pid) =
    if leb process_max_processes pid
    then ok illegal
    else do p ← read table pid; if p.parent ==ℤ current then join_wait later pid else ok illegal

-- The loops over the files of the current process.
unfoldable pub process_add_file : List ℤ → ℤ → List ℤ × Bool
process_add_file [] file = ([], false)
process_add_file (f ∷ fs) file =
    let (fs', res) = process_add_file fs file in
    if f ==ℤ minus_one then (file ∷ fs, true) else (f ∷ fs', res)

unfoldable pub process_remove_file : List ℤ → ℤ → List ℤ × Bool
process_remove_file [] file = ([], false)
process_remove_file (f ∷ fs) file =
    let (fs', res) = process_remove_file fs file in
    if f ==ℤ file then (minus_one ∷ fs, true) else (f ∷ fs', res)

unfoldable pub process_has_open_file : List ℤ → ℤ → Bool
process_has_open_file [] file = false
process_has_open_file (f ∷ fs) file = (f ==ℤ file) || process_has_open_file fs file

-- What `process_memlimit` works on: the end of the heap of the current process, the page table of
-- its thread, and the page pool.
pub record Space : Type 0 where
  pub heap_end : ℕ
  pub pagetable : Pagetable
  pub pool : Pagepool

-- The loop of `process_memlimit`, with `n` pages left from page `i` on; the result says whether all
-- of them were mapped.
unfoldable pub grow : ℕ → ℕ → Space → Result (Bool × Space)
grow zero i s = ok (true, s)
grow (suc n) i s = do
  (phys_page, pool) ← pagepool_get_phys_page s.pool
  let s' = record s { pool = pool }
  let more = do
    pagetable ← vm_map s.pagetable phys_page (i * page_size % 2 ^ 32) (pos 1)
    grow n (i + 1) (record s' { pagetable = pagetable })
  if phys_page == 0 then ok (false, s') else more

unfoldable pub process_memlimit : Space → ℕ → Result (ℕ × Space)
process_memlimit s heap_end =
    if heap_end == 0 then ok (s.heap_end, s) else if ltb heap_end s.heap_end then ok (0, s) else do
      (done, s') ←
          grow (heap_end / page_size - s.heap_end / page_size) (s.heap_end / page_size + 1) s
      if done then ok (heap_end, record s' { heap_end = heap_end }) else ok (0, s')
