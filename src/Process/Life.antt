-- ===== src/Process/Life.antt =====
-- The end of a process and the join of its parent.
use osm_re_exam.Prelude.{
  ℕ, zero, suc, ◌<◌, ◌≤◌, ◌≡◌, refl, ◌≢◌, sym, ap, ◌∙◌, List, [], ◌∷◌, ◌++◌, map, true, false, leb,
  inl, inr, arith, length, set, replicate, Bool-cases, get_or-set_self, get_or-set_ne, length-set,
  gt→leb, le→leb, eq→==,
}
use osm_re_exam.Prelude.Int.{ℤ, pos, negsuc, ◌==ℤ◌, ==ℤ_refl, ne→==ℤ}
use osm_re_exam.Prelude.Result.{ok, Yields, yields, read-ok, write-ok}
use osm_re_exam.Pagepool.{Pagepool}
use osm_re_exam.Vm.{vm_destroy_pagetable}
use osm_re_exam.Sleepq.{Sleepq, sleepq_wake_all}
use osm_re_exam.Thread.Chain
use osm_re_exam.Process.{
  process_free, process_zombie, Pcb, is_zombie, reset_block, process_reset, orphan, process_finish,
  Joined, illegal, joined, join_wait, process_join, process_max_processes,
}
use osm_re_exam.Process.Slots.{blank, slot}

process_reset-ok :
    (table : List Pcb) (pid : ℕ)
    → pid < length table
    → process_reset table pid ≡ ok (set table pid (reset_block (slot table pid)))
unfolding process_reset
process_reset-ok table pid h = rw (read-ok table pid blank h, write-ok table pid _ h)

-- No table of the list holds a zombie in the slot, and each has the slot.
abbrev pub StillRunning : ℕ → List (List Pcb) → Type 0
StillRunning pid [] = Unit
StillRunning pid (table ∷ later) =
    (pid < length table) × (is_zombie (slot table pid).state ≡ false) × StillRunning pid later

join_wait-zombie :
    (before : List (List Pcb)) (table : List Pcb) (later : List (List Pcb)) (pid : ℕ)
    → StillRunning pid before
    → pid < length table
    → is_zombie (slot table pid).state ≡ true
    → join_wait (before ++ (table ∷ later)) pid
      ≡ ok (joined (slot table pid).retval (set table pid (reset_block (slot table pid))))
unfolding join_wait
join_wait-zombie [] table later pid run h z =
    rw (read-ok table pid blank h, z, process_reset-ok table pid h)
join_wait-zombie (t ∷ before) table later pid (here, busy, run) h z =
    rw (read-ok t pid blank here, busy) (join_wait-zombie before table later pid run h z)

-- The table after slot `pid` was freed: it is free, without a name, a return value, a parent or open
-- files, and the other slots are as they were.
pub record Freed (table : List Pcb) (pid : ℕ) (table' : List Pcb) : Type 0 where
  pub size : length table' ≡ length table
  pub free : (slot table' pid).state ≡ process_free
  pub nameless : (slot table' pid).executable ≡ set (slot table pid).executable 0 0
  pub no_value : (slot table' pid).retval ≡ pos 0
  pub no_parent : (slot table' pid).parent ≡ negsuc 0
  pub no_files : (slot table' pid).files ≡ replicate 512 (negsuc 0)
  pub heap : (slot table' pid).heap_end ≡ (slot table pid).heap_end
  pub others : (i : ℕ) → i ≢ pid → slot table' i ≡ slot table i

-- A join that returns the value of process `pid` of the table, and frees its slot.
pub data Reaped (table : List Pcb) (pid : ℕ) : Joined → Type 0 where
  reaped :
      {table' : List Pcb}
      → Freed table pid table'
      → Reaped table pid (joined (slot table pid).retval table')

reset_block-Freed :
    (table : List Pcb) (pid : ℕ)
    → pid < length table
    → Freed table pid (set table pid (reset_block (slot table pid)))
unfolding reset_block
reset_block-Freed table pid h =
    let at = get_or-set_self table pid (reset_block (slot table pid)) blank h in
    record {
      size = length-set table pid (reset_block (slot table pid));
      free = ap (λ p. p.state) at;
      nameless = ap (λ p. p.executable) at;
      no_value = ap (λ p. p.retval) at;
      no_parent = ap (λ p. p.parent) at;
      no_files = ap (λ p. p.files) at;
      heap = ap (λ p. p.heap_end) at;
      others =
          λ i ne. get_or-set_ne table pid i (reset_block (slot table pid)) blank (λ e. ne (sym e));
    }

-- A parent that joins its child waits through every table in which the child has not finished, and
-- at the first one in which it is a zombie gets the child's return value and frees the slot: the slot
-- is free, has lost its name, value, parent and files, and the rest of that table is as it was.
pub process_join-zombie :
    (asked : List Pcb) (before : List (List Pcb)) (table : List Pcb) (later : List (List Pcb))
    (current pid : ℕ)
    → pid < process_max_processes
    → pid < length asked
    → (slot asked pid).parent ≡ pos current
    → StillRunning pid before
    → pid < length table
    → is_zombie (slot table pid).state ≡ true
    → Yields
        (Reaped table pid)
        (process_join asked (before ++ (table ∷ later)) (pos current) (pos pid))
unfolding process_join
process_join-zombie asked before table later current pid small has parent run h z =
    rw
      (
        gt→leb process_max_processes pid small,
        read-ok asked pid blank has,
        parent,
        eq→== current current refl,
        join_wait-zombie before table later pid run h z,
      )
      (yields (reaped (reset_block-Freed table pid h)))

-- The reasons for which a join is refused.
pub data Refused (table : List Pcb) (current : ℤ) : ℤ → Type 0 where
  negative : (n : ℕ) → Refused table current (negsuc n)
  too_large : {n : ℕ} → process_max_processes ≤ n → Refused table current (pos n)
  not_child :
      {n : ℕ} → n < length table → (slot table n).parent ≢ current → Refused table current (pos n)

-- A join of a negative number, of one that is not below PROCESS_MAX_PROCESSES, or of a slot whose
-- parent is another than the caller, is refused at once.
process_join-illegal :
    (asked : List Pcb) (later : List (List Pcb)) (current pid : ℤ)
    → Refused asked current pid
    → process_join asked later current pid ≡ ok illegal
unfolding process_join
process_join-illegal asked later current pid (negative n) = refl
process_join-illegal asked later current pid (too_large {n} h) =
    rw (le→leb process_max_processes n h)
process_join-illegal asked later current pid (not_child {n} has other) =
    elim (Bool-cases (leb process_max_processes n)) [
      | inl large ↦ rw large
      | inr small ↦ rw (small, read-ok asked n blank has, ne→==ℤ _ current other)
    ]

ne_self : (n : ℕ) → (pos n ==ℤ pos n) ≢ false
ne_self n h = cc (h, ==ℤ_refl (pos n))

orphan_parent : (pid : ℕ) (p : Pcb) → (orphan pid p).parent ≢ pos pid
unfolding orphan
orphan_parent pid p = elim (Bool-cases (p.parent ==ℤ pos pid)) [
  | inl child ↦ rw child (λ h. cc)
  | inr other ↦ rw other (λ h. absurd (ne_self pid (rw h at other)))
]

length-map-orphan : (pid : ℕ) (table : List Pcb) → length (map (orphan pid) table) ≡ length table
length-map-orphan pid [] = refl
length-map-orphan pid (p ∷ ps) = ap suc (length-map-orphan pid ps)

slot-map :
    (pid i : ℕ) (table : List Pcb)
    → i < length table
    → slot (map (orphan pid) table) i ≡ orphan pid (slot table i)
slot-map pid i [] h = absurd (omega arith)
slot-map pid zero (p ∷ ps) h = refl
slot-map pid (suc i) (p ∷ ps) h = slot-map pid i ps (omega arith)

-- The table after process `pid` has finished with `retval`: its slot is a zombie that keeps the
-- value, no slot has it for a parent any more, its children have no parent, and the slots changed in
-- nothing else.
pub record Finished (table : List Pcb) (pid : ℕ) (retval : ℤ) (table' : List Pcb) : Type 0 where
  pub size : length table' ≡ length table
  pub zombie : is_zombie (slot table' pid).state ≡ true
  pub value : (slot table' pid).retval ≡ retval
  pub children : (i : ℕ) → i < length table → (slot table' i).parent ≢ pos pid
  pub itself :
      (slot table pid).parent ≢ pos pid
      → slot table' pid ≡ record (slot table pid) { retval = retval; state = process_zombie }
  pub orphans :
      (i : ℕ)
      → i < length table
      → i ≢ pid
      → (slot table i).parent ≡ pos pid
      → slot table' i ≡ record (slot table i) { parent = negsuc 0 }
  pub others :
      (i : ℕ)
      → i < length table
      → i ≢ pid
      → (slot table i).parent ≢ pos pid
      → slot table' i ≡ slot table i

orphan-child :
    (pid : ℕ) (p : Pcb) → p.parent ≡ pos pid → orphan pid p ≡ record p { parent = negsuc 0 }
unfolding orphan
orphan-child pid p h = rw (h, ==ℤ_refl (pos pid)) refl

orphan-other : (pid : ℕ) (p : Pcb) → p.parent ≢ pos pid → orphan pid p ≡ p
unfolding orphan
orphan-other pid p h = rw (ne→==ℤ p.parent (pos pid) h) refl

orphan_keeps :
    (pid : ℕ) (p : Pcb) → ((orphan pid p).state ≡ p.state) × ((orphan pid p).retval ≡ p.retval)
unfolding orphan
orphan_keeps pid p = elim (Bool-cases (p.parent ==ℤ pos pid)) [
  | inl child ↦ rw child (refl, refl)
  | inr other ↦ rw other (refl, refl)
]

-- The threads and their queues when thread `tid` has no page table any more.
abbrev pub unmapped : Sleepq → ℕ → Sleepq
unmapped q tid = record q {
  threads = record (q.threads) {
    table = set q.threads.table tid (record (Chain.entry q.threads.table tid) { pagetable = 0 });
  };
}

-- If the page table of its thread can be released, and the threads that wait for the process can be
-- woken once that thread has no page table, `process_finish` of a process of the table succeeds: it
-- leaves the pool of that release, the threads of that waking, and a table with the process finished.
pub process_finish-Finished :
    (table : List Pcb) (pool pool' : Pagepool) (q q' : Sleepq) (pid tid address : ℕ) (retval : ℤ)
    → pid < length table
    → tid < length q.threads.table
    → vm_destroy_pagetable pool (Chain.entry q.threads.table tid).pagetable ≡ ok pool'
    → sleepq_wake_all (unmapped q tid) address ≡ ok q'
    → Yields
        (λ out. Finished table pid retval out.0 × (out.1 ≡ pool') × (out.2 ≡ q'))
        (process_finish table pool q pid tid address retval)
unfolding process_finish
process_finish-Finished table pool pool' q q' pid tid address retval h run freed woken =
    rw
      (
        read-ok q.threads.table tid Chain.blank run,
        read-ok table pid blank h,
        write-ok table pid ended h,
        freed,
        write-ok q.threads.table tid _ run,
        woken,
      )
      (yields (
        record {
          size = length-map-orphan pid marked ∙ length-set table pid ended;
          zombie = rw (at pid h, (orphan_keeps pid (slot marked pid)).0, mark);
          value = rw (at pid h, (orphan_keeps pid (slot marked pid)).1, mark);
          children = λ i l. rw (at i l) (orphan_parent pid (slot marked i));
          itself = λ ne. at pid h ∙ ap (orphan pid) mark ∙ orphan-other pid ended ne;
          orphans = λ i l ne child.
              at i l ∙ ap (orphan pid) (apart i ne) ∙ orphan-child pid (slot table i) child;
          others = λ i l ne other.
              at i l ∙ ap (orphan pid) (apart i ne) ∙ orphan-other pid (slot table i) other;
        },
        refl,
        refl,
      ))
  where
    ended : Pcb
    ended = record (slot table pid) { retval = retval; state = process_zombie }

    marked : List Pcb
    marked = set table pid ended

    mark : slot marked pid ≡ ended
    mark = get_or-set_self table pid ended blank h

    apart : (i : ℕ) → i ≢ pid → slot marked i ≡ slot table i
    apart i ne = get_or-set_ne table pid i ended blank (λ e. ne (sym e))

    at : (i : ℕ) → i < length table → slot (map (orphan pid) marked) i ≡ orphan pid (slot marked i)
    at i l = slot-map pid i marked (omega (arith, length-set table pid ended))
