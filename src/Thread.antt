-- ===== src/Thread.antt =====
-- buenos/kernel/thread.c and buenos/kernel/scheduler.c: the thread table and the list of threads that
-- are ready to run, which is linked through the `next` fields of the table.
pub mod Chain
pub mod Entry
pub mod Ready
pub mod Enqueue
pub mod Schedule
pub mod Create
pub mod Init
use osm_re_exam.Prelude.{
  ℕ, zero, suc, ◌+◌, ◌-◌, ◌*◌, ◌%◌, ◌^◌, List, [], ◌∷◌, Bool, true, false, not, ◌&&◌, Option, none,
  some, ◌==◌, if◌then◌else◌, set, map, replicate,
}
use osm_re_exam.Prelude.Int.{ℤ, pos, negsuc, minus_one, ◌==ℤ◌, ltb_ℤ, leb_ℤ}
use osm_re_exam.Prelude.Result.{Result, ok, panic, fault, ◌>>=◌, ◌>>◌, kernel_assert, read, write}

abbrev pub max_threads : ℕ
max_threads = 32

abbrev pub stack_size : ℕ
stack_size = 4096

-- `sizeof(context_t)`: 29 registers and 5 more words.
abbrev pub context_size : ℕ
context_size = 136

-- `IDLE_THREAD_TID`
abbrev pub idle_thread : ℕ
idle_thread = 0

pub data ThreadState : Type 0 where
  thread_free thread_running thread_ready thread_sleeping thread_nonready thread_dying : ThreadState

abbrev pub is_free : ThreadState → Bool
is_free thread_free = true
is_free _ = false

abbrev pub is_ready : ThreadState → Bool
is_ready thread_ready = true
is_ready _ = false

abbrev pub is_dying : ThreadState → Bool
is_dying thread_dying = true
is_dying _ = false

abbrev pub is_sleeping : ThreadState → Bool
is_sleeping thread_sleeping = true
is_sleeping _ = false

-- The registers of `context_t` that the kernel sets for a new thread.
pub record Context : Type 0 where
  pub pc : ℕ
  pub sp : ℕ
  pub ra : ℕ
  pub a0 : ℕ
  pub status : ℕ

-- `thread_table_t`, with the context that `context` points to. Pointers are addresses, 0 for NULL.
pub record Thread : Type 0 where
  pub context : Context
  pub user_context : ℕ
  pub state : ThreadState
  pub sleeps_on : ℕ
  pub pagetable : ℕ
  pub process_id : ℤ
  pub next : ℤ

-- The variables of the two files: the table, the ready list, the running thread of each processor,
-- and the static variable of `thread_create`.
pub record Threads : Type 0 where
  pub table : List Thread
  pub head : ℤ
  pub tail : ℤ
  pub current : List ℕ
  pub next_tid : ℕ

unfoldable pub scheduler_add_to_ready_list : Threads → ℤ → Result Threads
scheduler_add_to_ready_list k (negsuc _) = panic
scheduler_add_to_ready_list k (pos t) = do
  kernel_assert (not (t == idle_thread))
  kernel_assert (ltb_ℤ (pos t) (pos max_threads))
  elim k.tail [
    | negsuc _ ↦ do
      e ← read k.table t
      table ← write k.table t (record e { next = minus_one })
      ok (record k { head = pos t; tail = pos t; table = table })
    | pos tail ↦ do
      last ← read k.table tail
      linked ← write k.table tail (record last { next = pos t })
      e ← read linked t
      table ← write linked t (record e { next = minus_one })
      ok (record k { tail = pos t; table = table })
  ]

unfoldable pub scheduler_remove_first_ready : Threads → Result (ℕ × Threads)
scheduler_remove_first_ready k = elim k.head [
  | negsuc _ ↦ ok (idle_thread, k)
  | pos t ↦ do
    kernel_assert (not (t == idle_thread))
    e ← read k.table t
    kernel_assert (is_ready e.state)
    ok (t, record k { tail = if k.tail ==ℤ pos t then minus_one else k.tail; head = e.next })
]

unfoldable pub set_state : List Thread → ℕ → ThreadState → Result (List Thread)
set_state table t state = do e ← read table t; write table t (record e { state = state })

unfoldable pub scheduler_add_ready : Threads → ℕ → Result Threads
scheduler_add_ready k t = do
  listed ← scheduler_add_to_ready_list k (pos t)
  table ← set_state listed.table t thread_ready
  ok (record listed { table = table })

-- The first half of `scheduler_schedule`, on thread `c`, whose entry is `e`.
unfoldable pub put_away : Threads → ℕ → Thread → Result Threads
put_away k c e =
    let again = if c == idle_thread then ok k else scheduler_add_to_ready_list k (pos c) in
    let freed = (do table ← set_state k.table c thread_free; ok (record k { table = table })) in
    let asleep = (do
      table ← set_state k.table c thread_sleeping
      ok (record k { table = table })) in
    let ready = (do
      listed ← again
      table ← set_state listed.table c thread_ready
      ok (record listed { table = table })) in
    if is_dying e.state then freed else if not (e.sleeps_on == 0) then asleep else ready

-- The timer, which is set at the end, is left out.
unfoldable pub scheduler_schedule : Threads → ℕ → Result Threads
scheduler_schedule k this_cpu = do
  c ← read k.current this_cpu
  e ← read k.table c
  away ← put_away k c e
  (t, rest) ← scheduler_remove_first_ready away
  table ← set_state rest.table t thread_running
  current ← write rest.current this_cpu t
  ok (record rest { table = table; current = current })

-- The addresses that the linker chooses.
pub record Image : Type 0 where
  pub thread_stack_areas : ℕ
  pub thread_finish : ℕ
  pub idle_thread_wait_loop : ℕ

-- The loop of `thread_table_init` over one entry. The context stays, which is all zeros at start.
unfoldable pub init_entry : Thread → Thread
init_entry e = record e {
  user_context = 0;
  state = thread_free;
  sleeps_on = 0;
  pagetable = 0;
  process_id = minus_one;
  next = minus_one;
}

-- `status` is INTERRUPT_MASK_ALL | INTERRUPT_MASK_MASTER, here and below.
unfoldable pub thread_table_init : Image → (status : ℕ) → List Thread → Result (List Thread)
unfolding init_entry
thread_table_init image status table = do
  let entries = map init_entry table
  idle ← read entries idle_thread
  write entries idle_thread (record idle {
    context = record idle.context {
      sp = (image.thread_stack_areas + stack_size + 2 ^ 32 - 4 - context_size) % 2 ^ 32;
      pc = image.idle_thread_wait_loop;
      status = status;
    };
    state = thread_ready;
  })

-- `scheduler_init`, with the initial value of `scheduler_ready_to_run`.
unfoldable pub scheduler_init : (max_cpus : ℕ) → List Thread → Threads
scheduler_init max_cpus table = record {
  table = table;
  head = minus_one;
  tail = minus_one;
  current = replicate max_cpus 0;
  next_tid = 0;
}

-- The loop of `thread_create`, with `n` rounds left, from thread `next_tid + i` on.
unfoldable pub find_free : ℕ → List Thread → ℕ → ℕ → Result (Option ℕ)
find_free zero table next_tid i = ok none
find_free (suc n) table next_tid i =
    let rest = find_free n table next_tid (i + 1) in
    let t = (i + next_tid) % max_threads in
    let look = (do e ← read table t; if is_free e.state then ok (some t) else rest) in
    if t == idle_thread then rest else look

-- The context of a new thread that runs `func` on `arg`: the status enables all interrupts.
unfoldable pub new_context : Image → ℕ → (func arg status : ℕ) → Context
new_context image tid func arg status = record {
  pc = func;
  sp =
      (image.thread_stack_areas + stack_size * tid + stack_size + 2 * 2 ^ 32 - 4 - context_size - 4)
      % 2 ^ 32;
  ra = image.thread_finish;
  a0 = arg;
  status = status;
}

-- The result is -1 for a full table.
unfoldable pub thread_create :
    Image → (status : ℕ) → Threads → (func arg : ℕ) → Result (ℤ × Threads)
unfolding new_context
thread_create image status k func arg = do
  found ← find_free max_threads k.table k.next_tid 0
  elim found [
    | none ↦ ok (minus_one, k)
    | some tid ↦ do
      claimed ← set_state k.table tid thread_nonready
      e ← read claimed tid
      table ← write claimed tid (record e {
        context = new_context image tid func arg status;
        user_context = 0;
        pagetable = 0;
        sleeps_on = 0;
        process_id = minus_one;
        next = minus_one;
      })
      ok (pos tid, record k { table = table; next_tid = (tid + 1) % max_threads })
  ]

unfoldable pub thread_run : Threads → ℕ → Result Threads
thread_run k t = scheduler_add_ready k t

-- The number of the entry, for the pointer to it.
unfoldable pub thread_get_thread_entry_by_pid : List Thread → ℤ → Option ℕ
thread_get_thread_entry_by_pid [] pid = none
thread_get_thread_entry_by_pid (e ∷ es) pid =
    let rest : Option ℕ = elim (thread_get_thread_entry_by_pid es pid) [
      | none ↦ none
      | some i ↦ some (suc i)
    ] in
    if e.process_id ==ℤ pid then some 0 else rest

-- What `thread_finish` does before it gives up the processor.
unfoldable pub thread_finish : Threads → ℕ → Result Threads
thread_finish k my_tid = do
  e ← read k.table my_tid
  kernel_assert (e.pagetable == 0)
  table ← set_state k.table my_tid thread_dying
  ok (record k { table = table })
