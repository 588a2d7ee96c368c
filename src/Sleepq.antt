-- ===== src/Sleepq.antt =====
-- buenos/kernel/sleepq.c: the threads that wait for a resource, in a hash table of lists that are linked
-- through the thread table.
pub mod Pigeons
pub mod Buckets
pub mod Add
use osm_re_exam.Prelude.{
  ℕ, zero, suc, ◌%◌, ◌^◌, List, Bool, true, false, not, ◌&&◌, ◌==◌, if◌then◌else◌, replicate,
}
use osm_re_exam.Prelude.Int.{ℤ, pos, negsuc, minus_one, ltb_ℤ, leb_ℤ}
use osm_re_exam.Prelude.Result.{Result, ok, fault, ◌>>=◌, ◌>>◌, kernel_assert, read, write}
use osm_re_exam.Thread.{
  Thread, Threads, max_threads, idle_thread, thread_ready, is_sleeping, set_state,
  scheduler_add_to_ready_list,
}

abbrev pub hashtable_size : ℕ
hashtable_size = 127

-- `sleepq_hashtable`, and the threads.
pub record Sleepq : Type 0 where
  pub hashtable : List ℤ
  pub threads : Threads

-- `SLEEPQ_HASH`; a resource is the address of some object.
abbrev pub hash : ℕ → ℕ
hash resource = resource % 2 ^ 32 % hashtable_size

unfoldable pub sleepq_init : Threads → Sleepq
sleepq_init threads = record { hashtable = replicate hashtable_size minus_one; threads = threads }

-- The loop of `sleepq_add` to the end of a list, with a bound on its rounds.
unfoldable pub chain_end : ℕ → List Thread → ℤ → Result ℕ
chain_end zero table prev = fault
chain_end (suc n) table (negsuc _) = fault
chain_end (suc n) table (pos prev) = do
  e ← read table prev
  let rest = chain_end n table e.next
  if ltb_ℤ (pos 0) e.next then rest else ok prev

-- `interrupts_off` is the state of the interrupts that the assertion tests.
unfoldable pub sleepq_add : (interrupts_off : Bool) → Sleepq → (resource my_tid : ℕ) → Result Sleepq
sleepq_add interrupts_off q resource my_tid = do
  kernel_assert interrupts_off
  mine ← read q.threads.table my_tid
  table ←
      write q.threads.table my_tid (record mine { next = minus_one; sleeps_on = resource % 2 ^ 32 })
  kernel_assert (not (my_tid == idle_thread))
  first ← read q.hashtable (hash resource)
  let empty = do
    hashtable ← write q.hashtable (hash resource) (pos my_tid)
    ok (record q { hashtable = hashtable; threads = record (q.threads) { table = table } })
  let nonempty = do
    prev ← chain_end max_threads table first
    last ← read table prev
    table' ← write table prev (record last { next = pos my_tid })
    ok (record q { threads = record (q.threads) { table = table' } })
  if leb_ℤ first (pos 0) then empty else nonempty

-- Where the search of `sleepq_wake` ends: at no thread, or at `first` behind `prev`, where -1 stands for
-- the head of the list.
pub data Waiter : Type 0 where
  no_waiter : Waiter
  waiter : (prev : ℤ) (first : ℕ) → Waiter

-- The search for a thread that sleeps on `resource`, from `first` on, with a bound on its rounds.
unfoldable pub find_waiter : ℕ → List Thread → ℕ → (prev first : ℤ) → Result Waiter
find_waiter zero table resource prev first = fault
find_waiter (suc n) table resource prev (negsuc _) = ok no_waiter
find_waiter (suc n) table resource prev (pos zero) = ok no_waiter
find_waiter (suc n) table resource prev (pos (suc t)) = do
  e ← read table (suc t)
  let rest = find_waiter n table resource (pos (suc t)) e.next
  if e.sleeps_on == resource % 2 ^ 32 then ok (waiter prev (suc t)) else rest

-- Taking the thread `t`, whose entry is `e`, out of its list.
unfoldable pub unlink : Sleepq → ℕ → ℤ → Thread → Result Sleepq
unlink q h prev e =
    let at_head = (do
      hashtable ← write q.hashtable h e.next
      ok (record q { hashtable = hashtable })) in
    elim prev [
      | negsuc _ ↦ at_head
      | pos zero ↦ at_head
      | pos (suc p) ↦ do
        before ← read q.threads.table (suc p)
        table ← write q.threads.table (suc p) (record before { next = e.next })
        ok (record q { threads = record (q.threads) { table = table } })
    ]

-- The thread sleeps no more, and is ready if it was asleep already.
unfoldable pub rouse : Sleepq → ℕ → Result Sleepq
rouse q t = do
  e ← read q.threads.table t
  table ← write q.threads.table t (record e { sleeps_on = 0; next = minus_one })
  let awake = record (q.threads) { table = table }
  let ready = do
    table' ← set_state table t thread_ready
    listed ← scheduler_add_to_ready_list (record awake { table = table' }) (pos t)
    ok (record q { threads = listed })
  if is_sleeping e.state then ready else ok (record q { threads = awake })

unfoldable pub sleepq_wake : Sleepq → ℕ → Result Sleepq
sleepq_wake q resource = do
  first ← read q.hashtable (hash resource)
  found ← find_waiter (suc max_threads) q.threads.table resource minus_one first
  elim found [
    | no_waiter ↦ ok q
    | waiter prev t ↦ do
      e ← read q.threads.table t
      out ← unlink q (hash resource) prev e
      rouse out t
  ]

-- The loop of `sleepq_wake_all`, with a bound on its rounds; each wakes one thread.
unfoldable pub wake_loop : ℕ → Sleepq → ℕ → (prev first : ℤ) → Result Sleepq
wake_loop zero q resource prev first = fault
wake_loop (suc n) q resource prev first = do
  found ← find_waiter (suc max_threads) q.threads.table resource prev first
  elim found [
    | no_waiter ↦ ok q
    | waiter before t ↦ do
      e ← read q.threads.table t
      out ← unlink q (hash resource) before e
      woken ← rouse out t
      wake_loop n woken resource before e.next
  ]

unfoldable pub sleepq_wake_all : Sleepq → ℕ → Result Sleepq
sleepq_wake_all q resource = do
  first ← read q.hashtable (hash resource)
  wake_loop (suc max_threads) q resource minus_one first
