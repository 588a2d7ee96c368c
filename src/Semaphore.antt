-- ===== src/Semaphore.antt =====
-- buenos/kernel/semaphore.c: the table of semaphores, and the operations on one of them up to the
-- switch to another thread. Each is one step under its lock.
pub mod Table
pub mod Down
use osm_re_exam.Prelude.{
  ℕ, zero, suc, ◌+◌, ◌%◌, List, [], ◌∷◌, Bool, true, false, Option, none, some, if◌then◌else◌, map,
}
use osm_re_exam.Prelude.Int.{ℤ, pos, negsuc, minus_one, ◌==ℤ◌, ltb_ℤ, leb_ℤ, succ, prev}
use osm_re_exam.Prelude.Result.{Result, ok, panic, ◌>>=◌, read, write}
use osm_re_exam.Sleepq.{Sleepq, sleepq_add, sleepq_wake}

abbrev pub max_semaphores : ℕ
max_semaphores = 128

-- `semaphore_t`; a creator of -1 marks a free entry.
pub record Semaphore : Type 0 where
  pub value : ℤ
  pub creator : ℤ

-- `semaphore_table`, and the static variable of `semaphore_create`.
pub record Semaphores : Type 0 where
  pub table : List Semaphore
  pub next : ℕ

unfoldable pub semaphore_init : List Semaphore → List Semaphore
semaphore_init table = map free table
  where
    free : Semaphore → Semaphore
    free s = record s { creator = minus_one }

-- The loop of `semaphore_create` with `n` rounds left.
unfoldable pub take_free : ℕ → Semaphores → ℤ → Result (Option ℕ × Semaphores)
take_free zero s creator = ok (none, s)
take_free (suc n) s creator =
    let after = record s { next = (s.next + 1) % max_semaphores } in
    let rest = take_free n after creator in
    do
      e ← read s.table s.next
      let take = do
        table ← write s.table s.next (record e { creator = creator })
        ok (some s.next, record after { table = table })
      if e.creator ==ℤ minus_one then take else rest

-- `creator` is the current thread. The number of the entry stands for the pointer to it.
unfoldable pub semaphore_create : Semaphores → (creator value : ℤ) → Result (Option ℕ × Semaphores)
semaphore_create s creator (negsuc _) = panic
semaphore_create s creator (pos value) = do
  (found, s') ← take_free max_semaphores s creator
  elim found [
    | none ↦ ok (none, s')
    | some i ↦ do
      e ← read s'.table i
      table ← write s'.table i (record e { value = pos value })
      ok (some i, record s' { table = table })
  ]

unfoldable pub semaphore_destroy : List Semaphore → ℕ → Result (List Semaphore)
semaphore_destroy table i = do e ← read table i; write table i (record e { creator = minus_one })

-- `address` gives the address of an entry, which is the resource that its waiters sleep on. The
-- Boolean says whether the thread has gone into the sleep queue and gives up the processor.
unfoldable pub semaphore_P :
    (address : ℕ → ℕ)
    → List Semaphore
    → Sleepq
    → (i my_tid : ℕ) → Result (Bool × List Semaphore × Sleepq)
semaphore_P address table q i my_tid = do
  e ← read table i
  table' ← write table i (record e { value = prev e.value })
  let sleep = do q' ← sleepq_add true q (address i) my_tid; ok (true, table', q')
  if ltb_ℤ (prev e.value) (pos 0) then sleep else ok (false, table', q)

unfoldable pub semaphore_V :
    (address : ℕ → ℕ) → List Semaphore → Sleepq → ℕ → Result (List Semaphore × Sleepq)
semaphore_V address table q i = do
  e ← read table i
  table' ← write table i (record e { value = succ e.value })
  let wake = do q' ← sleepq_wake q (address i); ok (table', q')
  if leb_ℤ (succ e.value) (pos 0) then wake else ok (table', q)
