-- ===== src/UserSem.antt =====
-- buenos/proc/usr_sem.c: the named semaphores of user programs. The number of an entry stands for the
-- pointer to it, and each routine is one step.
pub mod Names
use osm_re_exam.Prelude.{
  ℕ, zero, suc, List, [], ◌∷◌, Bool, true, false, Option, none, some, if◌then◌else◌, map, length,
  leb, ltb,
}
use osm_re_exam.Prelude.Int.{ℤ, pos, negsuc, minus_one, ◌==ℤ◌, ltb_ℤ}
use osm_re_exam.Prelude.Result.{Result, ok, fault, ◌>>=◌, read, write}
use osm_re_exam.Libc.{stringcmp, stringcopy}
use osm_re_exam.Sleepq.{Sleepq}
use osm_re_exam.Semaphore.{
  Semaphore, Semaphores, semaphore_create, semaphore_destroy, semaphore_P, semaphore_V,
}

abbrev pub max_usr_sem : ℕ
max_usr_sem = 32

abbrev pub max_usr_sem_name : ℕ
max_usr_sem_name = 32

-- `usr_sem_state_t`
pub data UsrSemState : Type 0 where
  usr_sem_free : UsrSemState
  usr_sem_used : UsrSemState

abbrev pub is_used : UsrSemState → Bool
is_used usr_sem_free = false
is_used usr_sem_used = true

-- `usr_sem_block_t`; `none` is NULL.
pub record UsrSem : Type 0 where
  pub state : UsrSemState
  pub name : List ℕ
  pub kernel_sem : Option ℕ

-- The pointer is inside the table.
unfoldable pub find_sem : List UsrSem → ℕ → Option UsrSem
find_sem [] p = none
find_sem (s ∷ table) zero = some s
find_sem (s ∷ table) (suc p) = find_sem table p

unfoldable pub usr_sem_init : List UsrSem → List UsrSem
usr_sem_init table = map reset table
  where
    reset : UsrSem → UsrSem
    reset s = record s { state = usr_sem_free }

-- The loop that looks for a name.
unfoldable pub find_used : List UsrSem → List ℕ → Result (Option ℕ)
find_used [] name = ok none
find_used (s ∷ table) name =
    let rest = (do
      r ← find_used table name
      elim r [ none ↦ ok none | some i ↦ ok (some (suc i)) ]) in
    let compare_names = (do c ← stringcmp s.name name; if c ==ℤ pos 0 then ok (some 0) else rest) in
    if is_used s.state then compare_names else rest

-- The loop that looks for a free entry; the number of entries if there is none.
unfoldable pub free_sem : List UsrSem → ℕ
free_sem [] = 0
free_sem (s ∷ table) = let rest = suc (free_sem table) in if is_used s.state then rest else 0

-- The entry that is made for a new semaphore. What `semaphore_create` returns is not looked at.
unfoldable pub create_sem :
    List UsrSem
    → Semaphores
    → (creator : ℤ) → List ℕ
    → ℤ
    → Result (Option ℕ × List UsrSem × Semaphores)
create_sem table kernel creator name value = do
  let i = free_sem table
  let create = do
    s ← read table i
    name' ← stringcopy s.name name (pos max_usr_sem_name)
    (sem, kernel') ← semaphore_create kernel creator value
    table' ← write table i (record { state = usr_sem_used; name = name'; kernel_sem = sem })
    ok (some i, table', kernel')
  if ltb i (length table) then create else ok (none, table, kernel)

unfoldable pub usr_sem_open :
    List UsrSem
    → Semaphores
    → (creator : ℤ) → List ℕ
    → ℤ
    → Result (Option ℕ × List UsrSem × Semaphores)
usr_sem_open table kernel creator name value = do
  r ← find_used table name
  let create = create_sem table kernel creator name value
  let fresh : Result (Option ℕ × List UsrSem × Semaphores) = elim r [
    | none ↦ create
    | some i ↦ ok (none, table, kernel)
  ]
  if ltb_ℤ value (pos 0) then ok (r, table, kernel) else fresh

-- The semaphore of an entry in use; `none` if there is no such entry. A NULL in it is followed.
unfoldable pub used_sem : List UsrSem → ℕ → Result (Option ℕ)
used_sem table p = elim (find_sem table p) [
  | none ↦ ok none
  | some s ↦
      let kernel : Result (Option ℕ) = elim s.kernel_sem [ none ↦ fault | some k ↦ ok (some k) ] in
      if is_used s.state then kernel else ok none
]

-- The Boolean says whether the thread gives up the processor.
unfoldable pub usr_sem_p :
    (address : ℕ → ℕ)
    → List UsrSem
    → List Semaphore
    → Sleepq
    → (p my_tid : ℕ) → Result (ℤ × Bool × List Semaphore × Sleepq)
usr_sem_p address table kernel q p my_tid = do
  k ← used_sem table p
  elim k [
    | none ↦ ok (minus_one, false, kernel, q)
    | some i ↦ do
      (waits, kernel', q') ← semaphore_P address kernel q i my_tid
      ok (pos 0, waits, kernel', q')
  ]

unfoldable pub usr_sem_v :
    (address : ℕ → ℕ)
    → List UsrSem
    → List Semaphore
    → Sleepq
    → ℕ
    → Result (ℤ × List Semaphore × Sleepq)
usr_sem_v address table kernel q p = do
  k ← used_sem table p
  elim k [
    | none ↦ ok (minus_one, kernel, q)
    | some i ↦ do (kernel', q') ← semaphore_V address kernel q i; ok (pos 0, kernel', q')
  ]

unfoldable pub usr_sem_destroy :
    List UsrSem → List Semaphore → ℕ → Result (ℤ × List UsrSem × List Semaphore)
usr_sem_destroy table kernel p = do
  k ← used_sem table p
  elim k [
    | none ↦ ok (pos 0, table, kernel)
    | some i ↦ do
      e ← read kernel i
      let destroy = do
        kernel' ← semaphore_destroy kernel i
        s ← read table p
        table' ← write table p (record s { state = usr_sem_free })
        ok (pos 1, table', kernel')
      if ltb_ℤ e.value (pos 0) then ok (pos 0, table, kernel) else destroy
  ]
