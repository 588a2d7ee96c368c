-- ===== src/Semaphore/Down.antt =====
-- `semaphore_P` lets a thread through or puts it to sleep.
use osm_re_exam.Prelude.{
  ℕ, zero, suc, ◌<◌, ◌≡◌, refl, List, Bool, true, false, ◌⊎◌, inl, inr, arith, length, get_or, set,
  if◌then◌else◌, ge→ltb,
}
use osm_re_exam.Prelude.Int.{ℤ, pos, negsuc, minus_one, ltb_ℤ, prev}
use osm_re_exam.Prelude.Result.{ok, ◌>>=◌, Yields, yields, Yields-bind, read-ok, write-ok}
use osm_re_exam.Thread.{max_threads}
use osm_re_exam.Thread.Chain.{Absent}
use osm_re_exam.Sleepq.{Sleepq, sleepq_add}
use osm_re_exam.Sleepq.Add.{Joins, sleepq_add-Joins}
use osm_re_exam.Sleepq.Buckets.{Asleep}
use osm_re_exam.Semaphore.{Semaphore, semaphore_P}

abbrev pub blank : Semaphore
blank = record { value = pos 0; creator = minus_one }

-- The table with a value that is one less.
abbrev pub lowered : List Semaphore → ℕ → List Semaphore
lowered table i =
    set table i (record (get_or table i blank) { value = prev (get_or table i blank).value })

-- The thread passes, since the value was positive, or it joins the list of the semaphore's address.
pub data Down (address : ℕ → ℕ) (table : List Semaphore) (q : Sleepq) (bucket : ℕ → List ℕ)
    (i t : ℕ) : Bool × List Semaphore × Sleepq → Type 0 where
  passed :
      {n : ℕ}
      → (get_or table i blank).value ≡ pos (suc n)
      → Down address table q bucket i t (false, lowered table i, q)
  sleeps :
      {q' : Sleepq}
      → ((get_or table i blank).value ≡ pos 0)
        ⊎ ((n : ℕ) × ((get_or table i blank).value ≡ negsuc n))
      → Joins q bucket (address i) t q'
      → Down address table q bucket i t (true, lowered table i, q')

-- For an entry of the table, a well-formed sleep queue, and a thread that is in none of its lists and is
-- not the idle thread, `semaphore_P` succeeds and lowers the value by one. If the value was positive
-- the sleep queue stays; otherwise the thread joins the list of the semaphore at its end.
pub semaphore_P-Down :
    (address : ℕ → ℕ) (table : List Semaphore) (q : Sleepq) (bucket : ℕ → List ℕ) (i t : ℕ)
    → i < length table
    → Asleep q bucket
    → 0 < t
    → t < max_threads
    → ((h : ℕ) → Absent t (bucket h))
    → Yields (Down address table q bucket i t) (semaphore_P address table q i t)
unfolding semaphore_P
semaphore_P-Down address table q bucket i t h a pt lt new =
    rw
      (
        read-ok table i blank h,
        write-ok table i
            (record (get_or table i blank) { value = prev (get_or table i blank).value }) h,
      )
      (cases (get_or table i blank).value refl)
  where
    cases :
        (v : ℤ)
        → (get_or table i blank).value ≡ v
        → Yields (Down address table q bucket i t) (
            if ltb_ℤ (prev (get_or table i blank).value) (pos 0)
            then (do q' ← sleepq_add true q (address i) t; ok (true, lowered table i, q'))
            else ok (false, lowered table i, q))
    cases (pos zero) e =
        let low : ltb_ℤ (prev (get_or table i blank).value) (pos 0) ≡ true = rw e refl in
        rw low (
          Yields-bind _ (sleepq_add-Joins q bucket (address i) t a pt lt new)
            λ q' j. yields (sleeps (inl e) j))
    cases (negsuc n) e =
        let low : ltb_ℤ (prev (get_or table i blank).value) (pos 0) ≡ true = rw e refl in
        rw low (
          Yields-bind _ (sleepq_add-Joins q bucket (address i) t a pt lt new)
            λ q' j. yields (sleeps (inr (n, e)) j))
    cases (pos (suc n)) e =
        let high : ltb_ℤ (prev (get_or table i blank).value) (pos 0) ≡ false =
          rw e (ge→ltb n 0 (omega arith)) in
        rw high (yields (passed e))
