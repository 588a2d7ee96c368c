-- ===== src/Examples/Sleepers.antt =====
-- The sleep queue.
use osm_re_exam.Prelude.{◌≡◌, refl, [], ◌∷◌, true, arith, set, replicate}
use osm_re_exam.Prelude.Int.{pos, minus_one}
use osm_re_exam.Prelude.Result.{ok, ◌>>=◌, read, write, Yields}
use osm_re_exam.Thread.{thread_sleeping, set_state, scheduler_add_to_ready_list}
use osm_re_exam.Thread.Chain.{blank}
use osm_re_exam.Sleepq.{
  Sleepq, sleepq_wake_all, wake_loop, hash, sleepq_init, sleepq_add, find_waiter, unlink, rouse,
  sleepq_wake,
}
use osm_re_exam.Sleepq.Add.{Joins, sleepq_add-Joins, sleepq_init-Asleep}
use osm_re_exam.Sleepq.Buckets.{Asleep}
use osm_re_exam.Examples.Threads.{threads, running}

Asleep-at_start : Asleep (sleepq_init threads) (λ h. [])
Asleep-at_start = sleepq_init-Asleep threads refl

sleepq_add-Joins_example :
    Yields
      (Joins (sleepq_init threads) (λ h. []) 0x8000_7000 1)
      (sleepq_add true (sleepq_init threads) 0x8000_7000 1)
sleepq_add-Joins_example =
    sleepq_add-Joins (sleepq_init threads) (λ h. []) 0x8000_7000 1 Asleep-at_start (omega arith)
      (omega arith) (λ h. tt)

-- Two threads sleep on one resource, and the first of them is woken.
abbrev two_asleep : Sleepq
two_asleep = record {
  hashtable = set (replicate 127 minus_one) (hash 0x1000) (pos 1);
  threads = record threads {
    table =
        running
        ∷ record blank { state = thread_sleeping; sleeps_on = 0x1000; next = pos 2 }
        ∷ record blank { state = thread_sleeping; sleeps_on = 0x1000 }
        ∷ replicate 29 blank;
    head = minus_one;
    tail = minus_one;
  };
}

wakes_first :
    (do q ← sleepq_wake two_asleep 0x1000; ok q.hashtable)
    ≡ ok (set (replicate 127 minus_one) (hash 0x1000) (pos 2))
unfolding sleepq_wake find_waiter unlink rouse set_state scheduler_add_to_ready_list read write
wakes_first = refl

lists_first : (do q ← sleepq_wake two_asleep 0x1000; ok q.threads.head) ≡ ok (pos 1)
unfolding sleepq_wake find_waiter unlink rouse set_state scheduler_add_to_ready_list read write
lists_first = refl

empties_list :
    (do q ← sleepq_wake_all two_asleep 0x1000; ok q.hashtable) ≡ ok (replicate 127 minus_one)
unfolding sleepq_wake_all wake_loop find_waiter unlink rouse set_state scheduler_add_to_ready_list
    read write
empties_list = refl

lists_both : (do q ← sleepq_wake_all two_asleep 0x1000; ok q.threads.tail) ≡ ok (pos 2)
unfolding sleepq_wake_all wake_loop find_waiter unlink rouse set_state scheduler_add_to_ready_list
    read write
lists_both = refl
