-- ===== src/Examples/Semaphores.antt =====
-- Semaphores.
use osm_re_exam.Prelude.{ℕ, ◌+◌, ◌*◌, [], ◌∷◌, ◌≡◌, refl, List, false, arith, replicate}
use osm_re_exam.Prelude.Int.{pos, minus_one}
use osm_re_exam.Prelude.Result.{ok, Yields, read, write}
use osm_re_exam.Sleepq.{sleepq_init}
use osm_re_exam.Semaphore.{Semaphore, semaphore_P}
use osm_re_exam.Semaphore.Down.{Down, semaphore_P-Down}
use osm_re_exam.Examples.Threads.{threads}
use osm_re_exam.Sleepq.Add.{sleepq_init-Asleep}

abbrev closed : Semaphore
closed = record { value = pos 0; creator = pos 1 }

abbrev open_for_two : Semaphore
open_for_two = record { value = pos 2; creator = pos 1 }

abbrev entries : List Semaphore
entries = closed ∷ open_for_two ∷ replicate 126 (record closed { creator = minus_one })

abbrev address : ℕ → ℕ
address i = 0x8002_0000 + 12 * i

passes :
    semaphore_P address entries (sleepq_init threads) 1 1
    ≡ ok (
      false,
      closed
          ∷ record open_for_two { value = pos 1 }
          ∷ replicate 126 (record closed { creator = minus_one }),
      sleepq_init threads,
    )
unfolding semaphore_P read write
passes = refl

semaphore_P-Down_example :
    Yields
      (Down address entries (sleepq_init threads) (λ h. []) 0 1)
      (semaphore_P address entries (sleepq_init threads) 0 1)
semaphore_P-Down_example =
    semaphore_P-Down address entries (sleepq_init threads) (λ h. []) 0 1 (omega arith)
      (sleepq_init-Asleep threads refl) (omega arith) (omega arith) (λ h. tt)
