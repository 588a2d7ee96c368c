-- ===== src/Examples/Threads.antt =====
-- The thread table and the ready list.
use osm_re_exam.Prelude.{refl, [], ◌∷◌, arith, replicate}
use osm_re_exam.Prelude.Int.{pos}
use osm_re_exam.Prelude.Result.{Yields}
use osm_re_exam.Thread.{thread_running, thread_ready, Thread, Threads, Image, scheduler_schedule}
use osm_re_exam.Thread.Chain.{blank, stop, link}
use osm_re_exam.Thread.Schedule.{Scheduled, scheduler_schedule-Scheduled}
use osm_re_exam.Thread.Enqueue.{Ready}

abbrev pub running : Thread
running = record blank { state = thread_running }

-- Thread 1 runs, threads 2 and 3 are ready in this order.
abbrev pub threads : Threads
threads = record {
  table =
      running
      ∷ running
      ∷ record blank { state = thread_ready; next = pos 3 }
      ∷ record blank { state = thread_ready }
      ∷ replicate 28 blank;
  head = pos 2;
  tail = pos 3;
  current = 1 ∷ 0 ∷ 0 ∷ 0 ∷ [];
  next_tid = 4;
}

threads-Ready : Ready threads (2 ∷ 3 ∷ [])
threads-Ready = record {
  queue = record {
    chain = link (omega arith) (omega arith) (link (omega arith) (omega arith) stop);
    tail = refl;
    distinct = ((omega arith, tt), (tt, tt));
    size = refl;
  };
  ready = (refl, (refl, tt));
}

scheduler_schedule-Scheduled_example :
    Yields (Scheduled threads 0 1 (2 ∷ 3 ∷ [])) (scheduler_schedule threads 0)
scheduler_schedule-Scheduled_example =
    scheduler_schedule-Scheduled threads 0 1 (2 ∷ 3 ∷ []) threads-Ready (omega arith) refl
      (omega arith) (omega arith, (omega arith, tt))

abbrev image : Image
image = record {
  thread_stack_areas = 0x8001_0000;
  thread_finish = 0x8000_4000;
  idle_thread_wait_loop = 0x8000_0200;
}
