-- ===== src/Examples/Processes.antt =====
-- Process tables.
use osm_re_exam.Prelude.{◌≡◌, refl, List, [], ◌∷◌, ◌++◌, false, arith, set, replicate}
use osm_re_exam.Prelude.Int.{ℤ, pos, minus_one}
use osm_re_exam.Prelude.Result.{ok, read, write, Yields}
use osm_re_exam.Process.{
  process_running, process_zombie, Pcb, alloc_process_id, alloc_from, process_finish, process_join,
  process_has_open_file,
}
use osm_re_exam.Thread.{
  Thread, thread_running, thread_ready, thread_sleeping, set_state, scheduler_add_to_ready_list,
}
use osm_re_exam.Thread.Chain
use osm_re_exam.Sleepq.{Sleepq, sleepq_wake_all, wake_loop, hash, find_waiter, unlink, rouse}
use osm_re_exam.Bitmap.{bitmap_get, bitmap_set}
use osm_re_exam.Pagepool.{Pagepool, pagepool_free_phys_page}
use osm_re_exam.Vm.{vm_destroy_pagetable}
use osm_re_exam.Process.Slots.{blank}
use osm_re_exam.Process.Life.{
  Reaped, process_join-zombie, unmapped, Finished, process_finish-Finished,
}

abbrev parent : Pcb
parent = record blank { state = process_running; heap_end = 4096 }

abbrev child : Pcb
child = record parent { parent = pos 0 }

abbrev running : List Pcb
running = parent ∷ child ∷ blank ∷ []

abbrev ended : List Pcb
ended = set running 1 (record child { state = process_zombie; retval = pos 42 })

first_free : (alloc_process_id running).0 ≡ 2
unfolding alloc_process_id alloc_from
first_free = refl

process_join-zombie_example :
    Yields (Reaped ended 1) (process_join running ((running ∷ []) ++ (ended ∷ [])) (pos 0) (pos 1))
process_join-zombie_example =
    process_join-zombie running (running ∷ []) ended [] 0 1 (omega arith) (omega arith) refl
      (omega arith, refl, tt) (omega arith) refl

abbrev files : List ℤ
files = pos 9 ∷ minus_one ∷ []

four_is_new : process_has_open_file files (pos 4) ≡ false
unfolding process_has_open_file
four_is_new = refl

abbrev pool : Pagepool
pool = record { free_pages = 7 ∷ []; num_pages = 8; num_free_pages = pos 5; static_end = 2 }

abbrev freed : Pagepool
freed = record { free_pages = 3 ∷ []; num_pages = 8; num_free_pages = pos 6; static_end = 2 }

page_table_released : vm_destroy_pagetable pool 0x8000_2000 ≡ ok freed
unfolding vm_destroy_pagetable pagepool_free_phys_page bitmap_get bitmap_set read write
page_table_released = refl

-- Thread 1 runs the process, and thread 2 waits for it.
abbrev mine : Thread
mine = record Chain.blank { state = thread_running; pagetable = 0x8000_2000; process_id = pos 0 }

abbrev waiting : Sleepq
waiting = record {
  hashtable = set (replicate 127 minus_one) (hash 0x1000) (pos 2);
  threads = record {
    table =
        Chain.blank
        ∷ mine
        ∷ record Chain.blank { state = thread_sleeping; sleeps_on = 0x1000 }
        ∷ replicate 29 Chain.blank;
    head = minus_one;
    tail = minus_one;
    current = 1 ∷ [];
    next_tid = 3;
  };
}

abbrev awake : Sleepq
awake = record {
  hashtable = replicate 127 minus_one;
  threads = record {
    table =
        Chain.blank
        ∷ record mine { pagetable = 0 }
        ∷ record Chain.blank { state = thread_ready }
        ∷ replicate 29 Chain.blank;
    head = pos 2;
    tail = pos 2;
    current = 1 ∷ [];
    next_tid = 3;
  };
}

waiter_woken : sleepq_wake_all (unmapped waiting 1) 0x1000 ≡ ok awake
unfolding sleepq_wake_all wake_loop find_waiter unlink rouse set_state scheduler_add_to_ready_list
    read write
waiter_woken = refl

process_finish-Finished_example :
    Yields
      (λ out. Finished running 0 (pos 3) out.0 × (out.1 ≡ freed) × (out.2 ≡ awake))
      (process_finish running pool waiting 0 1 0x1000 (pos 3))
process_finish-Finished_example =
    process_finish-Finished running pool freed waiting awake 0 1 0x1000 (pos 3) (omega arith)
      (omega arith) page_table_released waiter_woken
