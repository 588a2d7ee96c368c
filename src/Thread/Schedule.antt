-- ===== src/Thread/Schedule.antt =====
-- `scheduler_schedule` serves the ready threads in the order of a queue.
use osm_re_exam.Prelude.{
  ℕ, ◌<◌, ◌≡◌, refl, ◌≢◌, ap, ◌∙◌, List, [], ◌∷◌, ◌++◌, not, if◌then◌else◌, arith, length, get_or,
  set, inl, inr, Bool-cases, ◌==◌, ==→ne,
}
use osm_re_exam.Prelude.Int.{ℤ}
use osm_re_exam.Prelude.Result.{
  Result, ok, ◌>>=◌, Yields, yields, Yields-bind, Yields-mono, write, read-ok, write-ok,
}
use osm_re_exam.Thread.{
  ThreadState, thread_ready, thread_running, thread_free, thread_sleeping, Thread, Threads,
  max_threads, is_dying, idle_thread, scheduler_remove_first_ready, set_state, scheduler_add_ready,
  put_away, scheduler_schedule,
}
use osm_re_exam.Thread.Chain.{blank, entry, Absent, Chain, link}
use osm_re_exam.Thread.Ready.{
  Queue-states, scheduler_remove_first_ready-head, scheduler_remove_first_ready-idle,
}
use osm_re_exam.Thread.Entry.{Queue, set_state-ok}
use osm_re_exam.Thread.Enqueue.{
  Ready, AllReady-same, AllReady-last, Absent-ne, state_self, state_ne, Ready-states,
  scheduler_add_ready-Ready,
}

-- The queue and the state that a thread `c`, with entry `e`, leaves behind.
abbrev pub queue_after : Thread → ℕ → List ℕ → List ℕ
queue_after e c ts =
    if is_dying e.state
    then ts
    else if not (e.sleeps_on == 0)
    then ts
    else if c == idle_thread
    then ts
    else ts ++ (c ∷ [])

abbrev pub state_after : Thread → ThreadState
state_after e =
    if is_dying e.state
    then thread_free
    else if not (e.sleeps_on == 0)
    then thread_sleeping
    else thread_ready

-- The thread is put away: it has its new state, and its place in the queue if it goes on.
record Away (k : Threads) (c : ℕ) (ts : List ℕ) (k' : Threads) : Type 0 where
  ready : Ready k' (queue_after (entry k.table c) c ts)
  state : (entry k'.table c).state ≡ state_after (entry k.table c)
  others : (i : ℕ) → i ≢ c → (entry k'.table i).state ≡ (entry k.table i).state
  current : k'.current ≡ k.current

module _ (k : Threads) (c : ℕ) (ts : List ℕ) (r : Ready k ts) (lt : c < max_threads)
    (a : Absent c ts) where
  inside : c < length k.table
  inside = omega (arith, r.queue.size)

  -- What becomes of a thread that does not go back into the queue.
  stays_out :
      (state : ThreadState)
      → queue_after (entry k.table c) c ts ≡ ts
      → state ≡ state_after (entry k.table c)
      → Yields (Away k c ts) (do table ← set_state k.table c state; ok (record k { table = table }))
  stays_out state same q = rw (set_state-ok k.table c state inside) (
      yields (record {
        ready = rw same (Ready-states k ts c state r lt a);
        state = state_self k c state inside ∙ q;
        others = λ i ne. state_ne k c i state ne;
        current = refl;
      }))

  put_away-Away : Yields (Away k c ts) (put_away k c (entry k.table c))
  unfolding put_away scheduler_add_ready
  put_away-Away = elim (Bool-cases (is_dying (entry k.table c).state)) [
    | inl dying ↦ rw dying (stays_out thread_free (rw dying refl) (rw dying refl))
    | inr alive ↦ elim (Bool-cases ((entry k.table c).sleeps_on == 0)) [
      | inr asleep ↦
          rw (alive, asleep)
            (stays_out thread_sleeping (rw (alive, asleep) refl) (rw (alive, asleep) refl))
      | inl awake ↦ elim (Bool-cases (c == idle_thread)) [
        | inl idle ↦
            rw (alive, awake, idle)
              (stays_out thread_ready (rw (alive, awake, idle) refl) (rw (alive, awake) refl))
        | inr goes_on ↦
            let positive : 0 < c = omega (arith, ==→ne c 0 goes_on) in
            rw (alive, awake, goes_on)
              (Yields-mono (scheduler_add_ready-Ready k ts c r positive lt a) λ k' h. record {
                ready = rw (alive, awake, goes_on) h.0;
                state = rw (alive, awake) (AllReady-last k'.table c ts h.0.ready);
                others = h.1;
                current = h.2;
              })
      ]
    ]
  ]

abbrev pub next_of : List ℕ → ℕ
next_of [] = idle_thread
next_of (t ∷ ts) = t

abbrev pub rest_of : List ℕ → List ℕ
rest_of [] = []
rest_of (t ∷ ts) = ts

-- A round of the scheduler on a processor whose thread is `c`, with the ready list `ts`: the thread
-- is put away, the first thread of the queue runs, or the idle thread if there is none, and no
-- other thread changes its state.
pub record Scheduled (k : Threads) (this_cpu c : ℕ) (ts : List ℕ) (k' : Threads) : Type 0 where
  pub ready : Ready k' (rest_of (queue_after (entry k.table c) c ts))
  pub current : k'.current ≡ set k.current this_cpu (next_of (queue_after (entry k.table c) c ts))
  pub running :
      (entry k'.table (next_of (queue_after (entry k.table c) c ts))).state ≡ thread_running
  pub away :
      c ≢ next_of (queue_after (entry k.table c) c ts)
      → (entry k'.table c).state ≡ state_after (entry k.table c)
  pub others :
      (i : ℕ)
      → i ≢ c
      → i ≢ next_of (queue_after (entry k.table c) c ts)
      → (entry k'.table i).state ≡ (entry k.table i).state

-- Taking the next thread and running it.
record Started (k : Threads) (this_cpu : ℕ) (ts : List ℕ) (k' : Threads) : Type 0 where
  ready : Ready k' (rest_of ts)
  current : k'.current ≡ set k.current this_cpu (next_of ts)
  running : (entry k'.table (next_of ts)).state ≡ thread_running
  others : (i : ℕ) → i ≢ next_of ts → (entry k'.table i).state ≡ (entry k.table i).state

start_next : Threads → ℕ → Result Threads
start_next k this_cpu = do
  (t, rest) ← scheduler_remove_first_ready k
  table ← set_state rest.table t thread_running
  current ← write rest.current this_cpu t
  ok (record rest { table = table; current = current })

first_inside : {k : Threads} {t : ℕ} {ts : List ℕ} → Queue k (t ∷ ts) → t < max_threads
first_inside {k} {t} {ts} q = go q.chain
  where
    go : {h : ℤ} → Chain k.table h (t ∷ ts) → t < max_threads
    go (link p l c) = omega (arith, q.size)

start_next-Started :
    (k : Threads) (this_cpu : ℕ) (ts : List ℕ)
    → Ready k ts
    → this_cpu < length k.current
    → Yields (Started k this_cpu ts) (start_next k this_cpu)
unfolding start_next
start_next-Started k this_cpu [] r cpu =
    let inside : 0 < length k.table = omega (arith, r.queue.size) in
    rw
      (
        scheduler_remove_first_ready-idle k r.queue,
        set_state-ok k.table 0 thread_running inside,
        write-ok k.current this_cpu 0 cpu,
      )
      (yields (record {
        ready = record {
          queue =
              let q = Queue-states k [] 0 thread_running r.queue (omega arith) in
              record { chain = q.chain; tail = q.tail; distinct = q.distinct; size = q.size };
          ready = tt;
        };
        current = refl;
        running = state_self k 0 thread_running inside;
        others = λ i ne. state_ne k 0 i thread_running ne;
      }))
start_next-Started k this_cpu (t ∷ ts) r cpu =
    Yields-bind _ (scheduler_remove_first_ready-head k t ts r.queue r.ready.0)
      λ out h. go out h.0 h.1 h.2 h.3
  where
    go :
        (out : ℕ × Threads)
        → out.0 ≡ t
        → Queue out.1 ts
        → out.1.table ≡ k.table
        → out.1.current ≡ k.current
        → Yields (Started k this_cpu (t ∷ ts)) (do
          table ← set_state out.1.table out.0 thread_running
          current ← write out.1.current this_cpu out.0
          ok (record (out.1) { table = table; current = current }))
    go out e q table current =
        let l : t < max_threads = first_inside r.queue in
        let inside : t < length (out.1.table) = omega (arith, q.size) in
        let fits : this_cpu < length (out.1.current) = rw current cpu in
        let q' = Queue-states (out.1) ts t thread_running q l in
        rw
          (
            e,
            set_state-ok (out.1.table) t thread_running inside,
            write-ok (out.1.current) this_cpu t fits,
          )
          (yields (record {
            ready = record {
              queue = record {
                chain = q'.chain;
                tail = q'.tail;
                distinct = q'.distinct;
                size = q'.size;
              };
              ready = AllReady-same k.table _ ts r.ready.1 λ i there.
                  state_ne (out.1) t i thread_running (Absent-ne t i ts r.queue.distinct.0 there)
                  ∙ ap (λ x. (entry x i).state) table;
            };
            current = rw current refl;
            running = state_self (out.1) t thread_running inside;
            others =
                λ i ne. state_ne (out.1) t i thread_running ne ∙ ap (λ x. (entry x i).state) table;
          }))

-- On a well-formed ready list `ts` of ready threads, and for a processor whose thread `c` is not in
-- it, `scheduler_schedule` succeeds. A dying thread becomes free and a thread with a resource to sleep
-- on becomes sleeping; another one becomes ready and, unless it is the idle thread, goes to the end of
-- the list. The first thread of that list then runs, the idle thread if there is none; the
-- rest is the new ready list, and the other threads keep their states.
pub scheduler_schedule-Scheduled :
    (k : Threads) (this_cpu c : ℕ) (ts : List ℕ)
    → Ready k ts
    → this_cpu < length k.current
    → get_or k.current this_cpu 0 ≡ c
    → c < max_threads
    → Absent c ts
    → Yields (Scheduled k this_cpu c ts) (scheduler_schedule k this_cpu)
unfolding scheduler_schedule start_next
scheduler_schedule-Scheduled k this_cpu c ts r cpu at lt a =
    rw (read-ok k.current this_cpu 0 cpu, at, read-ok k.table c blank (omega (arith, r.queue.size)))
      (Yields-bind _ (put_away-Away k c ts r lt a) λ k1 away.
        Yields-mono (start_next-Started k1 this_cpu _ away.ready (rw away.current cpu)) λ k' s.
          record {
            ready = s.ready;
            current = s.current ∙ rw away.current refl;
            running = s.running;
            away = λ ne. s.others c ne ∙ away.state;
            others = λ i ne ne'. s.others i ne' ∙ away.others i ne;
          })
