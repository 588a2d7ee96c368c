-- ===== src/Thread/Enqueue.antt =====
-- `scheduler_add_ready` puts a thread at the end of the queue of ready threads.
use osm_re_exam.Prelude.{
  ℕ, ◌<◌, ◌≡◌, refl, ◌≢◌, sym, ap, ◌∙◌, List, [], ◌∷◌, ◌++◌, arith, length, set,
}
use osm_re_exam.Prelude.Result.{Yields, yields, Yields-bind}
use osm_re_exam.Thread.{
  ThreadState, thread_ready, Thread, Threads, max_threads, scheduler_add_ready,
}
use osm_re_exam.Thread.Chain.{entry, Absent}
use osm_re_exam.Thread.Ready.{scheduler_add_to_ready_list-Added, Queue-states}
use osm_re_exam.Thread.Entry.{Queue, AllReady, entry-set_self, entry-set_ne, set_state-ok}

-- The ready list of `k` is `ts`, and all its threads are ready.
pub record Ready (k : Threads) (ts : List ℕ) : Type 0 where
  pub queue : Queue k ts
  pub ready : AllReady k.table ts

-- The table with another state of one thread.
abbrev pub with_state : Threads → ℕ → ThreadState → Threads
with_state k t state = record k {
  table = set k.table t (record (entry k.table t) { state = state });
}

pub AllReady-same :
    (table table' : List Thread) (ts : List ℕ)
    → AllReady table ts
    → ((i : ℕ) → ¬ Absent i ts → (entry table' i).state ≡ (entry table i).state)
    → AllReady table' ts
AllReady-same table table' [] r same = tt
AllReady-same table table' (t ∷ ts) r same =
    (same t (λ a. a.0 refl) ∙ r.0, AllReady-same table table' ts r.1 (λ i h. same i (λ a. h a.1)))

AllReady-append :
    (table : List Thread) (t : ℕ) (ts : List ℕ)
    → AllReady table ts
    → (entry table t).state ≡ thread_ready
    → AllReady table (ts ++ (t ∷ []))
AllReady-append table t [] r h = (h, tt)
AllReady-append table t (u ∷ ts) r h = (r.0, AllReady-append table t ts r.1 h)

pub AllReady-last :
    (table : List Thread) (t : ℕ) (ts : List ℕ)
    → AllReady table (ts ++ (t ∷ []))
    → (entry table t).state ≡ thread_ready
AllReady-last table t [] r = r.0
AllReady-last table t (u ∷ ts) r = AllReady-last table t ts r.1

pub Absent-ne : (t i : ℕ) (ts : List ℕ) → Absent t ts → ¬ Absent i ts → i ≢ t
Absent-ne t i ts a h e = h (rw e a)

pub state_self :
    (k : Threads) (t : ℕ) (state : ThreadState)
    → t < length k.table
    → (entry (with_state k t state).table t).state ≡ state
state_self k t state h =
    ap (λ e. e.state) (entry-set_self k.table t (record (entry k.table t) { state = state }) h)

pub state_ne :
    (k : Threads) (t i : ℕ) (state : ThreadState)
    → i ≢ t
    → (entry (with_state k t state).table i).state ≡ (entry k.table i).state
state_ne k t i state ne =
    ap (λ e. e.state)
      (entry-set_ne k.table t i (record (entry k.table t) { state = state }) (λ e. ne (sym e)))

-- Changing the state of a thread outside the list keeps the list ready.
pub Ready-states :
    (k : Threads) (ts : List ℕ) (t : ℕ) (state : ThreadState)
    → Ready k ts
    → t < max_threads
    → Absent t ts
    → Ready (with_state k t state) ts
Ready-states k ts t state r h a = record {
  queue = Queue-states k ts t state r.queue h;
  ready =
      AllReady-same k.table _ ts r.ready
        (λ i there. state_ne k t i state (Absent-ne t i ts a there));
}

-- `scheduler_add_ready` of a thread that is not in the ready list puts it at the end of the list, in
-- state THREAD_READY, and the list stays well-formed, with all its threads ready.
pub scheduler_add_ready-Ready :
    (k : Threads) (ts : List ℕ) (t : ℕ)
    → Ready k ts
    → 0 < t
    → t < max_threads
    → Absent t ts
    → Yields
        (λ k'.
          Ready k' (ts ++ (t ∷ []))
          × ((i : ℕ) → i ≢ t → (entry k'.table i).state ≡ (entry k.table i).state)
          × (k'.current ≡ k.current))
        (scheduler_add_ready k t)
unfolding scheduler_add_ready
scheduler_add_ready-Ready k ts t r pt lt a =
    Yields-bind _ (scheduler_add_to_ready_list-Added k ts t r.queue pt lt a) λ k1 added.
      let inside : t < length k1.table = omega (arith, added.queue.size) in
      rw (set_state-ok k1.table t thread_ready inside) (
        yields (
          record {
            queue = Queue-states k1 _ t thread_ready added.queue lt;
            ready =
                AllReady-append _ t ts
                  (AllReady-same k.table _ ts r.ready (λ i there.
                    state_ne k1 t i thread_ready (Absent-ne t i ts a there) ∙ added.table.rest i))
                  (state_self k1 t thread_ready inside);
          },
          λ i ne. state_ne k1 t i thread_ready ne ∙ added.table.rest i,
          added.current,
        ))
