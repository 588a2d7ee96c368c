-- ===== src/Thread/Init.antt =====
-- The table at start.
use osm_re_exam.Prelude.{
  ℕ, zero, suc, ◌<◌, ◌≡◌, refl, ap, ◌∙◌, List, [], ◌∷◌, map, true, arith, length, length-set,
}
use osm_re_exam.Prelude.Result.{Yields, yields, read-ok, write-ok}
use osm_re_exam.Thread.{
  Thread, Image, max_threads, idle_thread, is_free, is_ready, init_entry, thread_table_init,
  scheduler_init,
}
use osm_re_exam.Thread.Chain.{blank, entry, stop}
use osm_re_exam.Thread.Entry.{entry-set_self, entry-set_ne}
use osm_re_exam.Thread.Enqueue.{Ready}

-- With this table the ready list is empty, the idle thread is ready, and all others are free.
pub record Started (table : List Thread) : Type 0 where
  pub ready : (cpus : ℕ) → Ready (scheduler_init cpus table) []
  pub idle : is_ready (entry table idle_thread).state ≡ true
  pub free : (i : ℕ) → 0 < i → i < max_threads → is_free (entry table i).state ≡ true

length-map-init_entry : (table : List Thread) → length (map init_entry table) ≡ length table
length-map-init_entry [] = refl
length-map-init_entry (e ∷ es) = ap suc (length-map-init_entry es)

entry-map_free :
    (table : List Thread) (i : ℕ)
    → i < length table
    → is_free (entry (map init_entry table) i).state ≡ true
unfolding init_entry
entry-map_free [] i h = absurd (omega arith)
entry-map_free (e ∷ es) zero h = refl
entry-map_free (e ∷ es) (suc i) h = entry-map_free es i (omega arith)

-- `thread_table_init` of a table of CONFIG_MAX_THREADS entries succeeds: with an empty ready list the
-- table is well-formed, the idle thread is ready and every other entry is free.
thread_table_init-Started :
    (image : Image) (status : ℕ) (table : List Thread)
    → length table ≡ max_threads
    → Yields Started (thread_table_init image status table)
unfolding thread_table_init scheduler_init
thread_table_init-Started image status table size =
    let entries = map init_entry table in
    let n : length entries ≡ max_threads = length-map-init_entry table ∙ size in
    let h : 0 < length entries = omega arith in
    rw (read-ok entries 0 blank h, write-ok entries 0 _ h)
      (yields (record {
        ready = λ cpus. record {
          queue = record {
            chain = stop;
            tail = refl;
            distinct = tt;
            size = length-set entries 0 _ ∙ n;
          };
          ready = tt;
        };
        idle = ap (λ e. is_ready e.state) (entry-set_self entries 0 _ h);
        free = λ i p l.
            ap (λ e. is_free e.state) (entry-set_ne entries 0 i _ (omega arith))
            ∙ entry-map_free table i (omega arith);
      }))
