-- ===== src/Thread/Ready.antt =====
-- The ready list is a queue.
use osm_re_exam.Prelude.{
  if◌then◌else◌, ℕ, ◌<◌, ◌≡◌, refl, ◌≢◌, sym, ap, ◌∙◌, List, [], ◌∷◌, ◌++◌, arith, length, set,
  length-set, ne→==, lt→ltb,
}
use osm_re_exam.Prelude.Int.{ℤ, pos, minus_one, ◌==ℤ◌, ne→==ℤ, ==ℤ_refl}
use osm_re_exam.Prelude.Result.{ok, Yields, yields, read-ok, write-ok}
use osm_re_exam.Thread.{
  ThreadState, thread_ready, Thread, Threads, max_threads, idle_thread, scheduler_add_to_ready_list,
  scheduler_remove_first_ready,
}
use osm_re_exam.Thread.Chain.{
  blank, entry, Absent, Distinct, Chain, stop, link, last_of, last_of-ne, last_of-append,
  Distinct-append, Chain-same, Chain-append,
}
use osm_re_exam.Thread.Entry.{
  Queue, Relinked, entry-set_self, entry-set_ne, entry-set_field, linked, linked-Relinked,
  alone-Relinked, last-inside, last_pos,
}

-- Thread `t` has joined the end of the list; states and sleeps are as they were.
pub record Added (k : Threads) (ts : List ℕ) (t : ℕ) (k' : Threads) : Type 0 where
  pub queue : Queue k' (ts ++ (t ∷ []))
  pub table : Relinked k.table k'.table
  pub current : k'.current ≡ k.current

linked-Chain :
    {table : List Thread} {h : ℤ} (t i : ℕ) (ts : List ℕ) (l : ℕ)
    → Chain table h (i ∷ ts)
    → last_of (i ∷ ts) ≡ pos l
    → 0 < t
    → t < length table
    → Distinct (i ∷ ts)
    → Absent t (i ∷ ts)
    → t ≢ l
    → Chain (linked table l t) h ((i ∷ ts) ++ (t ∷ []))
linked-Chain {table} t i ts l c e pt lt d a ne =
    Chain-append table (linked table l t) t i ts (linked-Relinked table l t hl lt).size c pt lt
      (ap (λ x. x.next) (entry-set_self before t _ inside)) at_last others d a
  where
    hl : l < length table
    hl = last-inside i ts l c e

    before : List Thread
    before = set table l (record (entry table l) { next = pos t })

    inside : t < length before
    inside = omega (arith, length-set table l (record (entry table l) { next = pos t }))

    at_last : (j : ℕ) → j ≢ t → pos j ≡ last_of (i ∷ ts) → (entry (linked table l t) j).next ≡ pos t
    at_last j other q =
        let same : j ≡ l = cc in
        rw (entry-set_ne before t j _ (λ x. other (sym x)), same)
          (ap (λ x. x.next) (entry-set_self table l _ hl))

    others :
        (j : ℕ)
        → j ≢ t
        → pos j ≢ last_of (i ∷ ts)
        → (entry (linked table l t) j).next ≡ (entry table j).next
    others j other q =
        let differs : l ≢ j = λ x. q (ap pos (sym x) ∙ sym e) in
        rw
          (
            entry-set_ne before t j _ (λ x. other (sym x)),
            entry-set_ne table l j (record (entry table l) { next = pos t }) differs,
          )
          refl

pub scheduler_add_to_ready_list-Added :
    (k : Threads) (ts : List ℕ) (t : ℕ)
    → Queue k ts
    → 0 < t
    → t < max_threads
    → Absent t ts
    → Yields (Added k ts t) (scheduler_add_to_ready_list k (pos t))
unfolding scheduler_add_to_ready_list
scheduler_add_to_ready_list-Added k [] t q pt lt a =
    rw
      (
        ne→== t 0 (omega arith),
        lt→ltb t max_threads lt,
        q.tail,
        read-ok k.table t blank inside,
        write-ok k.table t (record (entry k.table t) { next = minus_one }) inside,
      )
      (yields (record {
        queue = record {
          chain =
              link pt
                (omega
                  (arith, length-set k.table t (record (entry k.table t) { next = minus_one })))
                (rw
                  (entry-set_self k.table t (record (entry k.table t) { next = minus_one }) inside)
                  stop);
          tail = refl;
          distinct = (tt, tt);
          size = length-set k.table t (record (entry k.table t) { next = minus_one }) ∙ q.size;
        };
        table = alone-Relinked k.table t inside;
        current = refl;
      }))
  where
    inside : t < length k.table
    inside = omega (arith, q.size)
scheduler_add_to_ready_list-Added k (i ∷ ts) t q pt lt a =
    let (l, e) = last_pos i ts in
    let hl = last-inside i ts l q.chain e in
    let inside : t < length k.table = omega (arith, q.size) in
    let new = record (entry k.table l) { next = pos t } in
    let still : t < length (set k.table l new) = omega (arith, length-set k.table l new) in
    rw
      (
        ne→== t 0 (omega arith),
        lt→ltb t max_threads lt,
        q.tail ∙ e,
        read-ok k.table l blank hl,
        write-ok k.table l new hl,
        read-ok (set k.table l new) t blank still,
        write-ok (set k.table l new) t (record (entry (set k.table l new) t) { next = minus_one })
            still,
      )
      (yields (record {
        queue = record {
          chain =
              linked-Chain t i ts l q.chain e pt inside q.distinct a
                (λ x. last_of-ne t (i ∷ ts) a (e ∙ ap pos (sym x)));
          tail = sym (last_of-append t (i ∷ ts));
          distinct = Distinct-append t (i ∷ ts) q.distinct a;
          size = (linked-Relinked k.table l t hl inside).size ∙ q.size;
        };
        table = linked-Relinked k.table l t hl inside;
        current = refl;
      }))

-- Setting states keeps the queue.
pub Queue-states :
    (k : Threads) (ts : List ℕ) (t : ℕ) (state : ThreadState)
    → Queue k ts
    → t < max_threads
    → Queue (record k { table = set k.table t (record (entry k.table t) { state = state }) }) ts
Queue-states k ts t state q h = record {
  chain = Chain-same k.table _ (length-set k.table t _) q.chain (λ i there.
      entry-set_field (λ e. e.next) k.table t i (record (entry k.table t) { state = state })
        (omega (arith, q.size)) refl);
  tail = q.tail;
  distinct = q.distinct;
  size = length-set k.table t _ ∙ q.size;
}

-- Taking the first thread off the queue.
pub scheduler_remove_first_ready-head :
    (k : Threads) (t : ℕ) (ts : List ℕ)
    → Queue k (t ∷ ts)
    → (entry k.table t).state ≡ thread_ready
    → Yields
        (λ out.
          (out.0 ≡ t) × Queue out.1 ts × (out.1.table ≡ k.table) × (out.1.current ≡ k.current))
        (scheduler_remove_first_ready k)
unfolding scheduler_remove_first_ready
scheduler_remove_first_ready-head k t ts q ready = go q.chain refl
  where
    shorter :
        (ts : List ℕ)
        → Distinct (t ∷ ts)
        → (if last_of (t ∷ ts) ==ℤ pos t then minus_one else last_of (t ∷ ts)) ≡ last_of ts
    shorter [] d = rw (==ℤ_refl (pos t))
    shorter (u ∷ us) d = rw (ne→==ℤ (last_of (u ∷ us)) (pos t) (last_of-ne t (u ∷ us) d.0))

    go :
        {h : ℤ}
        → Chain k.table h (t ∷ ts)
        → k.head ≡ h
        → Yields
            (λ out.
              (out.0 ≡ t) × Queue out.1 ts × (out.1.table ≡ k.table) × (out.1.current ≡ k.current))
            (scheduler_remove_first_ready k)
    go (link p l c) e =
        rw (e, ne→== t 0 (omega arith), read-ok k.table t blank l, ready)
          (yields (
            refl,
            record {
              chain = c;
              tail = rw q.tail (shorter ts q.distinct);
              distinct = q.distinct.1;
              size = q.size;
            },
            refl,
            refl,
          ))

pub scheduler_remove_first_ready-idle :
    (k : Threads) → Queue k [] → scheduler_remove_first_ready k ≡ ok (idle_thread, k)
unfolding scheduler_remove_first_ready
scheduler_remove_first_ready-idle k q = go q.chain refl
  where
    go :
        {h : ℤ}
        → Chain k.table h []
        → k.head ≡ h
        → scheduler_remove_first_ready k ≡ ok (idle_thread, k)
    go stop e = rw e refl
