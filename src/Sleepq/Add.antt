-- ===== src/Sleepq/Add.antt =====
-- `sleepq_add` appends the thread to the list of its resource.
use osm_re_exam.Prelude.{
  ℕ, zero, suc, ◌%◌, ◌^◌, ◌<◌, ◌≡◌, refl, ◌≢◌, sym, ap, ◌∙◌, List, [], ◌∷◌, ◌++◌, arith, length,
  get_or, set, length-set, get_or-set_self, get_or-set_ne, inl, inr, Bool-cases, ◌==◌, ==→eq, ==→ne,
  ne→==, lt→ltb, if◌then◌else◌, true, false,
}
use osm_re_exam.Prelude.Int.{ℤ, pos, minus_one, leb_ℤ}
use osm_re_exam.Prelude.Result.{Result, ok, ◌>>=◌, Yields, yields, read, write, read-ok, write-ok}
use osm_re_exam.Thread.{Thread, Threads, max_threads}
use osm_re_exam.Thread.Chain.{
  blank, entry, Absent, Distinct, Chain, stop, link, last_of, last_of-ne, Chain-same, Chain-append,
}
use osm_re_exam.Thread.Entry.{entry-set_self, entry-set_ne, entry-set_field, last-inside, last_pos}
use osm_re_exam.Prelude.{replicate, length-replicate}
use osm_re_exam.Sleepq.{sleepq_init, Sleepq, hashtable_size, hash, chain_end, sleepq_add}
use osm_re_exam.Sleepq.Pigeons.{Distinct-length, Chain-inside, chain_end-last}
use osm_re_exam.Sleepq.Buckets.{Asleep, joined, outside_ne, Apart-joined}

-- An entry with another link and nothing else changed.
abbrev pub Relinked : Thread → Thread → Type 0
Relinked e e' = e' ≡ record e { next = e'.next }

-- Thread `t` sleeps on `resource` at the end of its list; otherwise only links have changed.
pub record Joins (q : Sleepq) (bucket : ℕ → List ℕ) (resource t : ℕ) (q' : Sleepq) : Type 0 where
  pub asleep : Asleep q' (joined bucket (hash resource) t)
  pub waits :
      Relinked
        (record (entry q.threads.table t) { sleeps_on = resource % 2 ^ 32 })
        (entry q'.threads.table t)
  pub others : (i : ℕ) → i ≢ t → Relinked (entry q.threads.table i) (entry q'.threads.table i)
  pub scheduler : q'.threads ≡ record (q.threads) { table = q'.threads.table }
  pub states : (i : ℕ) → (entry q'.threads.table i).state ≡ (entry q.threads.table i).state

relinked : (e e' : Thread) (n : ℤ) → e' ≡ record e { next = n } → Relinked e e'
relinked e e' n q = q ∙ ap (λ (m : ℤ). record e { next = m }) (sym (ap (λ (x : Thread). x.next) q))

module _ (q : Sleepq) (bucket : ℕ → List ℕ) (resource t : ℕ) (a : Asleep q bucket) (pt : 0 < t)
    (lt : t < max_threads) (new : (h : ℕ) → Absent t (bucket h)) where
  abbrev mine : Thread
  mine = record (entry q.threads.table t) { next = minus_one; sleeps_on = resource % 2 ^ 32 }

  abbrev marked : List Thread
  marked = set q.threads.table t mine

  inside : t < length q.threads.table
  inside = omega (arith, a.size)

  size : length marked ≡ max_threads
  size = length-set q.threads.table t mine ∙ a.size

  slot_inside : hash resource < length q.hashtable
  slot_inside = omega (arith, a.slots)

  marked_ne : (i : ℕ) → i ≢ t → entry marked i ≡ entry q.threads.table i
  marked_ne i ne = entry-set_ne q.threads.table t i mine (λ e. ne (sym e))

  -- Into an empty list.
  abbrev alone : Sleepq
  alone = record q {
    hashtable = set q.hashtable (hash resource) (pos t);
    threads = record (q.threads) { table = marked };
  }

  alone-Joins : bucket (hash resource) ≡ [] → Joins q bucket resource t alone
  alone-Joins empty = record {
    asleep = record {
      size = size;
      slots = length-set q.hashtable (hash resource) (pos t) ∙ a.slots;
      chains = chains;
      apart = Apart-joined bucket (hash resource) t a.apart new;
    };
    waits =
        relinked (record (entry q.threads.table t) { sleeps_on = resource % 2 ^ 32 }) _ minus_one
          (entry-set_self q.threads.table t mine inside);
    others = λ i ne.
        relinked (entry q.threads.table i) _ (entry q.threads.table i).next (marked_ne i ne);
    scheduler = refl;
    states = λ i. entry-set_field (λ e. e.state) q.threads.table t i mine inside refl;
  }
    where
      chains :
          (h : ℕ)
          → h < hashtable_size
          → Chain marked
              (get_or (set q.hashtable (hash resource) (pos t)) h minus_one)
              (joined bucket (hash resource) t h)
      chains h l = elim (Bool-cases (h == hash resource)) [
        | inl here ↦
            let e : h ≡ hash resource = ==→eq h (hash resource) here in
            rw
              (
                here,
                e,
                empty,
                get_or-set_self q.hashtable (hash resource) (pos t) minus_one slot_inside,
              )
              (link pt (omega (arith, size))
                (rw (entry-set_self q.threads.table t mine inside) stop))
        | inr there ↦
            rw
              (
                there,
                get_or-set_ne q.hashtable (hash resource) h (pos t) minus_one
                    (λ e. ==→ne h (hash resource) there (sym e)),
              )
              (Chain-same q.threads.table marked (length-set q.threads.table t mine) (a.chains h l)
                (λ i within.
                  ap (λ e. e.next) (marked_ne i (outside_ne i t (bucket h) (new h) within))))
      ]

  -- Behind the last thread `l` of a list.
  module _ (i : ℕ) (us : List ℕ) (l : ℕ) (list : bucket (hash resource) ≡ i ∷ us)
      (end : last_of (i ∷ us) ≡ pos l) where
    abbrev last : Thread
    last = record (entry marked l) { next = pos t }

    abbrev behind : Sleepq
    behind = record q { threads = record (q.threads) { table = set marked l last } }

    here : Chain q.threads.table (get_or q.hashtable (hash resource) minus_one) (i ∷ us)
    here = rw list at (a.chains (hash resource) (omega arith))

    absent : Absent t (i ∷ us)
    absent = rw list at (new (hash resource))

    distinct : Distinct (i ∷ us)
    distinct = rw list at (a.apart.distinct (hash resource))

    last_within : l < length marked
    last_within = omega (arith, last-inside i us l here end, a.size, size)

    last_ne : t ≢ l
    last_ne e = last_of-ne t (i ∷ us) absent (end ∙ ap pos (sym e))

    behind_ne : (j : ℕ) → j ≢ t → j ≢ l → entry (set marked l last) j ≡ entry q.threads.table j
    behind_ne j ne ne' = entry-set_ne marked l j last (λ e. ne' (sym e)) ∙ marked_ne j ne

    at_t : entry (set marked l last) t ≡ mine
    at_t =
        entry-set_ne marked l t last (λ e. last_ne (sym e))
        ∙ entry-set_self q.threads.table t mine inside

    behind_size : length (set marked l last) ≡ length q.threads.table
    behind_size = length-set marked l last ∙ length-set q.threads.table t mine

    here-Chain :
        Chain
          (set marked l last)
          (get_or q.hashtable (hash resource) minus_one)
          ((i ∷ us) ++ (t ∷ []))
    here-Chain =
        Chain-append q.threads.table _ t i us behind_size here pt inside (ap (λ e. e.next) at_t)
          at_last others distinct absent
      where
        at_last :
            (j : ℕ) → j ≢ t → pos j ≡ last_of (i ∷ us) → (entry (set marked l last) j).next ≡ pos t
        at_last j ne e =
            let same : j ≡ l = cc in
            rw same (ap (λ x. x.next) (entry-set_self marked l last last_within))

        others :
            (j : ℕ)
            → j ≢ t
            → pos j ≢ last_of (i ∷ us)
            → (entry (set marked l last) j).next ≡ (entry q.threads.table j).next
        others j ne ne' = ap (λ x. x.next) (behind_ne j ne (λ e. ne' (ap pos e ∙ sym end)))

    at_l : entry (set marked l last) l ≡ record (entry q.threads.table l) { next = pos t }
    at_l =
        entry-set_self marked l last last_within
        ∙ ap (λ (e : Thread). record e { next = pos t }) (marked_ne l (λ e. last_ne (sym e)))

    others_relinked :
        (j : ℕ) → j ≢ t → Relinked (entry q.threads.table j) (entry (set marked l last) j)
    others_relinked j ne = elim (Bool-cases (j == l)) [
      | inl same ↦
          let e = ==→eq j l same in rw e (relinked (entry q.threads.table l) _ (pos t) at_l)
      | inr other ↦
          relinked (entry q.threads.table j) _ (entry q.threads.table j).next
            (behind_ne j ne (==→ne j l other))
    ]

    behind-Joins : Joins q bucket resource t behind
    behind-Joins = record {
      asleep = record {
        size = behind_size ∙ a.size;
        slots = a.slots;
        chains = chains;
        apart = Apart-joined bucket (hash resource) t a.apart new;
      };
      waits =
          relinked (record (entry q.threads.table t) { sleeps_on = resource % 2 ^ 32 }) _ minus_one
            at_t;
      others = others_relinked;
      scheduler = refl;
      states = λ j.
          entry-set_field (λ e. e.state) marked l j last last_within refl
          ∙ entry-set_field (λ e. e.state) q.threads.table t j mine inside refl;
    }
      where
        away : (h : ℕ) → h ≢ hash resource → (j : ℕ) → ¬ Absent j (bucket h) → j ≢ l
        away h ne j within e =
            let elsewhere : Absent j (i ∷ us) =
              rw list at (a.apart.apart h (hash resource) j ne within) in
            last_of-ne j (i ∷ us) elsewhere (end ∙ ap pos (sym e))

        chains :
            (h : ℕ)
            → h < hashtable_size
            → Chain
                (set marked l last)
                (get_or q.hashtable h minus_one)
                (joined bucket (hash resource) t h)
        chains h small = elim (Bool-cases (h == hash resource)) [
          | inl same ↦
              let e : h ≡ hash resource = ==→eq h (hash resource) same in
              rw (same, e, list) here-Chain
          | inr other ↦ rw other (
              Chain-same q.threads.table _ behind_size (a.chains h small) λ j within.
                ap (λ x. x.next)
                  (behind_ne j (outside_ne j t (bucket h) (new h) within)
                    (away h (==→ne h (hash resource) other) j within)))
        ]

    -- The walk of the code finds `l`.
    walk : chain_end max_threads marked (get_or q.hashtable (hash resource) minus_one) ≡ ok l
    walk =
        chain_end-last max_threads i us l
          (Chain-same q.threads.table marked (length-set q.threads.table t mine) here
            (λ j within. ap (λ e. e.next) (marked_ne j (outside_ne j t (i ∷ us) absent within))))
          (Distinct-length max_threads (i ∷ us) distinct
            (λ j within. omega (arith, Chain-inside here j within, a.size)))
          end

  -- What `sleepq_add` does once the thread is marked.
  abbrev enqueue : ℤ → Result Sleepq
  enqueue first =
      if leb_ℤ first (pos 0)
      then (do
        hashtable ← write q.hashtable (hash resource) (pos t)
        ok (record q { hashtable = hashtable; threads = record (q.threads) { table = marked } }))
      else (do
        prev ← chain_end max_threads marked first
        last ← read marked prev
        table' ← write marked prev (record last { next = pos t })
        ok (record q { threads = record (q.threads) { table = table' } }))

  enqueue-Joins :
      {h : ℤ} (ts : List ℕ)
      → Chain q.threads.table h ts
      → get_or q.hashtable (hash resource) minus_one ≡ h
      → bucket (hash resource) ≡ ts
      → Yields (Joins q bucket resource t) (enqueue (get_or q.hashtable (hash resource) minus_one))
  enqueue-Joins ts stop e list =
      rw (e, write-ok q.hashtable (hash resource) (pos t) slot_inside) (yields (alone-Joins list))
  enqueue-Joins ts (link {i = i} {ts = us} p w c) e list =
      let (l, end) = last_pos i us in
      let more : leb_ℤ (get_or q.hashtable (hash resource) minus_one) (pos 0) ≡ false =
        rw (e, lt→ltb 0 i p) refl in
      rw
        (
          more,
          walk i us l list end,
          read-ok marked l blank (last_within i us l list end),
          write-ok marked l (last i us l list end) (last_within i us l list end),
        )
        (yields (behind-Joins i us l list end))

-- On a well-formed hash table, for a thread that is in no list and is not the idle thread, and with
-- interrupts off, `sleepq_add` succeeds: the thread is at the end of the list of the resource's hash
-- and sleeps on the resource, the other lists are as before, no thread is in two lists, and besides
-- what that thread sleeps on, nothing but links has changed in the thread table, and nothing in the
-- other variables of the scheduler.
pub sleepq_add-Joins :
    (q : Sleepq) (bucket : ℕ → List ℕ) (resource t : ℕ)
    → Asleep q bucket
    → 0 < t
    → t < max_threads
    → ((h : ℕ) → Absent t (bucket h))
    → Yields (Joins q bucket resource t) (sleepq_add true q resource t)
unfolding sleepq_add
sleepq_add-Joins q bucket resource t a pt lt new =
    rw
      (
        read-ok q.threads.table t blank (inside q bucket resource t a pt lt new),
        write-ok q.threads.table t (mine q bucket resource t a pt lt new)
            (inside q bucket resource t a pt lt new),
        ne→== t 0 (omega arith),
        read-ok q.hashtable (hash resource) minus_one (slot_inside q bucket resource t a pt lt new),
      )
      (enqueue-Joins q bucket resource t a pt lt new (bucket (hash resource))
        (a.chains (hash resource) (omega arith)) refl refl)

get_or-replicate : (n h : ℕ) (v : ℤ) → get_or (replicate n v) h v ≡ v
get_or-replicate zero h v = refl
get_or-replicate (suc n) zero v = refl
get_or-replicate (suc n) (suc h) v = get_or-replicate n h v

-- With a thread table of CONFIG_MAX_THREADS entries, the table of `sleepq_init` is well-formed, and
-- all its lists are empty.
pub sleepq_init-Asleep :
    (threads : Threads)
    → length threads.table ≡ max_threads
    → Asleep (sleepq_init threads) (λ h. [])
unfolding sleepq_init
sleepq_init-Asleep threads size = record {
  size = size;
  slots = length-replicate hashtable_size minus_one;
  chains = λ h small. rw (get_or-replicate hashtable_size h minus_one) stop;
  apart = record { distinct = λ h. tt; apart = λ h h' i ne there. tt };
}
