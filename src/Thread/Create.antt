-- ===== src/Thread/Create.antt =====
-- `thread_create` takes the first free entry from `next_tid` on, in a circle.
use osm_re_exam.Prelude.{
  ℕ, zero, suc, ◌+◌, ◌-◌, ◌%◌, ◌<◌, ◌≤◌, ◌≡◌, refl, ◌≢◌, ◌⊎◌, sym, ap, ◌∙◌, List, true, false,
  Option, none, some, arith, length, set, length-set, inl, inr, Bool-cases, ◌==◌, ==→eq, ==→ne,
}
use osm_re_exam.Prelude.Int.{ℤ, pos, minus_one}
use osm_re_exam.Prelude.Result.{
  ok, ◌>>=◌, Yields, yields, Yields-bind, Yields-mono, read, write, read-ok, write-ok,
}
use osm_re_exam.Thread.{
  Thread, Threads, Image, max_threads, idle_thread, is_free, thread_nonready, set_state, find_free,
  new_context, thread_create,
}
use osm_re_exam.Thread.Chain.{blank, entry}
use osm_re_exam.Thread.Entry.{entry-set_self, entry-set_ne, set_state-ok}

-- The thread that round `j` looks at.
abbrev pub candidate : ℕ → ℕ → ℕ
candidate next_tid j = (j + next_tid) % max_threads

-- A thread that is not to be had: the idle thread, or one in use.
abbrev pub Busy : List Thread → ℕ → Type 0
Busy table t = (t ≡ idle_thread) ⊎ (is_free (entry table t).state ≡ false)

-- What `n` rounds from round `i` on find.
data Pick (table : List Thread) (next_tid i n : ℕ) : Option ℕ → Type 0 where
  nothing :
      ((j : ℕ) → i ≤ j → j < i + n → Busy table (candidate next_tid j))
      → Pick table next_tid i n none
  picked :
      (j : ℕ)
      → i ≤ j
      → j < i + n
      → candidate next_tid j ≢ idle_thread
      → is_free (entry table (candidate next_tid j)).state ≡ true
      → ((q : ℕ) → i ≤ q → q < j → Busy table (candidate next_tid q))
      → Pick table next_tid i n (some (candidate next_tid j))

Pick-suc :
    (table : List Thread) (next_tid i n : ℕ) {o : Option ℕ}
    → Busy table (candidate next_tid i)
    → Pick table next_tid (i + 1) n o
    → Pick table next_tid i (suc n) o
Pick-suc table next_tid i n busy p = more p
  where
    first_or :
        (q : ℕ)
        → i ≤ q
        → (i + 1 ≤ q → Busy table (candidate next_tid q))
        → Busy table (candidate next_tid q)
    first_or q low later = elim (Bool-cases (q == i)) [
      | inl here ↦ let e : q ≡ i = ==→eq q i here in rw e busy
      | inr there ↦ later (omega (arith, ==→ne q i there))
    ]

    more : {o : Option ℕ} → Pick table next_tid (i + 1) n o → Pick table next_tid i (suc n) o
    more (nothing all) = nothing (λ j low high. first_or j low (λ h. all j h (omega arith)))
    more (picked j low high ne free before) =
        picked j (omega arith) (omega arith) ne free (λ q l h. first_or q l (λ h'. before q h' h))

find_free-Pick :
    (n : ℕ) (table : List Thread) (next_tid i : ℕ)
    → length table ≡ max_threads
    → Yields (Pick table next_tid i n) (find_free n table next_tid i)
unfolding find_free
find_free-Pick zero table next_tid i size = yields (nothing (λ j low high. absurd (omega arith)))
find_free-Pick (suc n) table next_tid i size =
    let later : Busy table (candidate next_tid i)
        → Yields (Pick table next_tid i (suc n)) (find_free n table next_tid (i + 1)) =
      λ busy.
        Yields-mono (find_free-Pick n table next_tid (i + 1) size)
          (λ o p. Pick-suc table next_tid i n busy p) in
    elim (Bool-cases (candidate next_tid i == idle_thread)) [
      | inl idle ↦ rw idle (later (inl (==→eq _ 0 idle)))
      | inr proper ↦
          rw (proper, read-ok table (candidate next_tid i) blank (omega arith))
            (elim (Bool-cases (is_free (entry table (candidate next_tid i)).state)) [
              | inl free ↦ rw free (
                  yields (
                    picked i (omega arith) (omega arith) (==→ne _ 0 proper) free
                      (λ q l h. absurd (omega arith))))
              | inr used ↦ rw used (later (inr used))
            ])
    ]

-- The entry of a new thread, and what becomes of the rest.
pub record Fresh (image : Image) (status : ℕ) (k : Threads) (func arg tid : ℕ) (k' : Threads)
    : Type 0 where
  pub context : (entry k'.table tid).context ≡ new_context image tid func arg status
  pub state : (entry k'.table tid).state ≡ thread_nonready
  pub no_pid : (entry k'.table tid).process_id ≡ minus_one
  pub others : (i : ℕ) → i ≢ tid → entry k'.table i ≡ entry k.table i
  pub next_tid : k'.next_tid ≡ (tid + 1) % max_threads

-- The two outcomes of `thread_create`.
pub data Created (image : Image) (status : ℕ) (k : Threads) (func arg : ℕ)
    : ℤ × Threads → Type 0 where
  full :
      ((t : ℕ) → 0 < t → t < max_threads → is_free (entry k.table t).state ≡ false)
      → Created image status k func arg (minus_one, k)
  created :
      {k' : Threads} (j : ℕ)
      → j < max_threads
      → candidate k.next_tid j ≢ idle_thread
      → is_free (entry k.table (candidate k.next_tid j)).state ≡ true
      → ((q : ℕ) → q < j → Busy k.table (candidate k.next_tid q))
      → Fresh image status k func arg (candidate k.next_tid j) k'
      → Created image status k func arg (pos (candidate k.next_tid j), k')

-- Every thread but the idle one is the candidate of some round.
all_used :
    (table : List Thread) (next_tid : ℕ)
    → ((j : ℕ) → 0 ≤ j → j < 0 + max_threads → Busy table (candidate next_tid j))
    → (t : ℕ) → 0 < t
    → t < max_threads
    → is_free (entry table t).state ≡ false
all_used table next_tid busy t pt lt =
    let j = (t + max_threads - next_tid % max_threads) % max_threads in
    let e : candidate next_tid j ≡ t = omega arith in
    elim (busy j (omega arith) (omega arith)) [
      | inl idle ↦ absurd (omega arith)
      | inr used ↦ sym (ap (λ x. is_free (entry table x).state) e) ∙ used
    ]

module _ (image : Image) (status : ℕ) (k : Threads) (func arg tid : ℕ) where
  abbrev claimed : List Thread
  claimed = set k.table tid (record (entry k.table tid) { state = thread_nonready })

  still : tid < length k.table → tid < length claimed
  still h =
      omega (arith, length-set k.table tid (record (entry k.table tid) { state = thread_nonready }))

  abbrev fresh : Thread
  fresh = record (entry claimed tid) {
    context = new_context image tid func arg status;
    user_context = 0;
    pagetable = 0;
    sleeps_on = 0;
    process_id = minus_one;
    next = minus_one;
  }

  abbrev fresh_threads : Threads
  fresh_threads = record k { table = set claimed tid fresh; next_tid = (tid + 1) % max_threads }

  Fresh-Fresh : tid < length k.table → Fresh image status k func arg tid fresh_threads
  Fresh-Fresh h = record {
    context = ap (λ e. e.context) at;
    state =
        ap (λ e. e.state) at
        ∙ ap (λ e. e.state)
            (entry-set_self k.table tid (record (entry k.table tid) { state = thread_nonready }) h);
    no_pid = ap (λ e. e.process_id) at;
    others = λ i ne.
        entry-set_ne claimed tid i fresh (λ e. ne (sym e))
        ∙ entry-set_ne k.table tid i (record (entry k.table tid) { state = thread_nonready })
            (λ e. ne (sym e));
    next_tid = refl;
  }
    where
      at : entry (set claimed tid fresh) tid ≡ fresh
      at = entry-set_self claimed tid fresh (still h)

-- On a table of CONFIG_MAX_THREADS entries, `thread_create` succeeds. If some entry but the idle
-- thread's is free, it takes the first one from `next_tid` on in a circle: that entry is not ready yet,
-- has no process, and its context starts `func` on `arg`; the other entries stay and the next search
-- starts behind it. If none is free, it returns -1 and changes nothing.
thread_create-Created :
    (image : Image) (status : ℕ) (k : Threads) (func arg : ℕ)
    → length k.table ≡ max_threads
    → Yields (Created image status k func arg) (thread_create image status k func arg)
unfolding thread_create
thread_create-Created image status k func arg size =
    Yields-bind _ (find_free-Pick max_threads k.table k.next_tid 0 size) go
  where
    go :
        (o : Option ℕ)
        → Pick k.table k.next_tid 0 max_threads o
        → Yields (Created image status k func arg) (elim o [
          | none ↦ ok (minus_one, k)
          | some tid ↦ (do
            claimed ← set_state k.table tid thread_nonready
            e ← read claimed tid
            table ← write claimed tid (record e {
              context = new_context image tid func arg status;
              user_context = 0;
              pagetable = 0;
              sleeps_on = 0;
              process_id = minus_one;
              next = minus_one;
            })
            ok (pos tid, record k { table = table; next_tid = (tid + 1) % max_threads }))
        ])
    go o (nothing all) = yields (full (all_used k.table k.next_tid all))
    go o (picked j low high ne free before) =
        let tid = candidate k.next_tid j in
        let h : tid < length k.table = omega arith in
        rw
          (
            set_state-ok k.table tid thread_nonready h,
            read-ok (claimed image status k func arg tid) tid blank
                (still image status k func arg tid h),
            write-ok (claimed image status k func arg tid) tid (fresh image status k func arg tid)
                (still image status k func arg tid h),
          )
          (yields (
            created j (omega arith) ne free (λ q l. before q (omega arith) l)
              (Fresh-Fresh image status k func arg tid h)))
