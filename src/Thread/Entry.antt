-- ===== src/Thread/Entry.antt =====
-- Entries of the thread table, and the queues that are linked through them.
use osm_re_exam.Prelude.{
  ℕ, ◌<◌, ◌≡◌, refl, ◌≢◌, sym, ap, ◌∙◌, List, [], ◌∷◌, arith, length, set, get_or-set_self,
  get_or-set_ne, length-set, inl, inr, Bool-cases, ◌==◌, ==→eq, ==→ne,
}
use osm_re_exam.Prelude.Int.{ℤ, pos, minus_one}
use osm_re_exam.Prelude.Result.{ok, read-ok, write-ok}
use osm_re_exam.Thread.{ThreadState, thread_ready, Thread, Threads, max_threads, set_state}
use osm_re_exam.Thread.Chain.{blank, entry, Distinct, Chain, link, last_of}

-- The ready list of `k` holds the threads `ts`, in this order.
pub record Queue (k : Threads) (ts : List ℕ) : Type 0 where
  pub chain : Chain k.table k.head ts
  pub tail : k.tail ≡ last_of ts
  pub distinct : Distinct ts
  pub size : length k.table ≡ max_threads

-- All threads of the list are in state THREAD_READY.
abbrev pub AllReady : List Thread → List ℕ → Type 0
AllReady table [] = Unit
AllReady table (t ∷ ts) = ((entry table t).state ≡ thread_ready) × AllReady table ts

-- Two tables with the same states and sleeps, which may differ in links.
pub record Relinked (table table' : List Thread) : Type 0 where
  pub size : length table' ≡ length table
  pub rest : (i : ℕ) → (entry table' i).state ≡ (entry table i).state
  pub sleeps : (i : ℕ) → (entry table' i).sleeps_on ≡ (entry table i).sleeps_on

-- What `set` does to a field.
pub entry-set_self :
    (table : List Thread) (i : ℕ) (e : Thread) → i < length table → entry (set table i e) i ≡ e
entry-set_self table i e h = get_or-set_self table i e blank h

pub entry-set_ne :
    (table : List Thread) (i j : ℕ) (e : Thread) → i ≢ j → entry (set table i e) j ≡ entry table j
entry-set_ne table i j e ne = get_or-set_ne table i j e blank ne

-- A field that the new entry shares with the old one is as before everywhere.
pub entry-set_field :
    {A : Type 0} (field : Thread → A) (table : List Thread) (i j : ℕ) (e : Thread)
    → i < length table
    → field e ≡ field (entry table i)
    → field (entry (set table i e) j) ≡ field (entry table j)
entry-set_field field table i j e h same = elim (Bool-cases (j == i)) [
  | inl here ↦ let q : j ≡ i = ==→eq j i here in rw (q, entry-set_self table i e h) same
  | inr there ↦ ap field (entry-set_ne table i j e (λ q. ==→ne j i there (sym q)))
]

pub set_state-ok :
    (table : List Thread) (t : ℕ) (state : ThreadState)
    → t < length table
    → set_state table t state ≡ ok (set table t (record (entry table t) { state = state }))
unfolding set_state
set_state-ok table t state h = rw (read-ok table t blank h, write-ok table t _ h)

-- The table after thread `t` is put behind `last`.
abbrev pub linked : List Thread → ℕ → ℕ → List Thread
linked table last t =
    let before = set table last (record (entry table last) { next = pos t }) in
    set before t (record (entry before t) { next = minus_one })

abbrev pub alone : List Thread → ℕ → List Thread
alone table t = set table t (record (entry table t) { next = minus_one })

pub linked-Relinked :
    (table : List Thread) (last t : ℕ)
    → last < length table
    → t < length table
    → Relinked table (linked table last t)
linked-Relinked table last t hl ht = record {
  size = length-set before t _ ∙ length-set table last _;
  rest = λ i.
      entry-set_field (λ e. e.state) before t i _ (omega (arith, length-set table last new)) refl
      ∙ entry-set_field (λ e. e.state) table last i new hl refl;
  sleeps = λ i.
      entry-set_field (λ e. e.sleeps_on) before t i _ (omega (arith, length-set table last new))
        refl
      ∙ entry-set_field (λ e. e.sleeps_on) table last i new hl refl;
}
  where
    new : Thread
    new = record (entry table last) { next = pos t }

    before : List Thread
    before = set table last new

pub alone-Relinked :
    (table : List Thread) (t : ℕ) → t < length table → Relinked table (alone table t)
alone-Relinked table t h = record {
  size = length-set table t _;
  rest = λ i. entry-set_field (λ e. e.state) table t i _ h refl;
  sleeps = λ i. entry-set_field (λ e. e.sleeps_on) table t i _ h refl;
}

-- The last thread of a chain that is not empty has an entry.
pub last-inside :
    {table : List Thread} {h : ℤ} (i : ℕ) (ts : List ℕ) (l : ℕ)
    → Chain table h (i ∷ ts)
    → last_of (i ∷ ts) ≡ pos l
    → l < length table
last-inside i [] l (link p q c) e = let same : i ≡ l = cc in omega arith
last-inside i (u ∷ ts) l (link p q c) e = last-inside u ts l c e

pub last_pos : (i : ℕ) (ts : List ℕ) → (l : ℕ) × (last_of (i ∷ ts) ≡ pos l)
last_pos i [] = (i, refl)
last_pos i (u ∷ ts) = last_pos u ts
