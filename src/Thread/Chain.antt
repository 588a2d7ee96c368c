-- ===== src/Thread/Chain.antt =====
-- Lists of threads that are linked through the table.
use osm_re_exam.Prelude.{ℕ, ◌<◌, ◌≡◌, refl, ◌≢◌, sym, List, [], ◌∷◌, ◌++◌, arith, length, get_or}
use osm_re_exam.Prelude.Int.{ℤ, pos, negsuc, minus_one}
use osm_re_exam.Thread.{thread_free, Thread}

abbrev pub blank : Thread
blank = record {
  context = record { pc = 0; sp = 0; ra = 0; a0 = 0; status = 0 };
  user_context = 0;
  state = thread_free;
  sleeps_on = 0;
  pagetable = 0;
  process_id = minus_one;
  next = minus_one;
}

abbrev pub entry : List Thread → ℕ → Thread
entry table i = get_or table i blank

abbrev pub Absent : ℕ → List ℕ → Type 0
Absent i [] = Unit
Absent i (t ∷ ts) = (i ≢ t) × Absent i ts

abbrev pub Distinct : List ℕ → Type 0
Distinct [] = Unit
Distinct (t ∷ ts) = Absent t ts × Distinct ts

-- The links from a first thread on lead through the threads of the list, and end there.
pub data Chain (table : List Thread) : ℤ → List ℕ → Type 0 where
  stop : {n : ℕ} → Chain table (negsuc n) []
  link :
      {i : ℕ} {ts : List ℕ}
      → 0 < i
      → i < length table
      → Chain table (entry table i).next ts
      → Chain table (pos i) (i ∷ ts)

abbrev pub last_of : List ℕ → ℤ
last_of [] = minus_one
last_of (t ∷ []) = pos t
last_of (t ∷ u ∷ ts) = last_of (u ∷ ts)

pub last_of-ne : (t : ℕ) (ts : List ℕ) → Absent t ts → last_of ts ≢ pos t
last_of-ne t [] h = λ e. cc
last_of-ne t (u ∷ []) h = λ e. let q : t ≡ u = cc in h.0 q
last_of-ne t (u ∷ v ∷ ts) h = last_of-ne t (v ∷ ts) h.1

pub last_of-append : (t : ℕ) (ts : List ℕ) → last_of (ts ++ (t ∷ [])) ≡ pos t
last_of-append t [] = refl
last_of-append t (u ∷ []) = refl
last_of-append t (u ∷ v ∷ ts) = last_of-append t (v ∷ ts)

pub Absent-append : (i t : ℕ) (ts : List ℕ) → Absent i ts → i ≢ t → Absent i (ts ++ (t ∷ []))
Absent-append i t [] h ne = (ne, tt)
Absent-append i t (u ∷ ts) h ne = (h.0, Absent-append i t ts h.1 ne)

pub Distinct-append : (t : ℕ) (ts : List ℕ) → Distinct ts → Absent t ts → Distinct (ts ++ (t ∷ []))
Distinct-append t [] d h = (tt, tt)
Distinct-append t (u ∷ ts) d h =
    (Absent-append u t ts d.0 (λ e. h.0 (sym e)), Distinct-append t ts d.1 h.1)

-- A table in which the threads of the list have the same successors has the same list.
pub Chain-same :
    (table table' : List Thread) {h : ℤ} {ts : List ℕ}
    → length table' ≡ length table
    → Chain table h ts
    → ((i : ℕ) → ¬ Absent i ts → (entry table' i).next ≡ (entry table i).next)
    → Chain table' h ts
Chain-same table table' size stop same = stop
Chain-same table table' size (link {i = i} {ts = ts} p l c) same =
    let next : (entry table' i).next ≡ (entry table i).next = same i (λ a. a.0 refl) in
    link p (omega arith) (rw next (Chain-same table table' size c (λ j h. same j (λ a. h a.1))))

-- A thread behind the last one, when only these two have new successors.
pub Chain-append :
    (table table' : List Thread) {h : ℤ} (t i : ℕ) (ts : List ℕ)
    → length table' ≡ length table
    → Chain table h (i ∷ ts)
    → 0 < t
    → t < length table
    → (entry table' t).next ≡ minus_one
    → ((j : ℕ) → j ≢ t → pos j ≡ last_of (i ∷ ts) → (entry table' j).next ≡ pos t)
    → ((j : ℕ) → j ≢ t → pos j ≢ last_of (i ∷ ts) → (entry table' j).next ≡ (entry table j).next)
    → Distinct (i ∷ ts)
    → Absent t (i ∷ ts)
    → Chain table' h ((i ∷ ts) ++ (t ∷ []))
Chain-append table table' t i [] size (link p l c) pt lt at_t at_last others d a =
    link p (omega arith)
      (rw (at_last i (λ e. a.0 (sym e)) refl) (link pt (omega arith) (rw at_t stop)))
Chain-append table table' t i (u ∷ ts) size (link p l c) pt lt at_t at_last others d a =
    let here : pos i ≢ last_of (u ∷ ts) = λ e. last_of-ne i (u ∷ ts) d.0 (sym e) in
    link p (omega arith) (
      rw (others i (λ e. a.0 (sym e)) here)
        (Chain-append table table' t u ts size c pt lt at_t at_last others d.1 a.1))
