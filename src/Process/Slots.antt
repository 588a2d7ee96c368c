-- ===== src/Process/Slots.antt =====
-- `alloc_process_id` takes the first free slot of the process table.
use osm_re_exam.Prelude.{
  ℕ, zero, suc, ◌+◌, ◌<◌, ◌≡◌, List, [], ◌∷◌, true, false, inl, inr, arith, length, get_or, set,
  Bool-cases,
}
use osm_re_exam.Prelude.Int.{pos, minus_one}
use osm_re_exam.Process.{process_free, process_running, Pcb, is_free, alloc_from, alloc_process_id}

abbrev pub blank : Pcb
blank = record {
  executable = [];
  state = process_free;
  retval = pos 0;
  parent = minus_one;
  heap_end = 0;
  files = [];
}

abbrev pub slot : List Pcb → ℕ → Pcb
slot table i = get_or table i blank

-- Slot `i` is free, and no slot before it.
pub record FirstFree (table : List Pcb) (i : ℕ) : Type 0 where
  pub within : i < length table
  pub free : is_free (slot table i).state ≡ true
  pub first : (q : ℕ) → q < i → is_free (slot table q).state ≡ false

-- The two answers of the search, with `base` added to the number of the slot.
pub data Alloc (base : ℕ) (table : List Pcb) : ℕ × List Pcb → Type 0 where
  full :
      {j : ℕ}
      → j ≡ base + length table
      → ((q : ℕ) → q < length table → is_free (slot table q).state ≡ false)
      → Alloc base table (j, table)
  taken :
      {j : ℕ} (i : ℕ)
      → j ≡ base + i
      → FirstFree table i
      → Alloc base table (j, set table i (record (slot table i) { state = process_running }))

Alloc-step :
    (base : ℕ) (p : Pcb) (ps : List Pcb) {r : ℕ × List Pcb}
    → is_free p.state ≡ false
    → Alloc (base + 1) ps r
    → Alloc base (p ∷ ps) (r.0, p ∷ r.1)
Alloc-step base p ps busy (full e none_free) = full (omega arith) all
  where
    all : (q : ℕ) → q < length (p ∷ ps) → is_free (slot (p ∷ ps) q).state ≡ false
    all zero h = busy
    all (suc q) h = none_free q (omega arith)
Alloc-step base p ps busy (taken i e f) =
    taken (suc i) (omega arith)
      (record { within = omega (arith, f.within); free = f.free; first = before })
  where
    before : (q : ℕ) → q < suc i → is_free (slot (p ∷ ps) q).state ≡ false
    before zero h = busy
    before (suc q) h = f.first q (omega arith)

alloc_from-Alloc : (base : ℕ) (table : List Pcb) → Alloc base table (alloc_from base table)
unfolding alloc_from
alloc_from-Alloc base [] = full (omega arith) (λ q h. absurd (omega arith))
alloc_from-Alloc base (p ∷ ps) = elim (Bool-cases (is_free p.state)) [
  | inl free ↦ rw free (
      taken 0 (omega arith)
        (record { within = omega arith; free = free; first = λ q h. absurd (omega arith) }))
  | inr busy ↦ rw busy (Alloc-step base p ps busy (alloc_from-Alloc (base + 1) ps))
]

-- `alloc_process_id` returns the number of the first free slot and marks that slot as running,
-- changing nothing else; if no slot is free it returns the size of the table and changes nothing.
alloc_process_id-Alloc : (table : List Pcb) → Alloc 0 table (alloc_process_id table)
unfolding alloc_process_id
alloc_process_id-Alloc table = alloc_from-Alloc 0 table
