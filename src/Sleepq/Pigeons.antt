-- ===== src/Sleepq/Pigeons.antt =====
-- A list of different threads is no longer than the table, so the walks through it end.
use osm_re_exam.Prelude.{
  ℕ, zero, suc, ◌<◌, ◌≤◌, ◌≡◌, refl, sym, ap, List, [], ◌∷◌, arith, length, inl, inr, Bool-cases,
  ◌==◌, ==→eq, ==→ne, if◌then◌else◌,
}
use osm_re_exam.Prelude.Int.{ℤ, pos}
use osm_re_exam.Prelude.Result.{ok, read-ok}
use osm_re_exam.Prelude.{lt→ltb}
use osm_re_exam.Prelude.Int.{ltb_ℤ}
use osm_re_exam.Thread.{Thread}
use osm_re_exam.Thread.Chain.{blank, Absent, Distinct, Chain, stop, link, last_of}
use osm_re_exam.Sleepq.{chain_end}

without : ℕ → List ℕ → List ℕ
without n [] = []
without n (x ∷ xs) = if x == n then xs else x ∷ without n xs

Absent-without : (i n : ℕ) (xs : List ℕ) → Absent i xs → Absent i (without n xs)
unfolding without
Absent-without i n [] a = tt
Absent-without i n (x ∷ xs) a = elim (Bool-cases (x == n)) [
  | inl here ↦ rw here a.1
  | inr there ↦ rw there (a.0, Absent-without i n xs a.1)
]

Distinct-without : (n : ℕ) (xs : List ℕ) → Distinct xs → Distinct (without n xs)
unfolding without
Distinct-without n [] d = tt
Distinct-without n (x ∷ xs) d = elim (Bool-cases (x == n)) [
  | inl here ↦ rw here d.1
  | inr there ↦ rw there (Absent-without x n xs d.0, Distinct-without n xs d.1)
]

Absent-without_self : (n : ℕ) (xs : List ℕ) → Distinct xs → Absent n (without n xs)
unfolding without
Absent-without_self n [] d = tt
Absent-without_self n (x ∷ xs) d = elim (Bool-cases (x == n)) [
  | inl here ↦ let e : x ≡ n = ==→eq x n here in rw here (rw e at d.0)
  | inr there ↦ rw there ((λ e. ==→ne x n there (sym e)), Absent-without_self n xs d.1)
]

length-without : (n : ℕ) (xs : List ℕ) → length xs ≤ suc (length (without n xs))
unfolding without
length-without n [] = omega arith
length-without n (x ∷ xs) = elim (Bool-cases (x == n)) [
  | inl here ↦ rw here (omega arith)
  | inr there ↦ rw there (omega (arith, length-without n xs))
]

-- Different numbers below `n` are at most `n`.
pub Distinct-length :
    (n : ℕ) (xs : List ℕ) → Distinct xs → ((i : ℕ) → ¬ Absent i xs → i < n) → length xs ≤ n
Distinct-length zero [] d small = omega arith
Distinct-length zero (x ∷ xs) d small = absurd (omega (arith, small x (λ a. a.0 refl)))
Distinct-length (suc n) xs d small =
    let shorter = Distinct-length n (without n xs) (Distinct-without n xs d) below in
    omega (arith, length-without n xs)
  where
    below : (i : ℕ) → ¬ Absent i (without n xs) → i < n
    below i there = elim (Bool-cases (i == n)) [
      | inl same ↦
          let e : i ≡ n = ==→eq i n same in absurd (there (rw e (Absent-without_self n xs d)))
      | inr other ↦ omega (arith, ==→ne i n other, small i (λ a. there (Absent-without i n xs a)))
    ]

-- The threads of a chain have entries in the table.
pub Chain-inside :
    {table : List Thread} {h : ℤ} {ts : List ℕ}
    → Chain table h ts
    → (i : ℕ) → ¬ Absent i ts
    → i < length table
Chain-inside stop i there = absurd (there tt)
Chain-inside (link {i = t} {ts = ts} p l c) i there = elim (Bool-cases (i == t)) [
  | inl same ↦ omega (arith, ==→eq i t same)
  | inr other ↦ Chain-inside c i (λ a. there (==→ne i t other, a))
]

-- The walk ends at the last thread, if the bound on its rounds is not below the number of threads.
pub chain_end-last :
    (n : ℕ) {table : List Thread} {h : ℤ} (i : ℕ) (ts : List ℕ) (l : ℕ)
    → Chain table h (i ∷ ts)
    → length (i ∷ ts) ≤ n
    → last_of (i ∷ ts) ≡ pos l
    → chain_end n table h ≡ ok l
unfolding chain_end
chain_end-last zero i ts l c few e = absurd (omega arith)
chain_end-last (suc n) {table} i [] l (link p q c) few e = rw (read-ok table i blank q) (ends c)
  where
    ends :
        {h : ℤ} → Chain table h [] → (if ltb_ℤ (pos 0) h then chain_end n table h else ok i) ≡ ok l
    ends stop = let same : i ≡ l = cc in ap ok same
chain_end-last (suc n) {table} i (u ∷ us) l (link p q c) few e =
    rw (read-ok table i blank q) (goes_on c (chain_end-last n u us l c (omega arith) e))
  where
    shorter : length (u ∷ us) ≤ n
    shorter = omega arith

    goes_on :
        {h : ℤ}
        → Chain table h (u ∷ us)
        → chain_end n table h ≡ ok l
        → (if ltb_ℤ (pos 0) h then chain_end n table h else ok i) ≡ ok l
    goes_on (link p' q' c') rest = rw (lt→ltb 0 u p') rest
