-- ===== src/Sleepq/Buckets.antt =====
-- The lists of the hash table: different threads, each in one list only.
use osm_re_exam.Prelude.{
  ℕ, ◌<◌, ◌≡◌, ◌≢◌, sym, ◌∙◌, List, [], ◌∷◌, ◌++◌, length, get_or, inl, inr, Bool-cases, ◌==◌,
  ==→eq, ==→ne, ne→==, if◌then◌else◌, false,
}
use osm_re_exam.Prelude.Int.{minus_one}
use osm_re_exam.Thread.{max_threads}
use osm_re_exam.Thread.Chain.{Absent, Distinct, Chain, Absent-append, Distinct-append}
use osm_re_exam.Sleepq.{Sleepq, hashtable_size}

-- Lists of different threads, none of which is in two lists.
pub record Apart (bucket : ℕ → List ℕ) : Type 0 where
  pub distinct : (h : ℕ) → Distinct (bucket h)
  pub apart : (h h' i : ℕ) → h ≢ h' → ¬ Absent i (bucket h) → Absent i (bucket h')

-- The hash table holds the lists `bucket`.
pub record Asleep (q : Sleepq) (bucket : ℕ → List ℕ) : Type 0 where
  pub size : length q.threads.table ≡ max_threads
  pub slots : length q.hashtable ≡ hashtable_size
  pub chains :
      (h : ℕ)
      → h < hashtable_size
      → Chain q.threads.table (get_or q.hashtable h minus_one) (bucket h)
  pub apart : Apart bucket

-- Thread `t` behind the list `r`.
abbrev pub joined : (ℕ → List ℕ) → ℕ → ℕ → ℕ → List ℕ
joined bucket r t h = if h == r then bucket h ++ (t ∷ []) else bucket h

Absent-or : (i t : ℕ) (ts : List ℕ) → ¬ Absent i (ts ++ (t ∷ [])) → i ≢ t → ¬ Absent i ts
Absent-or i t ts there ne a = there (Absent-append i t ts a ne)

pub outside_ne : (i t : ℕ) (ts : List ℕ) → Absent t ts → ¬ Absent i ts → i ≢ t
outside_ne i t ts a there e = there (rw e a)

pub Apart-joined :
    (bucket : ℕ → List ℕ) (r t : ℕ)
    → Apart bucket
    → ((h : ℕ) → Absent t (bucket h))
    → Apart (joined bucket r t)
Apart-joined bucket r t p new = record { distinct = distinct; apart = apart }
  where
    distinct : (h : ℕ) → Distinct (joined bucket r t h)
    distinct h = elim (Bool-cases (h == r)) [
      | inl here ↦ rw here (Distinct-append t (bucket h) (p.distinct h) (new h))
      | inr there ↦ rw there (p.distinct h)
    ]

    from_joined : (h h' i : ℕ) → h ≢ h' → ¬ Absent i (bucket h ++ (t ∷ [])) → Absent i (bucket h')
    from_joined h h' i ne there = elim (Bool-cases (i == t)) [
      | inl same ↦ let e : i ≡ t = ==→eq i t same in rw e (new h')
      | inr other ↦ p.apart h h' i ne (Absent-or i t (bucket h) there (==→ne i t other))
    ]

    apart :
        (h h' i : ℕ) → h ≢ h' → ¬ Absent i (joined bucket r t h) → Absent i (joined bucket r t h')
    apart h h' i ne = elim (Bool-cases (h == r)) [
      | inl here ↦
          let other : (h' == r) ≡ false = ne→== h' r (λ e. ne (==→eq h r here ∙ sym e)) in
          rw (here, other) (from_joined h h' i ne)
      | inr away ↦ elim (Bool-cases (h' == r)) [
        | inl here ↦
            rw (away, here)
              λ there.
                Absent-append i t (bucket h') (p.apart h h' i ne there)
                  (outside_ne i t (bucket h) (new h) there)
        | inr away' ↦ rw (away, away') (p.apart h h' i ne)
      ]
    ]
