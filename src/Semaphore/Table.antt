-- ===== src/Semaphore/Table.antt =====
-- `semaphore_create` takes the first free entry from the last one on, in a circle.
use osm_re_exam.Prelude.{
  ℕ, zero, suc, ◌+◌, ◌-◌, ◌%◌, ◌<◌, ◌≡◌, refl, ◌≢◌, sym, ap, ◌∙◌, List, Bool, true, false, Option,
  none, some, arith, length, get_or, set, length-set, get_or-set_self, get_or-set_ne, inl, inr,
  if◌then◌else◌, Bool-cases,
}
use osm_re_exam.Prelude.Int.{ℤ, pos, minus_one, ◌==ℤ◌}
use osm_re_exam.Prelude.Result.{
  ok, ◌>>=◌, Yields, yields, Yields-bind, Yields-mono, read, write, read-ok, write-ok,
}
use osm_re_exam.Semaphore.{Semaphore, Semaphores, max_semaphores, take_free, semaphore_create}

abbrev pub blank : Semaphore
blank = record { value = pos 0; creator = minus_one }

abbrev pub in_use : List Semaphore → ℕ → Bool
in_use table i = if (get_or table i blank).creator ==ℤ minus_one then false else true

-- The entry that comes `j` places behind `next`.
abbrev pub place : ℕ → ℕ → ℕ
place next j = (next + j) % max_semaphores

-- What `n` rounds of the search find.
data Take (s : Semaphores) (creator : ℤ) (n : ℕ) : Option ℕ × Semaphores → Type 0 where
  nothing :
      {s' : Semaphores}
      → s'.table ≡ s.table
      → ((j : ℕ) → j < n → in_use s.table (place s.next j) ≡ true)
      → Take s creator n (none, s')
  taken :
      {s' : Semaphores} {i : ℕ} (j : ℕ)
      → j < n
      → i ≡ place s.next j
      → in_use s.table i ≡ false
      → ((q : ℕ) → q < j → in_use s.table (place s.next q) ≡ true)
      → s'.table ≡ set s.table i (record (get_or s.table i blank) { creator = creator })
      → Take s creator n (some i, s')

abbrev after : Semaphores → Semaphores
after s = record s { next = (s.next + 1) % max_semaphores }

Take-suc :
    (s : Semaphores) (creator : ℤ) (n : ℕ) {r : Option ℕ × Semaphores}
    → s.next < max_semaphores
    → in_use s.table s.next ≡ true
    → Take (after s) creator n r
    → Take s creator (suc n) r
Take-suc s creator n small busy t = more t
  where
    behind : (q : ℕ) → place s.next (suc q) ≡ place ((s.next + 1) % max_semaphores) q
    behind q = omega arith

    first_or :
        (q : ℕ)
        → ((p : ℕ) → suc p ≡ q → in_use s.table (place ((s.next + 1) % max_semaphores) p) ≡ true)
        → in_use s.table (place s.next q) ≡ true
    first_or zero later = let e : place s.next 0 ≡ s.next = omega arith in rw e busy
    first_or (suc q) later = rw (behind q) (later q refl)

    more : {r : Option ℕ × Semaphores} → Take (after s) creator n r → Take s creator (suc n) r
    more (nothing same all) = nothing same (λ j h. first_or j (λ p e. all p (omega arith)))
    more (taken j h at free before new) =
        taken (suc j) (omega arith) (at ∙ sym (behind j)) free
          (λ q l. first_or q (λ p e. before p (omega arith))) new

take_free-Take :
    (n : ℕ) (s : Semaphores) (creator : ℤ)
    → length s.table ≡ max_semaphores
    → s.next < max_semaphores
    → Yields (Take s creator n) (take_free n s creator)
unfolding take_free
take_free-Take zero s creator size small = yields (nothing refl (λ j h. absurd (omega arith)))
take_free-Take (suc n) s creator size small =
    let h : s.next < length s.table = omega arith in
    let rest = take_free-Take n (after s) creator size (omega arith) in
    rw (read-ok s.table s.next blank h)
      (elim (Bool-cases ((get_or s.table s.next blank).creator ==ℤ minus_one)) [
        | inl free ↦
            rw
              (
                free,
                write-ok s.table s.next (record (get_or s.table s.next blank) { creator = creator })
                    h,
              )
              (yields (
                taken 0 (omega arith) (omega arith) (rw free refl) (λ q l. absurd (omega arith))
                  refl))
        | inr used ↦ rw used (Yields-mono rest λ r t. Take-suc s creator n small (rw used refl) t)
      ])

-- The two outcomes of `semaphore_create`.
pub data Created (s : Semaphores) (creator : ℤ) (value : ℕ) : Option ℕ × Semaphores → Type 0 where
  full :
      {s' : Semaphores}
      → s'.table ≡ s.table
      → ((i : ℕ) → i < max_semaphores → in_use s.table i ≡ true)
      → Created s creator value (none, s')
  created :
      {s' : Semaphores} {i : ℕ} (j : ℕ)
      → j < max_semaphores
      → i ≡ place s.next j
      → in_use s.table i ≡ false
      → ((q : ℕ) → q < j → in_use s.table (place s.next q) ≡ true)
      → get_or s'.table i blank ≡ record { value = pos value; creator = creator }
      → ((k : ℕ) → i ≢ k → get_or s'.table k blank ≡ get_or s.table k blank)
      → Created s creator value (some i, s')

-- On a table of CONFIG_MAX_SEMAPHORES entries, `semaphore_create` with a value that is not negative
-- succeeds: it takes the first free entry from the current place on, in a circle, for the given
-- creator and value, and leaves the other entries; or every entry is in use, and it returns NULL and
-- leaves the table.
semaphore_create-Created :
    (s : Semaphores) (creator : ℤ) (value : ℕ)
    → length s.table ≡ max_semaphores
    → s.next < max_semaphores
    → Yields (Created s creator value) (semaphore_create s creator (pos value))
unfolding semaphore_create
semaphore_create-Created s creator value size small =
    Yields-bind _ (take_free-Take max_semaphores s creator size small) λ r t. finish r t
  where
    finish :
        (r : Option ℕ × Semaphores)
        → Take s creator max_semaphores r
        → Yields (Created s creator value) (elim r.0 [
          | none ↦ ok (none, r.1)
          | some i ↦ (do
            e ← read r.1.table i
            table ← write r.1.table i (record e { value = pos value })
            ok (some i, record (r.1) { table = table }))
        ])
    finish r (nothing same all) = yields (
        full same λ i l.
          let j = (i + max_semaphores - s.next) % max_semaphores in
          let e : place s.next j ≡ i = omega arith in
          sym (ap (in_use s.table) e) ∙ all j (omega arith))
    finish r (taken {s' = s'} {i = i} j h at free before new) =
        let claimed = record (get_or s.table i blank) { creator = creator } in
        let inside : i < length s.table = omega arith in
        let still : i < length (set s.table i claimed) =
          omega (arith, length-set s.table i claimed) in
        let now : get_or (set s.table i claimed) i blank ≡ claimed =
          get_or-set_self s.table i claimed blank inside in
        rw
          (
            new,
            read-ok (set s.table i claimed) i blank still,
            now,
            write-ok (set s.table i claimed) i (record claimed { value = pos value }) still,
          )
          (yields (
            created j h at free before
              (get_or-set_self (set s.table i claimed) i (record claimed { value = pos value })
                blank still)
              (λ k ne.
                get_or-set_ne (set s.table i claimed) i k (record claimed { value = pos value })
                  blank ne
                ∙ get_or-set_ne s.table i k claimed blank ne)))
