-- ===== src/UserSem/Names.antt =====
-- The names of user semaphores (buenos/proc/usr_sem.c).
use osm_re_exam.Prelude.{
  ℕ, zero, suc, ◌≤◌, ◌<◌, ◌≡◌, refl, ap, ◌∙◌, List, [], ◌∷◌, true, Option, none, some, arith,
  length, set, ltb, ltb→lt, take, get_or, inl, inr, Bool-cases,
}
use osm_re_exam.Prelude.Int.{ℤ, pos, negsuc}
use osm_re_exam.Prelude.Result.{Result, ok, panic, fault, read-ok, write-ok, Yields-eq}
use osm_re_exam.Libc.{stringcmp, stringcopy}
use osm_re_exam.Libc.Text.{text, IsString, stringcmp-text, stringcopy-Copied}
use osm_re_exam.Semaphore.{Semaphores, semaphore_create}
use osm_re_exam.UserSem.{
  UsrSem, usr_sem_free, usr_sem_used, is_used, find_used, free_sem, create_sem, usr_sem_open,
  max_usr_sem_name,
}

-- An entry with the name makes the name found, where it was not found before.
find_used-set :
    (table : List UsrSem) (i : ℕ) (s : UsrSem) (name : List ℕ)
    → i < length table
    → find_used table name ≡ ok none
    → is_used s.state ≡ true
    → stringcmp s.name name ≡ ok (pos 0)
    → find_used (set table i s) name ≡ ok (some i)
unfolding find_used
find_used-set [] i s name h e u c = absurd (omega arith)
find_used-set (t ∷ table) zero s name h e u c = ground arith
find_used-set (t ∷ table) (suc i) s name h e u c = ground (arith, find_used-set table i s name)

take_all : (n : ℕ) (xs : List ℕ) → length xs ≤ n → take n xs ≡ xs
take_all zero [] h = refl
take_all zero (x ∷ xs) h = absurd (omega arith)
take_all (suc n) [] h = refl
take_all (suc n) (x ∷ xs) h = ap (◌∷◌ x) (take_all n xs (omega arith))

-- A short name is copied whole.
stringcopy-stringcmp :
    (target name : List ℕ)
    → 31 < length target
    → IsString name
    → length (text name) ≤ 31
    → (copied : List ℕ) × (stringcopy target name (pos max_usr_sem_name) ≡ ok copied)
      × (stringcmp copied name ≡ ok (pos 0))
stringcopy-stringcmp target name room proper short =
    let (copied, e, c) = Yields-eq (stringcopy-Copied target name 31 room proper) in
    let (r, at, iff) = Yields-eq (stringcmp-text copied name c.ends proper) in
    let zero_r = iff.1 (c.content ∙ take_all 31 (text name) short) in (copied, e, at ∙ ap ok zero_r)

abbrev pub blank : UsrSem
blank = record { state = usr_sem_free; name = []; kernel_sem = none }

module _ (table : List UsrSem) (kernel : Semaphores) (creator : ℤ) (name : List ℕ) (value : ℕ) where
  -- An entry that was made has the name.
  create_sem-find_used :
      {i : ℕ} {table' : List UsrSem} {kernel' : Semaphores}
      → 31 < length (get_or table (free_sem table) blank).name
      → IsString name
      → length (text name) ≤ 31
      → find_used table name ≡ ok none
      → create_sem table kernel creator name (pos value) ≡ ok (some i, table', kernel')
      → find_used table' name ≡ ok (some i)
  unfolding create_sem
  create_sem-find_used {i} {table'} {kernel'} room proper short absent e =
      let (copied, copy, same) =
        stringcopy-stringcmp (get_or table (free_sem table) blank).name name room proper short in
      elim (Bool-cases (ltb (free_sem table) (length table))) [
        | inr full ↦ ground arith
        | inl some_free ↦
            let h : free_sem table < length table =
              ltb→lt (free_sem table) (length table) some_free in
            made copied copy same h (semaphore_create kernel creator (pos value)) refl
      ]
    where
      made :
          (copied : List ℕ)
          → stringcopy (get_or table (free_sem table) blank).name name (pos max_usr_sem_name)
            ≡ ok copied
          → stringcmp copied name ≡ ok (pos 0)
          → free_sem table < length table
          → (r : Result (Option ℕ × Semaphores)) → semaphore_create kernel creator (pos value) ≡ r
          → find_used table' name ≡ ok (some i)
      made copied copy same h panic at = ground (arith, read-ok table (free_sem table) blank h)
      made copied copy same h fault at = ground (arith, read-ok table (free_sem table) blank h)
      made copied copy same h (ok (sem, kernel2)) at =
          let s : UsrSem = record { state = usr_sem_used; name = copied; kernel_sem = sem } in
          let found = find_used-set table (free_sem table) s name h absent refl same in
          ground
            (arith, read-ok table (free_sem table) blank h, write-ok table (free_sem table) s h)

  -- For a name of at most 31 characters, and entries with buffers of 32 bytes, a semaphore that
  -- `usr_sem_open` has made is the one that every `usr_sem_open` with its name and a negative value
  -- finds in the table after it.
  pub usr_sem_open-usr_sem_open :
      (i : ℕ) (table' : List UsrSem) (kernel' kernel2 : Semaphores) (creator2 : ℤ) (k : ℕ)
      → 31 < length (get_or table (free_sem table) blank).name
      → IsString name
      → length (text name) ≤ 31
      → usr_sem_open table kernel creator name (pos value) ≡ ok (some i, table', kernel')
      → usr_sem_open table' kernel2 creator2 name (negsuc k) ≡ ok (some i, table', kernel2)
  unfolding usr_sem_open
  usr_sem_open-usr_sem_open i table' kernel' kernel2 creator2 k room proper short e =
      opened (find_used table name) refl
    where
      opened :
          (r : Result (Option ℕ))
          → find_used table name ≡ r
          → usr_sem_open table' kernel2 creator2 name (negsuc k) ≡ ok (some i, table', kernel2)
      opened panic at = ground arith
      opened fault at = ground arith
      opened (ok (some j)) at = ground arith
      opened (ok none) at =
          let made : create_sem table kernel creator name (pos value)
              ≡ ok (some i, table', kernel') =
            ground arith in
          let found = create_sem-find_used room proper short at made in rw found refl
