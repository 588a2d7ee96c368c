-- ===== src/Tfs/Written.antt =====
-- The effect of a write to a part of a file (buenos/fs/tfs.c), and of two such writes.
use osm_re_exam.Prelude.{
  ℕ, ◌+◌, ◌-◌, ◌*◌, ◌/◌, ◌%◌, ◌≤◌, ◌<◌, ◌≡◌, refl, ◌≢◌, sym, ap, ◌∙◌, List, arith, get_or, drop,
  get_or-drop, inl, inr, Bool-cases, ltb, ltb→lt, ltb→ge, ◌==◌, ==→eq, ==→ne,
}
use osm_re_exam.Tfs.{block_size, Inode}
use osm_re_exam.Tfs.Block.{block_at, byte}

-- The first `k` blocks of the file hold from `start` on `size` bytes of the source, and what they held
-- elsewhere, and no other block of the disk has changed.
pub record Written {D : Type 0} (content : D → ℕ → List ℕ) (inode : Inode) (k start size : ℕ)
    (source : List ℕ) (d d' : D) : Type 0 where
  pub inside : (j : ℕ) → j < size → byte content d' inode (start + j) ≡ get_or source j 0
  pub before :
      (p : ℕ) → p < start → p < k * block_size → byte content d' inode p ≡ byte content d inode p
  pub behind :
      (p : ℕ)
      → start + size ≤ p
      → p < k * block_size
      → byte content d' inode p ≡ byte content d inode p
  pub others : (c : ℕ) → ((i : ℕ) → i < k → c ≢ block_at inode i) → content d' c ≡ content d c

-- The first `k` blocks are different ones.
abbrev pub Distinct : Inode → ℕ → Type 0
Distinct inode k = (i j : ℕ) → i < k → j < k → block_at inode i ≡ block_at inode j → i ≡ j

module _ {D : Type 0} (content : D → ℕ → List ℕ) (inode : Inode) (k : ℕ) where
  pub Written-none :
      (start : ℕ) (source : List ℕ) (d : D) → Written content inode k start 0 source d d
  Written-none start source d = record {
    inside = λ j q. absurd (omega arith);
    before = λ p q h. refl;
    behind = λ p q h. refl;
    others = λ c q. refl;
  }

  -- What is written in two parts.
  pub Written-append :
      (start m n : ℕ) (source : List ℕ) (d d1 d2 : D)
      → start + (m + n) ≤ k * block_size
      → Written content inode k start m source d d1
      → Written content inode k (start + m) n (drop m source) d1 d2
      → Written content inode k start (m + n) source d d2
  Written-append start m n source d d1 d2 fits one two = record {
    inside = inside;
    before = λ p q h. two.before p (omega arith) h ∙ one.before p q h;
    behind = λ p q h. two.behind p (omega arith) h ∙ one.behind p (omega arith) h;
    others = λ c q. two.others c q ∙ one.others c q;
  }
    where
      inside : (j : ℕ) → j < m + n → byte content d2 inode (start + j) ≡ get_or source j 0
      inside j h = elim (Bool-cases (ltb j m)) [
        | inl early ↦
            let l : j < m = ltb→lt j m early in
            two.before (start + j) (omega arith) (omega arith) ∙ one.inside j l
        | inr late ↦
            let l : m ≤ j = ltb→ge j m late in
            let e : start + j ≡ start + m + (j - m) = omega arith in
            let f : m + (j - m) ≡ j = omega arith in
            ap (byte content d2 inode) e
            ∙ two.inside (j - m) (omega arith)
            ∙ get_or-drop m (j - m) source 0
            ∙ ap (λ i. get_or source i 0) f
      ]

  pub Written-start :
      (s s' n : ℕ) (source : List ℕ) (d d' : D)
      → (1 ≤ n → s ≡ s')
      → s' ≤ s
      → Written content inode k s n source d d'
      → Written content inode k s' n source d d'
  Written-start s s' n source d d' same h w = record {
    inside =
        λ j q. ap (λ i. byte content d' inode (i + j)) (sym (same (omega arith))) ∙ w.inside j q;
    before = λ p q l. w.before p (omega arith) l;
    behind = behind;
    others = w.others;
  }
    where
      behind :
          (p : ℕ)
          → s' + n ≤ p
          → p < k * block_size
          → byte content d' inode p ≡ byte content d inode p
      behind p q l = elim (Bool-cases (ltb p s)) [
        | inl e ↦ w.before p (ltb→lt p s e) l
        | inr e ↦
            let late : s ≤ p = ltb→ge p s e in
            elim (Bool-cases (ltb 0 n)) [
              | inl some_n ↦ let f = same (ltb→lt 0 n some_n) in w.behind p (omega arith) l
              | inr no_n ↦ let f = ltb→ge 0 n no_n in w.behind p (omega arith) l
            ]
      ]

module _ {D : Type 0} (content : D → ℕ → List ℕ) where
  -- One block whose content becomes `x`.
  pub Written-block :
      (inode : Inode) (k b1 at count : ℕ) (source x : List ℕ) (d d' : D)
      → Distinct inode k
      → b1 < k
      → at + count ≤ block_size
      → content d' (block_at inode b1) ≡ x
      → ((c : ℕ) → c ≢ block_at inode b1 → content d' c ≡ content d c)
      → ((j : ℕ) → j < count → get_or x (at + j) 0 ≡ get_or source j 0)
      → ((j : ℕ) → j < at → get_or x j 0 ≡ get_or (content d (block_at inode b1)) j 0)
      → ((j : ℕ)
          → at + count ≤ j
          → j < block_size
          → get_or x j 0 ≡ get_or (content d (block_at inode b1)) j 0)
      → Written content inode k (b1 * block_size + at) count source d d'
  Written-block inode k b1 at count source x d d' distinct hb fits new same inside before behind =
      record {
        inside = λ j q.
            let e : (b1 * block_size + at + j) / block_size ≡ b1 = omega arith in
            let f : (b1 * block_size + at + j) % block_size ≡ at + j = omega arith in
            here _ e ∙ ap (λ i. get_or x i 0) f ∙ inside j q;
        before = λ p q h. elim (Bool-cases (p / block_size == b1)) [
          | inl e ↦
              let f = ==→eq (p / block_size) b1 e in
              here p f ∙ before (p % block_size) (omega arith) ∙ sym (was p f)
          | inr e ↦ elsewhere p h (==→ne (p / block_size) b1 e)
        ];
        behind = λ p q h. elim (Bool-cases (p / block_size == b1)) [
          | inl e ↦
              let f = ==→eq (p / block_size) b1 e in
              here p f ∙ behind (p % block_size) (omega arith) (omega arith) ∙ sym (was p f)
          | inr e ↦ elsewhere p h (==→ne (p / block_size) b1 e)
        ];
        others = λ c q. same c (q b1 hb);
      }
    where
      was :
          (p : ℕ)
          → p / block_size ≡ b1
          → byte content d inode p ≡ get_or (content d (block_at inode b1)) (p % block_size) 0
      was p e = ap (λ i. get_or (content d (block_at inode i)) (p % block_size) 0) e

      here : (p : ℕ) → p / block_size ≡ b1 → byte content d' inode p ≡ get_or x (p % block_size) 0
      here p e =
          ap (λ i. get_or (content d' (block_at inode i)) (p % block_size) 0) e
          ∙ ap (λ l. get_or l (p % block_size) 0) new

      elsewhere :
          (p : ℕ)
          → p < k * block_size
          → p / block_size ≢ b1
          → byte content d' inode p ≡ byte content d inode p
      elsewhere p h n =
          ap (λ l. get_or l (p % block_size) 0)
            (same (block_at inode (p / block_size))
              (λ e. n (distinct (p / block_size) b1 (omega arith) hb e)))
