-- ===== src/Tfs/Block.antt =====
-- What the file system relies on in a disk, and the bytes of a file on it.
use osm_re_exam.Prelude.{
  ℕ, ◌+◌, ◌-◌, ◌/◌, ◌%◌, ◌≤◌, ◌<◌, ◌≡◌, ◌≢◌, ap, ◌∙◌, List, ◌++◌, some, arith, length, get_or, take,
  drop, length-take, length-drop, length-append, get_or-take, get_or-drop, get_or-append_left,
  get_or-append_right, inl, inr, Bool-cases, ltb, ltb→lt, ltb→ge,
}
use osm_re_exam.Libc.Copy.{over}
use osm_re_exam.Tfs.{block_size, Gbd, Inode}

-- Blocks below `limit` can be read and written, as gbd.h describes it: a read gives the content of the
-- block, and a write changes that content and no other.
pub record IsDisk {D : Type 0} (gbd : Gbd D) (content : D → ℕ → List ℕ) (limit : ℕ) : Type 0 where
  pub size : (d : D) (b : ℕ) → length (content d b) ≡ block_size
  pub reads : (d : D) (b : ℕ) → b < limit → gbd.read_block d b ≡ some (content d b)
  pub writes :
      (d : D) (b : ℕ) (x : List ℕ)
      → b < limit
      → length x ≡ block_size
      → (d' : D) × (gbd.write_block d b x ≡ some d')
        × (content d' b ≡ x)
        × ((c : ℕ) → c ≢ b → content d' c ≡ content d c)

-- The number of block `i` of a file.
abbrev pub block_at : Inode → ℕ → ℕ
block_at inode i = get_or inode.block i 0

-- The first `k` blocks of the inode lie on the disk.
pub record IsFile (inode : Inode) (limit k : ℕ) : Type 0 where
  pub listed : k ≤ length inode.block
  pub on_disk : (i : ℕ) → i < k → block_at inode i < limit

-- The byte at a position of the file.
abbrev pub byte : {D : Type 0} → (D → ℕ → List ℕ) → D → Inode → ℕ → ℕ
byte content d inode p = get_or (content d (block_at inode (p / block_size))) (p % block_size) 0

-- `left` places of the buffer hold the values of `f` from `start` on, and the others what they held.
pub record Filled (f : ℕ → ℕ) (start left : ℕ) (buffer buffer' : List ℕ) : Type 0 where
  pub size : length buffer' ≡ length buffer
  pub inside : (j : ℕ) → j < left → get_or buffer' j 0 ≡ f (start + j)
  pub outside : (j : ℕ) → left ≤ j → get_or buffer' j 0 ≡ get_or buffer j 0

pub length-over :
    (n : ℕ) (target source : List ℕ)
    → n ≤ length target
    → n ≤ length source
    → length (over n target source) ≡ length target
length-over n target source h k = omega (
  arith,
  length-append (take n source) (drop n target),
  length-take n source k,
  length-drop n target,
)

pub over-inside :
    (n j : ℕ) (target source : List ℕ)
    → n ≤ length source
    → j < n
    → get_or (over n target source) j 0 ≡ get_or source j 0
over-inside n j target source k h =
    get_or-append_left (take n source) (drop n target) j 0 (omega (arith, length-take n source k))
    ∙ get_or-take n j source 0 h

pub over-outside :
    (n j : ℕ) (target source : List ℕ)
    → n ≤ length source
    → n ≤ j
    → get_or (over n target source) j 0 ≡ get_or target j 0
over-outside n j target source k h =
    let e : j ≡ length (take n source) + (j - n) = omega (arith, length-take n source k) in
    let f : n + (j - n) ≡ j = omega arith in
    ap (λ i. get_or (over n target source) i 0) e
    ∙ get_or-append_right (take n source) (drop n target) (j - n) 0
    ∙ get_or-drop n (j - n) target 0
    ∙ ap (λ i. get_or target i 0) f

-- A part that is copied, and what is filled behind it.
pub Filled-append :
    (f : ℕ → ℕ) (start m left : ℕ) (buffer source r : List ℕ)
    → m ≤ left
    → m ≤ length buffer
    → m ≤ length source
    → ((j : ℕ) → j < m → get_or source j 0 ≡ f (start + j))
    → Filled f (start + m) (left - m) (drop m (over m buffer source)) r
    → Filled f start left buffer (take m (over m buffer source) ++ r)
Filled-append f start m left buffer source r ml mb ms same rest = record {
  size = size;
  inside = inside;
  outside = outside;
}
  where
    c : List ℕ
    c = over m buffer source

    long : length c ≡ length buffer
    long = length-over m buffer source mb ms

    front : length (take m c) ≡ m
    front = length-take m c (omega (arith, long))

    size : length (take m c ++ r) ≡ length buffer
    size = omega (arith, length-append (take m c) r, front, rest.size, length-drop m c, long)

    behind : (j : ℕ) → m ≤ j → get_or (take m c ++ r) j 0 ≡ get_or r (j - m) 0
    behind j h =
        let e : j ≡ length (take m c) + (j - m) = omega (arith, front) in
        ap (λ i. get_or (take m c ++ r) i 0) e ∙ get_or-append_right (take m c) r (j - m) 0

    inside : (j : ℕ) → j < left → get_or (take m c ++ r) j 0 ≡ f (start + j)
    inside j h = elim (Bool-cases (ltb j m)) [
      | inl early ↦
          let l : j < m = ltb→lt j m early in
          get_or-append_left (take m c) r j 0 (omega (arith, front))
          ∙ get_or-take m j c 0 l
          ∙ over-inside m j buffer source ms l
          ∙ same j l
      | inr late ↦
          let l : m ≤ j = ltb→ge j m late in
          let e : start + m + (j - m) ≡ start + j = omega arith in
          behind j l ∙ rest.inside (j - m) (omega arith) ∙ ap f e
    ]

    outside : (j : ℕ) → left ≤ j → get_or (take m c ++ r) j 0 ≡ get_or buffer j 0
    outside j h =
        let e : m + (j - m) ≡ j = omega arith in
        behind j (omega arith)
        ∙ rest.outside (j - m) (omega arith)
        ∙ get_or-drop m (j - m) c 0
        ∙ ap (λ i. get_or c i 0) e
        ∙ over-outside m j buffer source ms (omega arith)

-- Where nothing is left, it does not matter where it starts.
pub Filled-start :
    (f : ℕ → ℕ) (s s' left : ℕ) (buffer r : List ℕ)
    → (1 ≤ left → s ≡ s')
    → Filled f s left buffer r
    → Filled f s' left buffer r
Filled-start f s s' left buffer r same rest = record {
  size = rest.size;
  inside = λ j q. rest.inside j q ∙ ap (λ i. f (i + j)) (same (omega arith));
  outside = rest.outside;
}
