-- ===== src/UserAlloc/FreeList.antt =====
-- The list of free blocks (buenos/tests/lib.c): what `malloc` takes from it.
use osm_re_exam.Prelude.{
  ℕ, ◌+◌, ◌-◌, ◌%◌, ◌^◌, ◌≤◌, ◌<◌, ◌≡◌, refl, ◌⊎◌, inl, inr, List, [], ◌∷◌, Option, none, some, leb,
  arith, Bool-cases, leb→le,
}
use osm_re_exam.UserAlloc.{Block, can_split, find_block}

-- The end of the addresses of user programs.
abbrev pub user_end : ℕ
user_end = 2 ^ 31

-- Free blocks in the order of their addresses, with a gap between each two, below `limit`.
abbrev pub IsFree : (low limit : ℕ) → List Block → Type 0
IsFree low limit [] = Unit
IsFree low limit (b ∷ bs) =
    (low ≤ b.address)
    × (0 < b.size)
    × (b.address % 4 ≡ 0)
    × (b.size % 4 ≡ 0)
    × (b.address + b.size ≤ limit)
    × IsFree (b.address + b.size + 1) limit bs

abbrev pub Disjoint : Block → Block → Type 0
Disjoint x b = (x.address + x.size ≤ b.address) ⊎ (b.address + b.size ≤ x.address)

-- The block overlaps none of the list.
abbrev pub Apart : Block → List Block → Type 0
Apart x [] = Unit
Apart x (b ∷ bs) = Disjoint x b × Apart x bs

can_split_lem :
    (b : Block) (size : ℕ)
    → b.size ≤ user_end
    → size ≤ 2 ^ 30
    → can_split b size ≡ leb (size + 16) b.size
unfolding can_split
can_split_lem b size h k = ground arith

pub IsFree-mono :
    (low low' limit : ℕ) (bs : List Block) → low ≤ low' → IsFree low' limit bs → IsFree low limit bs
IsFree-mono low low' limit [] h f = tt
IsFree-mono low low' limit (b ∷ bs) h f = (omega arith, f.1, f.2, f.3, f.4, f.5)

-- A block before all of the list.
pub Apart-before :
    (low limit : ℕ) (x : Block) (bs : List Block)
    → x.address + x.size ≤ low
    → IsFree low limit bs
    → Apart x bs
Apart-before low limit x [] h f = tt
Apart-before low limit x (b ∷ bs) h f =
    (inl (omega arith), Apart-before (b.address + b.size + 1) limit x bs (omega arith) f.5)

-- The bytes of the list.
abbrev pub total : List Block → ℕ
total [] = 0
total (b ∷ bs) = b.size + total bs

-- What is handed out, and what is left.
pub record Taken (low limit size : ℕ) (bs : List Block) (b : Block) (bs' : List Block)
    : Type 0 where
  pub enough : size + 4 ≤ b.size
  pub address_aligned : b.address % 4 ≡ 0
  pub size_aligned : b.size % 4 ≡ 0
  pub above : low ≤ b.address
  pub inside : b.address + b.size ≤ limit
  pub left : IsFree low limit bs'
  pub apart : Apart b bs'
  pub others : (x : Block) → Apart x bs → Disjoint x b × Apart x bs'
  pub sum : total bs ≡ b.size + total bs'

-- What comes of the search.
pub data Found (low limit size : ℕ) (bs : List Block) : Option (Block × List Block) → Type 0 where
  not_found : Found low limit size bs none
  found :
      {b : Block} {bs' : List Block}
      → Taken low limit size bs b bs'
      → Found low limit size bs (some (b, bs'))

module _ (size limit : ℕ) (s1 : 8 ≤ size) (s2 : size % 4 ≡ 0) (s3 : size ≤ 2 ^ 30)
    (l : limit ≤ user_end) where
  -- A block that is split.
  split-Taken :
      (low : ℕ) (c : Block) (cs : List Block)
      → IsFree low limit (c ∷ cs)
      → size + 16 ≤ c.size
      → Taken low limit size
          (c ∷ cs)
          (record { address = c.address + (c.size - (size + 4)); size = size + 4 })
          (record { address = c.address; size = c.size - (size + 4) } ∷ cs)
  split-Taken low c cs f h =
      let b : Block = record { address = c.address + (c.size - (size + 4)); size = size + 4 } in
      record {
        enough = omega arith;
        address_aligned = omega arith;
        size_aligned = omega arith;
        above = omega arith;
        inside = omega arith;
        left = (
          f.0,
          omega arith,
          f.2,
          omega arith,
          omega arith,
          IsFree-mono (c.address + (c.size - (size + 4)) + 1) (c.address + c.size + 1) limit cs
              (omega arith) f.5,
        );
        apart =
            (inr (omega arith), Apart-before (c.address + c.size + 1) limit b cs (omega arith) f.5);
        sum = omega arith;
        others = λ x a. elim a.0 [
          | inl before ↦ (inl (omega arith), (inl (omega arith), a.1))
          | inr behind ↦ (inr (omega arith), (inr (omega arith), a.1))
        ];
      }

  whole-Taken :
      (low : ℕ) (c : Block) (cs : List Block)
      → IsFree low limit (c ∷ cs)
      → size + 4 ≤ c.size
      → Taken low limit size (c ∷ cs) c cs
  whole-Taken low c cs f h = record {
    enough = h;
    address_aligned = f.2;
    size_aligned = f.3;
    above = f.0;
    inside = f.4;
    left = IsFree-mono low (c.address + c.size + 1) limit cs (omega arith) f.5;
    apart = Apart-before (c.address + c.size + 1) limit c cs (omega arith) f.5;
    others = λ x a. a;
    sum = refl;
  }

  further-Taken :
      (low : ℕ) (c : Block) (cs : List Block) (b : Block) (bs' : List Block)
      → IsFree low limit (c ∷ cs)
      → Taken (c.address + c.size + 1) limit size cs b bs'
      → Taken low limit size (c ∷ cs) b (c ∷ bs')
  further-Taken low c cs b bs' f t =
      let above = t.above in
      record {
        enough = t.enough;
        address_aligned = t.address_aligned;
        size_aligned = t.size_aligned;
        above = omega arith;
        inside = t.inside;
        left = (f.0, f.1, f.2, f.3, f.4, t.left);
        apart = (inr (omega arith), t.apart);
        sum = omega (arith, t.sum);
        others = λ x a. let (d, r) = t.others x a.1 in (d, (a.0, r));
      }

  further-Found :
      (low : ℕ) (c : Block) (cs : List Block) {r : Option (Block × List Block)}
      → IsFree low limit (c ∷ cs)
      → Found (c.address + c.size + 1) limit size cs r
      → Found low limit size
          (c ∷ cs)
          (elim r [ none ↦ none | some taken ↦ some (taken.0, c ∷ taken.1) ])
  further-Found low c cs f not_found = not_found
  further-Found low c cs f (found {b} {bs'} t) = found (further-Taken low c cs b bs' f t)

  pub find_block-Found :
      (low : ℕ) (bs : List Block)
      → IsFree low limit bs
      → Found low limit size bs (find_block size bs)
  unfolding find_block
  find_block-Found low [] f = not_found
  find_block-Found low (c ∷ cs) f =
      let four : (size + 4) % 2 ^ 32 ≡ size + 4 = omega arith in
      elim (Bool-cases (leb (size + 16) c.size)) [
        | inl big ↦
            let h = leb→le (size + 16) c.size big in
            let kept : (c.size + (2 ^ 32 - (size + 4))) % 2 ^ 32 ≡ c.size - (size + 4) =
              omega arith in
            let start : (c.address + (c.size - (size + 4))) % 2 ^ 32
                ≡ c.address + (c.size - (size + 4)) =
              omega arith in
            rw (can_split_lem c size (omega arith) s3, big, four, kept, start)
              (found (split-Taken low c cs f h))
        | inr small ↦ elim (Bool-cases (leb (size + 4) c.size)) [
          | inl fits ↦
              rw (can_split_lem c size (omega arith) s3, small, four, fits)
                (found (whole-Taken low c cs f (leb→le (size + 4) c.size fits)))
          | inr tight ↦
              rw (can_split_lem c size (omega arith) s3, small, four, tight)
                (further-Found low c cs f (find_block-Found (c.address + c.size + 1) cs f.5))
        ]
      ]
