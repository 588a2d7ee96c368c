-- ===== src/UserAlloc/Insert.antt =====
-- The list of free blocks (buenos/tests/lib.c): what `free` puts into it.
use osm_re_exam.Prelude.{
  ℕ, ◌+◌, ◌-◌, ◌%◌, ◌^◌, ◌≤◌, ◌<◌, ◌≡◌, refl, inl, inr, List, [], ◌∷◌, none, some, ◌==◌, ltb, arith,
  Bool-cases, ltb→lt, ltb→ge, ==→eq, ==→ne,
}
use osm_re_exam.UserAlloc.{Block, merge_next, place, insert_block}
use osm_re_exam.UserAlloc.FreeList.{user_end, IsFree, IsFree-mono, Disjoint, Apart, total}

-- A block that can stand in the list.
abbrev pub IsBlock : (low limit : ℕ) → Block → Type 0
IsBlock low limit b =
    (low ≤ b.address)
    × (0 < b.size)
    × (b.address % 4 ≡ 0)
    × (b.size % 4 ≡ 0)
    × (b.address + b.size ≤ limit)

-- The list with one block more.
pub record Inserted (low limit : ℕ) (b : Block) (bs r : List Block) : Type 0 where
  pub free : IsFree low limit r
  pub others : (x : Block) → 0 < x.size → Disjoint x b → Apart x bs → Apart x r
  pub sum : total r ≡ b.size + total bs

module _ (limit : ℕ) (l : limit ≤ user_end) where
  merge_next-Inserted :
      (low : ℕ) (b : Block) (bs : List Block)
      → IsBlock low limit b
      → IsFree (b.address + b.size) limit bs
      → Inserted low limit b bs (merge_next b bs)
  unfolding merge_next
  merge_next-Inserted low b [] i f = record {
    free = (i.0, i.1, i.2, i.3, i.4, tt);
    others = λ x p d a. (d, tt);
    sum = refl;
  }
  merge_next-Inserted low b (c ∷ cs) i f =
      elim (Bool-cases ((c.address + (2 ^ 32 - b.address)) % 2 ^ 32 == b.size)) [
        | inl near ↦
            let e = ==→eq _ b.size near in
            let touch : b.address + b.size ≡ c.address = omega arith in
            let whole : (b.size + c.size) % 2 ^ 32 ≡ b.size + c.size = omega arith in
            rw (near, whole)
              (record {
                free = (
                  i.0,
                  omega arith,
                  i.2,
                  omega arith,
                  omega arith,
                  IsFree-mono (b.address + (b.size + c.size) + 1) (c.address + c.size + 1) limit cs
                      (omega arith) f.5,
                );
                others = λ x p d a. (both x p d a.0 touch, a.1);
                sum = omega arith;
              })
        | inr apart ↦
            let e = ==→ne _ b.size apart in
            rw apart (record {
              free = (i.0, i.1, i.2, i.3, i.4, (omega arith, f.1, f.2, f.3, f.4, f.5));
              others = λ x p d a. (d, a);
              sum = refl;
            })
      ]
    where
      both :
          (x : Block)
          → 0 < x.size
          → Disjoint x b
          → Disjoint x c
          → b.address + b.size ≡ c.address
          → Disjoint x (record { address = b.address; size = b.size + c.size })
      both x p (inl d) e touch = inl d
      both x p (inr d) (inl e) touch = absurd (omega arith)
      both x p (inr d) (inr e) touch = inr (omega arith)

  place-Inserted :
      (low : ℕ) (p b : Block) (bs : List Block)
      → IsBlock low limit p
      → IsBlock (p.address + p.size) limit b
      → IsFree (b.address + b.size) limit bs
      → Inserted low limit b (p ∷ bs) (place (some p) b bs)
  unfolding place
  place-Inserted low p b bs ip ib f =
      elim (Bool-cases ((b.address + (2 ^ 32 - p.address)) % 2 ^ 32 == p.size)) [
        | inl near ↦
            let e = ==→eq _ p.size near in
            let touch : p.address + p.size ≡ b.address = omega arith in
            let whole : (p.size + b.size) % 2 ^ 32 ≡ p.size + b.size = omega arith in
            let end : p.address + (p.size + b.size) ≡ b.address + b.size = omega arith in
            let m : Block = record { address = p.address; size = p.size + b.size } in
            let r =
              merge_next-Inserted low m bs (ip.0, omega arith, ip.2, omega arith, omega arith)
                (rw end f) in
            rw (near, whole)
              (record {
                free = r.free;
                others = λ x s d a. r.others x s (both x s a.0 d touch) a.1;
                sum = omega (arith, r.sum);
              })
        | inr apart ↦
            let e = ==→ne _ p.size apart in
            let r =
              merge_next-Inserted (p.address + p.size + 1) b bs
                (omega arith, ib.1, ib.2, ib.3, ib.4) f in
            rw apart (record {
              free = (ip.0, ip.1, ip.2, ip.3, ip.4, r.free);
              others = λ x s d a. (a.0, r.others x s d a.1);
              sum = omega (arith, r.sum);
            })
      ]
    where
      both :
          (x : Block)
          → 0 < x.size
          → Disjoint x p
          → Disjoint x b
          → p.address + p.size ≡ b.address
          → Disjoint x (record { address = p.address; size = p.size + b.size })
      both x s (inl d) e touch = inl d
      both x s (inr d) (inl e) touch = absurd (omega arith)
      both x s (inr d) (inr e) touch = inr (omega arith)

  keep-Inserted :
      (low : ℕ) (b p : Block) (bs r : List Block)
      → IsBlock low limit p
      → Inserted (p.address + p.size + 1) limit b bs r
      → Inserted low limit b (p ∷ bs) (p ∷ r)
  keep-Inserted low b p bs r i q = record {
    free = (i.0, i.1, i.2, i.3, i.4, q.free);
    others = λ x s d a. (a.0, q.others x s d a.1);
    sum = omega (arith, q.sum);
  }

  ends_before :
      (b c : Block)
      → 0 < c.size
      → Disjoint b c
      → b.address < c.address
      → b.address + b.size ≤ c.address
  ends_before b c s (inl d) h = d
  ends_before b c s (inr d) h = absurd (omega arith)

  starts_behind :
      (b c : Block)
      → 0 < b.size
      → Disjoint b c
      → c.address ≤ b.address
      → c.address + c.size ≤ b.address
  starts_behind b c s (inl d) h = absurd (omega arith)
  starts_behind b c s (inr d) h = d

  -- From a block before on.
  behind-Inserted :
      (low : ℕ) (p b : Block) (bs : List Block)
      → IsBlock low limit p
      → IsFree (p.address + p.size + 1) limit bs
      → IsBlock (p.address + p.size) limit b
      → Apart b bs
      → Inserted low limit b (p ∷ bs) (insert_block (some p) b bs)
  unfolding insert_block
  behind-Inserted low p b [] ip f ib a = place-Inserted low p b [] ip ib tt
  behind-Inserted low p b (c ∷ cs) ip f ib a = elim (Bool-cases (ltb b.address c.address)) [
    | inl before ↦
        let e = ends_before b c f.1 a.0 (ltb→lt b.address c.address before) in
        rw before (place-Inserted low p b (c ∷ cs) ip ib (e, f.1, f.2, f.3, f.4, f.5))
    | inr later ↦
        let e = starts_behind b c ib.1 a.0 (ltb→ge b.address c.address later) in
        rw later (
          keep-Inserted low b p (c ∷ cs) (insert_block (some c) b cs) ip (
            behind-Inserted (p.address + p.size + 1) c b cs (f.0, f.1, f.2, f.3, f.4) f.5
              (e, ib.1, ib.2, ib.3, ib.4) a.1))
  ]

  pub insert_block-Inserted :
      (low : ℕ) (b : Block) (bs : List Block)
      → IsFree low limit bs
      → IsBlock low limit b
      → Apart b bs
      → Inserted low limit b bs (insert_block none b bs)
  unfolding insert_block place
  insert_block-Inserted low b [] f ib a = merge_next-Inserted low b [] ib tt
  insert_block-Inserted low b (c ∷ cs) f ib a = elim (Bool-cases (ltb b.address c.address)) [
    | inl before ↦
        let e = ends_before b c f.1 a.0 (ltb→lt b.address c.address before) in
        rw before (merge_next-Inserted low b (c ∷ cs) ib (e, f.1, f.2, f.3, f.4, f.5))
    | inr later ↦
        let e = starts_behind b c ib.1 a.0 (ltb→ge b.address c.address later) in
        rw later
          (behind-Inserted low c b cs (f.0, f.1, f.2, f.3, f.4) f.5 (e, ib.1, ib.2, ib.3, ib.4) a.1)
  ]
