-- ===== src/Vm/Lookup.antt =====
-- What a page table means: the frame and the dirty bit of each virtual page, as the TLB miss
-- handler finds them.
use osm_re_exam.Prelude.{
  ℕ, zero, suc, ◌+◌, ◌/◌, ◌%◌, ◌^◌, ◌≤◌, ◌<◌, ◌≡◌, refl, ◌⊎◌, inl, inr, sym, ap, List, [], ◌∷◌,
  Bool, true, false, Option, none, some, ◌==◌, if◌then◌else◌, arith, length, get_or, set,
  Bool-cases, ==→eq, ==→ne, get_or-set_self, get_or-set_ne,
}
use osm_re_exam.Prelude.Bits.{bit_and-pow, digit-eq_shift, digit-lt_two}
use osm_re_exam.Vm.{TlbEntry, Pagetable, pagetable_entries, is_on_odd_page}

abbrev pub blank : TlbEntry
blank = record {
  vpn2 = 0;
  asid = 0;
  pfn0 = 0;
  d0 = 0;
  v0 = 0;
  g0 = 0;
  pfn1 = 0;
  d1 = 0;
  v1 = 0;
  g1 = 0;
}

abbrev pub entry : List TlbEntry → ℕ → TlbEntry
entry es i = get_or es i blank

-- The array has its 340 places, no more of them are in use, and one-bit fields hold one bit.
pub record IsTable (pt : Pagetable) : Type 0 where
  pub bits : (i : ℕ) → ((entry pt.entries i).v0 < 2) × ((entry pt.entries i).v1 < 2)
  pub places : length pt.entries ≡ pagetable_entries
  pub used : pt.valid_count ≤ pagetable_entries

-- The place of the first of `n` entries from `i` on that is for a page pair.
unfoldable pub find_pair : ℕ → ℕ → List TlbEntry → ℕ → Option ℕ
find_pair zero i es vpn2 = none
find_pair (suc n) i es vpn2 =
    let rest = find_pair n (i + 1) es vpn2 in if (entry es i).vpn2 == vpn2 then some i else rest

-- The frame and the dirty bit of one half of an entry, if it is valid.
abbrev pub half : TlbEntry → Bool → Option (ℕ × ℕ)
half e false = if e.v0 == 0 then none else some (e.pfn0, e.d0)
half e true = if e.v1 == 0 then none else some (e.pfn1, e.d1)

abbrev pub half_at : List TlbEntry → Option ℕ → Bool → Option (ℕ × ℕ)
half_at es none odd = none
half_at es (some i) odd = half (entry es i) odd

-- Where a virtual address leads.
unfoldable pub translate : Pagetable → ℕ → Option (ℕ × ℕ)
translate pt vaddr =
    half_at pt.entries (find_pair pt.valid_count 0 pt.entries (vaddr / 2 ^ 13))
      (is_on_odd_page vaddr)

pub odd_page : (vaddr : ℕ) → is_on_odd_page vaddr ≡ (vaddr / 2 ^ 12 % 2 == 1)
unfolding is_on_odd_page
odd_page vaddr =
    ground (arith, bit_and-pow 12 vaddr, digit-eq_shift 12 vaddr, digit-lt_two 12 vaddr)

-- Addresses of the same page pair and the same parity lie in one page.
pub page_of_pair :
    (a b : ℕ)
    → a / 2 ^ 13 ≡ b / 2 ^ 13
    → is_on_odd_page a ≡ is_on_odd_page b
    → a / 2 ^ 12 ≡ b / 2 ^ 12
page_of_pair a b p q = ground (arith, odd_page a, odd_page b)

pub find_pair-some :
    (n i : ℕ) (es : List TlbEntry) (v j : ℕ)
    → find_pair n i es v ≡ some j
    → (i ≤ j) × (j < i + n) × ((entry es j).vpn2 ≡ v)
unfolding find_pair
find_pair-some zero i es v j h = cc
find_pair-some (suc n) i es v j h = ground (arith, find_pair-some n (i + 1) es v j)

-- The search does not see a change that keeps the page pair, nor one behind its range.
pub find_pair-set_same :
    (n i : ℕ) (es : List TlbEntry) (j : ℕ) (e : TlbEntry) (v : ℕ)
    → j < length es
    → e.vpn2 ≡ (entry es j).vpn2
    → find_pair n i (set es j e) v ≡ find_pair n i es v
unfolding find_pair
find_pair-set_same zero i es j e v h same = refl
find_pair-set_same (suc n) i es j e v h same = elim (Bool-cases (i == j)) [
  | inl at ↦
      ground (arith, find_pair-set_same n (i + 1) es j e v h same, get_or-set_self es j e blank h)
  | inr off ↦ ground (
    arith,
    find_pair-set_same n (i + 1) es j e v h same,
    get_or-set_ne es j i e blank (λ q. ==→ne i j off (sym q)),
  )
]

pub find_pair-set_behind :
    (n i : ℕ) (es : List TlbEntry) (j : ℕ) (e : TlbEntry) (v : ℕ)
    → i + n ≤ j
    → find_pair n i (set es j e) v ≡ find_pair n i es v
unfolding find_pair
find_pair-set_behind zero i es j e v h = refl
find_pair-set_behind (suc n) i es j e v h = rw (
  find_pair-set_behind n (i + 1) es j e v (omega arith),
  get_or-set_ne es j i e blank (omega arith),
)

-- One more entry counts if none before it is for the page pair.
abbrev pub or_else : Option ℕ → Option ℕ → Option ℕ
or_else none b = b
or_else (some i) b = some i

pub find_pair-suc :
    (n i j : ℕ) (es : List TlbEntry) (v : ℕ)
    → i + n ≡ j
    → find_pair (suc n) i es v
      ≡ or_else (find_pair n i es v) (if (entry es j).vpn2 == v then some j else none)
unfolding find_pair
find_pair-suc zero i j es v e = let is : i ≡ j = omega arith in rw is
find_pair-suc (suc n) i j es v e = ground (arith, find_pair-suc n (i + 1) j es v (omega arith))

-- An array after one of its entries is replaced by one for the same pair.
pub half_at-set :
    (es : List TlbEntry) (j : ℕ) (e' : TlbEntry) (o : Option ℕ) (odd : Bool)
    → j < length es
    → half_at (set es j e') o odd ≡ half_at es o odd
      ⊎ ((o ≡ some j) × (half_at (set es j e') o odd ≡ half e' odd))
half_at-set es j e' none odd h = inl refl
half_at-set es j e' (some i) odd h = elim (Bool-cases (i == j)) [
  | inl at ↦
      let is = ==→eq i j at in
      inr (ap some is, rw is (ap (λ e. half e odd) (get_or-set_self es j e' blank h)))
  | inr off ↦
      inl (ap (λ e. half e odd) (get_or-set_ne es j i e' blank (λ q. ==→ne i j off (sym q))))
]

pub bits-set :
    (es : List TlbEntry) (j : ℕ) (e' : TlbEntry)
    → ((i : ℕ) → ((entry es i).v0 < 2) × ((entry es i).v1 < 2))
    → (e'.v0 < 2) × (e'.v1 < 2)
    → (i : ℕ) → ((entry (set es j e') i).v0 < 2) × ((entry (set es j e') i).v1 < 2)
bits-set [] j e' all b i = all i
bits-set (x ∷ xs) zero e' all b zero = b
bits-set (x ∷ xs) zero e' all b (suc i) = all (suc i)
bits-set (x ∷ xs) (suc j) e' all b zero = all 0
bits-set (x ∷ xs) (suc j) e' all b (suc i) = bits-set xs j e' (λ k. all (suc k)) b i
