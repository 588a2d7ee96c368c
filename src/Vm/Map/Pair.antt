-- ===== src/Vm/Map/Pair.antt =====
-- A write to one half of an entry, as in `vm_map` and `vm_set_dirty`.
use osm_re_exam.Prelude.{
  ℕ, ◌+◌, ◌≤◌, ◌/◌, ◌^◌, ◌<◌, ◌≡◌, refl, ◌≢◌, inl, inr, sym, ap, ◌∙◌, Bool, true, false, not, none,
  some, ◌==◌, arith, length, set, get_or-set_self, length-set,
}
use osm_re_exam.Prelude.Result.{Yields, yields, Yields-bind, write-ok}
use osm_re_exam.Vm.{TlbEntry, Pagetable, is_on_odd_page, map_pair}
use osm_re_exam.Vm.Lookup.{
  blank, entry, IsTable, find_pair, half, translate, page_of_pair, find_pair-some,
  find_pair-set_same, half_at-set, bits-set,
}
use osm_re_exam.Vm.Map.Loop.{mapped_at}

-- `vaddr` leads to frame `pfn`, and the addresses of other pages to where they did.
pub record Mapped (pt pt' : Pagetable) (pfn vaddr dirty : ℕ) : Type 0 where
  pub table : IsTable pt'
  pub there : translate pt' vaddr ≡ some (pfn, dirty)
  pub elsewhere : (va : ℕ) → va / 2 ^ 12 ≢ vaddr / 2 ^ 12 → translate pt' va ≡ translate pt va
  pub grown : pt'.valid_count ≤ pt.valid_count + 1

-- One half of an entry is written, the other stays.
pub record Written (e e' : TlbEntry) (odd : Bool) (pfn dirty : ℕ) : Type 0 where
  pub pair : e'.vpn2 ≡ e.vpn2
  pub this : half e' odd ≡ some (pfn, dirty)
  pub other : half e' (not odd) ≡ half e (not odd)
  pub bits : (e'.v0 < 2) × (e'.v1 < 2)

map_pair-Written :
    (e : TlbEntry) (physaddr : ℕ) (odd : Bool) (dirty : ℕ)
    → (e.v0 < 2) × (e.v1 < 2)
    → half e odd ≡ none
    → Yields (λ e'. Written e e' odd (physaddr / 2 ^ 12) dirty) (map_pair e physaddr odd dirty)
unfolding map_pair
map_pair-Written e physaddr false dirty b free =
    let unused : (e.v0 == 1) ≡ false = ground arith in
    rw unused
      (yields (record { pair = refl; this = refl; other = refl; bits = (omega arith, b.1) }))
map_pair-Written e physaddr true dirty b free =
    let unused : (e.v1 == 1) ≡ false = ground arith in
    rw unused
      (yields (record { pair = refl; this = refl; other = refl; bits = (b.0, omega arith) }))

pub other_half : (a b : Bool) → a ≢ b → a ≡ not b
other_half a b h = ground arith

module _ (pt : Pagetable) (pfn vaddr dirty : ℕ) (t : IsTable pt) where
  -- A table after half of the entry at `j`, which the search finds, is written.
  pub Written-Mapped :
      (j : ℕ) (e' : TlbEntry)
      → find_pair pt.valid_count 0 pt.entries (vaddr / 2 ^ 13) ≡ some j
      → Written (entry pt.entries j) e' (is_on_odd_page vaddr) pfn dirty
      → Mapped pt (record pt { entries = set pt.entries j e' }) pfn vaddr dirty
  unfolding translate
  Written-Mapped j e' found w = record {
    table = record {
      bits = bits-set pt.entries j e' t.bits w.bits;
      places = length-set pt.entries j e' ∙ t.places;
      used = t.used;
    };
    there =
        rw (same (vaddr / 2 ^ 13), found)
          (ap (λ e. half e (is_on_odd_page vaddr)) (get_or-set_self pt.entries j e' blank fits)
            ∙ w.this);
    elsewhere = λ va apart.
        rw (same (va / 2 ^ 13))
          (elim (half_at-set pt.entries j e' (find_pair pt.valid_count 0 pt.entries (va / 2 ^ 13))
            (is_on_odd_page va) fits) [
              | inl kept ↦ kept
              | inr (at, is) ↦
                  let pairs =
                    (find_pair-some _ 0 _ _ j at).2 ∙' (find_pair-some _ 0 _ _ j found).2 in
                  let odd =
                    other_half (is_on_odd_page va) (is_on_odd_page vaddr)
                      (λ q. apart (page_of_pair va vaddr pairs q)) in
                  is ∙ rw (odd, at) w.other
            ]);
    grown = omega arith;
  }
    where
      infixl 30 ◌∙'◌
      ◌∙'◌ : {a b c : ℕ} → a ≡ b → a ≡ c → b ≡ c
      p ∙' q = sym p ∙ q

      fits : j < length pt.entries
      fits = omega (arith, find_pair-some _ 0 _ _ j found, t.used, t.places)

      same :
          (v : ℕ)
          → find_pair pt.valid_count 0 (set pt.entries j e') v
            ≡ find_pair pt.valid_count 0 pt.entries v
      same v = find_pair-set_same pt.valid_count 0 pt.entries j e' v fits w.pair

module _ (pt : Pagetable) (physaddr vaddr dirty : ℕ) (t : IsTable pt) where
  -- In the entry of the pair, at place `j`.
  pub pair-Mapped :
      (j : ℕ)
      → find_pair pt.valid_count 0 pt.entries (vaddr / 2 ^ 13) ≡ some j
      → half (entry pt.entries j) (is_on_odd_page vaddr) ≡ none
      → Yields
          (λ pt'. Mapped pt pt' (physaddr / 2 ^ 12) vaddr dirty)
          (mapped_at pt physaddr vaddr dirty (some j))
  pair-Mapped j found free =
      Yields-bind _
        (map_pair-Written (entry pt.entries j) physaddr (is_on_odd_page vaddr) dirty (t.bits j)
          free)
        λ e' w.
          rw
            (write-ok pt.entries j e'
              (omega (arith, find_pair-some _ 0 _ _ j found, t.used, t.places)))
            (yields (Written-Mapped pt (physaddr / 2 ^ 12) vaddr dirty t j e' found w))
