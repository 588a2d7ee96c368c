-- ===== src/Vm/Miss.antt =====
-- tlb_access_exception (buenos/vm/tlb.c): what follows a TLB miss.
use osm_re_exam.Prelude.{
  ℕ, zero, suc, ◌+◌, ◌/◌, ◌%◌, ◌^◌, ◌≤◌, ◌<◌, ◌≡◌, ◌≢◌, refl, ◌⊎◌, inl, inr, List, Bool, true,
  false, Option, none, some, ◌==◌, if◌then◌else◌, arith, length, Bool-cases, ==→eq, ==→ne,
}
use osm_re_exam.Prelude.Result.{Result, ok, panic, read-ok}
use osm_re_exam.Vm.{
  TlbEntry, Pagetable, TlbOutcome, refill, finish_process, tlb_error, tlb_entry_is_valid,
  access_loop, tlb_access_exception,
}
use osm_re_exam.Vm.Lookup.{entry, blank, IsTable, find_pair, find_pair-some, odd_page}

-- What the miss handler does with the entry that it finds.
abbrev pub answer : Pagetable → Bool → ℕ → Option ℕ → Result TlbOutcome
answer pt is_userland vaddr none = panic
answer pt is_userland vaddr (some i) =
    if tlb_entry_is_valid (entry pt.entries i) vaddr
    then ok (refill (entry pt.entries i))
    else tlb_error is_userland

access_loop-answer :
    (pt : Pagetable) (is_userland : Bool) (vaddr n i : ℕ)
    → i + n ≤ length pt.entries
    → access_loop n i pt is_userland vaddr (vaddr / 2 ^ 13)
      ≡ answer pt is_userland vaddr (find_pair n i pt.entries (vaddr / 2 ^ 13))
unfolding access_loop find_pair
access_loop-answer pt is_userland vaddr zero i h = refl
access_loop-answer pt is_userland vaddr (suc n) i h =
    rw (read-ok pt.entries i blank (omega arith))
      (elim (Bool-cases ((entry pt.entries i).vpn2 == vaddr / 2 ^ 13)) [
        | inl here ↦ rw here
        | inr next ↦ rw next (access_loop-answer pt is_userland vaddr n (i + 1) (omega arith))
      ])

-- The half of an entry that is for an address, by bit 12 of the address, is valid or is not.
pub data IsValid (e : TlbEntry) (vaddr : ℕ) : Type 0 where
  in_even : vaddr / 2 ^ 12 % 2 ≡ 0 → e.v0 ≡ 1 → IsValid e vaddr
  in_odd : vaddr / 2 ^ 12 % 2 ≡ 1 → e.v1 ≡ 1 → IsValid e vaddr

pub data IsInvalid (e : TlbEntry) (vaddr : ℕ) : Type 0 where
  in_even : vaddr / 2 ^ 12 % 2 ≡ 0 → e.v0 ≡ 0 → IsInvalid e vaddr
  in_odd : vaddr / 2 ^ 12 % 2 ≡ 1 → e.v1 ≡ 0 → IsInvalid e vaddr

-- The first entry in use that is for the page pair of an address.
pub record IsFirst (pt : Pagetable) (vaddr i : ℕ) : Type 0 where
  pub in_use : i < pt.valid_count
  pub of_pair : (entry pt.entries i).vpn2 ≡ vaddr / 2 ^ 13
  pub before : (j : ℕ) → j < i → (entry pt.entries j).vpn2 ≢ vaddr / 2 ^ 13

-- What follows a TLB miss at an address.
pub data Missed (pt : Pagetable) (is_userland : Bool) (vaddr : ℕ) : Result TlbOutcome → Type 0 where
  refilled :
      (i : ℕ)
      → IsFirst pt vaddr i
      → IsValid (entry pt.entries i) vaddr
      → Missed pt is_userland vaddr (ok (refill (entry pt.entries i)))
  killed :
      (i : ℕ)
      → IsFirst pt vaddr i
      → IsInvalid (entry pt.entries i) vaddr
      → is_userland ≡ true
      → Missed pt is_userland vaddr (ok finish_process)
  invalid :
      (i : ℕ)
      → IsFirst pt vaddr i
      → IsInvalid (entry pt.entries i) vaddr
      → is_userland ≡ false
      → Missed pt is_userland vaddr panic
  absent :
      ((j : ℕ) → j < pt.valid_count → (entry pt.entries j).vpn2 ≢ vaddr / 2 ^ 13)
      → Missed pt is_userland vaddr panic

find_pair-before :
    (n i : ℕ) (es : List TlbEntry) (v j k : ℕ)
    → find_pair n i es v ≡ some j
    → i ≤ k
    → k < j
    → (entry es k).vpn2 ≢ v
unfolding find_pair
find_pair-before zero i es v j k h low high = cc
find_pair-before (suc n) i es v j k h low high = ground (arith, find_pair-before n (i + 1) es v j k)

find_pair-none :
    (n i : ℕ) (es : List TlbEntry) (v k : ℕ)
    → find_pair n i es v ≡ none
    → i ≤ k
    → k < i + n
    → (entry es k).vpn2 ≢ v
unfolding find_pair
find_pair-none zero i es v k h low high = absurd (omega arith)
find_pair-none (suc n) i es v k h low high = ground (arith, find_pair-none n (i + 1) es v k)

tlb_entry_is_valid-cases :
    (e : TlbEntry) (vaddr : ℕ)
    → (e.v0 < 2) × (e.v1 < 2)
    → (IsValid e vaddr × (tlb_entry_is_valid e vaddr ≡ true))
      ⊎ (IsInvalid e vaddr × (tlb_entry_is_valid e vaddr ≡ false))
unfolding tlb_entry_is_valid
tlb_entry_is_valid-cases e vaddr bits = elim (Bool-cases (vaddr / 2 ^ 12 % 2 == 1)) [
  | inl up ↦ elim (Bool-cases (e.v1 == 0)) [
    | inl none_there ↦
        inr (
          in_odd (==→eq _ 1 up) (==→eq e.v1 0 none_there),
          rw (odd_page vaddr, up, none_there) refl,
        )
    | inr there ↦
        let ne = ==→ne e.v1 0 there in
        inl (in_odd (==→eq _ 1 up) (omega (arith, ne, bits.1)), rw (odd_page vaddr, up, there) refl)
  ]
  | inr down ↦
      let ne = ==→ne (vaddr / 2 ^ 12 % 2) 1 down in
      elim (Bool-cases (e.v0 == 0)) [
        | inl none_there ↦ inr (
          in_even (omega (arith, ne)) (==→eq e.v0 0 none_there),
          rw (odd_page vaddr, down, none_there) refl,
        )
        | inr there ↦
            let ne' = ==→ne e.v0 0 there in
            inl (
              in_even (omega (arith, ne)) (omega (arith, ne', bits.0)),
              rw (odd_page vaddr, down, there) refl,
            )
      ]
]

-- The TLB miss handler on a table within its bounds: the first entry in use for the page pair of the
-- address decides. If the half of it for the address is valid, the entry goes to the TLB; if not, a
-- process in user mode is finished, and the kernel panics. Without such an entry the kernel panics, for
-- an access in user mode too.
pub tlb_access_exception-Missed :
    (pt : Pagetable) (is_userland : Bool) (vaddr : ℕ)
    → IsTable pt
    → Missed pt is_userland vaddr
        (tlb_access_exception (some pt) is_userland vaddr (vaddr / 2 ^ 13))
unfolding tlb_access_exception tlb_error
tlb_access_exception-Missed pt is_userland vaddr t =
    rw (access_loop-answer pt is_userland vaddr pt.valid_count 0 (omega (arith, t.used, t.places)))
      (by_place (find_pair pt.valid_count 0 pt.entries (vaddr / 2 ^ 13)) refl)
  where
    by_mode :
        (i : ℕ)
        → IsFirst pt vaddr i
        → IsInvalid (entry pt.entries i) vaddr
        → (b : Bool) → is_userland ≡ b
        → Missed pt is_userland vaddr (if b then ok finish_process else panic)
    by_mode i first wrong true q = killed i first wrong q
    by_mode i first wrong false q = invalid i first wrong q

    by_place :
        (o : Option ℕ)
        → find_pair pt.valid_count 0 pt.entries (vaddr / 2 ^ 13) ≡ o
        → Missed pt is_userland vaddr (answer pt is_userland vaddr o)
    by_place none q = absent λ j h.
        find_pair-none pt.valid_count 0 pt.entries (vaddr / 2 ^ 13) j q (omega arith) (omega arith)
    by_place (some i) q =
        let (low, high, same) = find_pair-some pt.valid_count 0 pt.entries (vaddr / 2 ^ 13) i q in
        let first : IsFirst pt vaddr i = record {
          in_use = omega (arith, high);
          of_pair = same;
          before = λ j h.
              find_pair-before pt.valid_count 0 pt.entries (vaddr / 2 ^ 13) i j q (omega arith) h;
        } in
        elim (tlb_entry_is_valid-cases (entry pt.entries i) vaddr (t.bits i)) [
          | inl valid ↦ rw valid.1 (refilled i first valid.0)
          | inr not_valid ↦ rw not_valid.1 (by_mode i first not_valid.0 is_userland refl)
        ]
