-- ===== src/Sockets/Ports.antt =====
-- socket_open (buenos/net/socket.c): the search for a free port ends.
use osm_re_exam.Prelude.{
  ℕ, zero, suc, ◌+◌, ◌-◌, ◌%◌, ◌^◌, ◌≤◌, ◌<◌, ◌≡◌, List, [], ◌∷◌, length, Bool, true, false, not,
  ◌&&◌, ◌||◌, Option, some, ◌==◌, if◌then◌else◌, ltb, arith, inl, inr, Bool-cases, ==→eq,
}
use osm_re_exam.Sockets.{Descriptor, port_used, next_port}

-- How many sockets have a port above `port`.
abbrev above : ℕ → List Descriptor → ℕ
above port [] = 0
above port (d ∷ ds) = (if ltb port d.port then 1 else 0) + above port ds

above-length : (port : ℕ) (table : List Descriptor) → above port table ≤ length table
above-length port [] = omega arith
above-length port (d ∷ ds) = let h = above-length port ds in ground arith

above-next : (port : ℕ) (table : List Descriptor) → above (port + 1) table ≤ above port table
above-next port [] = omega arith
above-next port (d ∷ ds) = let h = above-next port ds in ground arith

used_behind : (a b c : Bool) → ((a && b) || c) ≡ true → b ≡ false → c ≡ true
used_behind true true c u t = cc
used_behind true false c u t = u
used_behind false b c u t = u

-- A used port counts below, and not at itself.
above-used :
    (port : ℕ) (table : List Descriptor)
    → port_used table (port + 1) ≡ true
    → above (port + 1) table < above port table
unfolding port_used
above-used port [] u = cc
above-used port (d ∷ ds) u = elim (Bool-cases (d.port == port + 1)) [
  | inl here ↦
      let same = ==→eq d.port (port + 1) here in
      let h = above-next port ds in ground (arith, same, h)
  | inr there ↦
      let h = above-used port ds (
        used_behind (not (d.protocol == 0)) (d.port == port + 1) (port_used ds (port + 1)) u
          there) in
      ground (arith, h)
]

pub data Port (table : List Descriptor) : Option ℕ → Type 0 where
  free_port : (p : ℕ) → 0 < p → p < 2 ^ 16 → port_used table p ≡ false → Port table (some p)

next_port-Port :
    (fuel : ℕ) (table : List Descriptor) (port : ℕ)
    → above port table < fuel
    → port + fuel < 2 ^ 16
    → Port table (next_port fuel table port)
unfolding next_port
next_port-Port zero table port h k = absurd (omega arith)
next_port-Port (suc fuel) table port h k =
    let next : (port + 1) % 2 ^ 16 ≡ port + 1 = omega arith in
    elim (Bool-cases (port_used table (port + 1))) [
      | inl u ↦
          rw (next, u)
            (next_port-Port fuel table (port + 1) (omega (arith, above-used port table u, h))
              (omega arith))
      | inr u ↦ rw (next, u) (free_port (port + 1) (omega arith) (omega arith) u)
    ]

-- Fuel of one more than the number of sockets is enough, as long as these are fewer than the ports.
pub next_port-free :
    (table : List Descriptor)
    → length table < 2 ^ 16 - 1
    → Port table (next_port (suc (length table)) table 0)
next_port-free table h =
    let few = above-length 0 table in
    next_port-Port (suc (length table)) table 0 (omega arith) (omega arith)
