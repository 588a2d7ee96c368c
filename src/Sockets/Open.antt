-- ===== src/Sockets/Open.antt =====
-- socket_open (buenos/net/socket.c): what it does on every branch.
use osm_re_exam.Prelude.{
  ℕ, suc, ◌+◌, ◌-◌, ◌^◌, ◌<◌, ◌≡◌, ◌≢◌, refl, ap, ◌∙◌, List, [], ◌∷◌, length, set, get_elem?, Bool,
  true, false, not, ◌||◌, Option, none, some, ◌==◌, if◌then◌else◌, arith, inl, inr, ◌⊎◌, Bool-cases,
  ==→eq, ==→ne, ne→==,
}
use osm_re_exam.Prelude.Int.{ℤ, pos, minus_one}
use osm_re_exam.Prelude.Result.{Result, ok, fault, ◌>>◌, kernel_assert, Yields, yields, write-ok}
use osm_re_exam.Sockets.{
  Descriptor, protocol_pop, protocol_sop, find_empty, port_used, next_port, open_entry, socket_open,
}
use osm_re_exam.Sockets.Ports.{Port, free_port, next_port-free}

-- All sockets are open.
abbrev pub AreOpen : List Descriptor → Type 0
AreOpen [] = Unit
AreOpen (d ∷ ds) = (d.protocol ≢ 0) × AreOpen ds

-- What comes of opening a socket.
pub data Opened (created : Option ℕ) (table : List Descriptor) (protocol port : ℕ)
    : ℤ × List Descriptor → Type 0 where
  unknown_protocol :
      protocol ≢ protocol_pop
      → protocol ≢ protocol_sop
      → Opened created table protocol port (minus_one, table)
  table_full : AreOpen table → Opened created table protocol port (minus_one, table)
  in_use :
      port ≢ 0 → port_used table port ≡ true → Opened created table protocol port (minus_one, table)
  no_semaphore : created ≡ none → Opened created table protocol port (minus_one, table)
  opened :
      (s p semaphore : ℕ) (d : Descriptor)
      → created ≡ some semaphore
      → get_elem? table s ≡ some d
      → d.protocol ≡ 0
      → p ≢ 0
      → (port ≡ 0) ⊎ (p ≡ port)
      → port_used table p ≡ false
      → Opened created table protocol port (
        pos s,
        set table s (record {
          port = p;
          protocol = protocol;
          receive_complete = some semaphore;
          rbuf = none;
          bufsize = 0;
        }),
      )

-- The empty slot, counted from `i`.
data Empty (ds : List Descriptor) (i : ℕ) : Option ℕ → Type 0 where
  no_slot : AreOpen ds → Empty ds i none
  slot :
      (n k : ℕ) (d : Descriptor)
      → n ≡ i + k
      → get_elem? ds k ≡ some d
      → k < length ds
      → d.protocol ≡ 0
      → Empty ds i (some n)

find_empty-Empty : (ds : List Descriptor) (i : ℕ) → Empty ds i (find_empty ds i)
unfolding find_empty
find_empty-Empty [] i = no_slot tt
find_empty-Empty (d ∷ ds) i = elim (Bool-cases (d.protocol == 0)) [
  | inl t ↦ rw t (slot i 0 d (omega arith) refl (omega arith) (==→eq d.protocol 0 t))
  | inr t ↦ rw t (behind (==→ne d.protocol 0 t) (find_empty-Empty ds (i + 1)))
]
  where
    behind : {r : Option ℕ} → d.protocol ≢ 0 → Empty ds (i + 1) r → Empty (d ∷ ds) i r
    behind ne (no_slot a) = no_slot (ne, a)
    behind ne (slot n k x e at l q) = slot n (suc k) x (omega arith) at (omega arith) q

open_entry-Yields :
    (created : Option ℕ) (table : List Descriptor) (protocol port s p : ℕ) (d : Descriptor)
    → get_elem? table s ≡ some d
    → s < length table
    → d.protocol ≡ 0
    → p ≢ 0
    → (port ≡ 0) ⊎ (p ≡ port)
    → port_used table p ≡ false
    → Yields (Opened created table protocol port) (open_entry created s protocol p table)
unfolding open_entry
open_entry-Yields none table protocol port s p d at l q ne from free = yields (no_semaphore refl)
open_entry-Yields (some semaphore) table protocol port s p d at l q ne from free =
    rw
      (write-ok table s
        (record {
          port = p;
          protocol = protocol;
          receive_complete = some semaphore;
          rbuf = none;
          bufsize = 0;
        })
        l)
      (yields (opened s p semaphore d refl at q ne from free))

neither : (a b : Bool) → (a || b) ≡ false → (a ≡ false) × (b ≡ false)
neither true b t = cc
neither false b t = (refl, t)

-- From the slot on.
slot-Yields :
    (created : Option ℕ) (table : List Descriptor) (protocol port s : ℕ) (d : Descriptor)
    → length table < 2 ^ 16 - 1
    → get_elem? table s ≡ some d
    → s < length table
    → d.protocol ≡ 0
    → Yields (Opened created table protocol port) (
        let any_port : Result (ℤ × List Descriptor) =
          elim (next_port (suc (length table)) table 0) [
            | none ↦ fault
            | some p ↦ kernel_assert (not (p == 0)) >> open_entry created s protocol p table
          ] in
        if port == 0
        then any_port
        else if port_used table port
        then ok (minus_one, table)
        else open_entry created s protocol port table)
slot-Yields created table protocol port s d few at l q = elim (Bool-cases (port == 0)) [
  | inl t ↦
      rw t
        (any (==→eq port 0 t) (next_port (suc (length table)) table 0) (next_port-free table few))
  | inr t ↦
      let ne = ==→ne port 0 t in
      rw t (elim (Bool-cases (port_used table port)) [
        | inl u ↦ rw u (yields (in_use ne u))
        | inr u ↦
            rw u (open_entry-Yields created table protocol port s port d at l q ne (inr refl) u)
      ])
]
  where
    any :
        port ≡ 0
        → (r : Option ℕ) → Port table r
        → Yields (Opened created table protocol port) (elim r [
          | none ↦ fault
          | some p ↦ kernel_assert (not (p == 0)) >> open_entry created s protocol p table
        ])
    any z _ (free_port p positive small free) =
        let ne : p ≢ 0 = λ e. absurd (omega arith) in
        rw (ne→== p 0 ne)
          (open_entry-Yields created table protocol port s p d at l q ne (inl z) free)

-- `socket_open` always comes to a result, for a table of fewer sockets than there are ports. It opens an
-- empty slot with a port that no other socket has, which is the port asked for or any if this is 0; else
-- it returns -1 and changes nothing, and the protocol is unknown, no slot is empty, the port is in use or
-- there is no semaphore.
pub socket_open-Yields :
    (created : Option ℕ) (table : List Descriptor) (protocol port : ℕ)
    → length table < 2 ^ 16 - 1
    → Yields (Opened created table protocol port) (socket_open created table protocol port)
unfolding socket_open
socket_open-Yields created table protocol port few =
    elim (Bool-cases ((protocol == protocol_pop) || (protocol == protocol_sop))) [
      | inl t ↦ rw t (slots (find_empty table 0) (find_empty-Empty table 0))
      | inr t ↦ rw t (
          yields (
            unknown_protocol (==→ne protocol protocol_pop (neither _ _ t).0)
              (==→ne protocol protocol_sop (neither _ _ t).1)))
    ]
  where
    slots :
        (r : Option ℕ)
        → Empty table 0 r
        → Yields (Opened created table protocol port) (elim r [
          | none ↦ ok (minus_one, table)
          | some s ↦
              let any_port : Result (ℤ × List Descriptor) =
                elim (next_port (suc (length table)) table 0) [
                  | none ↦ fault
                  | some p ↦ kernel_assert (not (p == 0)) >> open_entry created s protocol p table
                ] in
              if port == 0
              then any_port
              else if port_used table port
              then ok (minus_one, table)
              else open_entry created s protocol port table
        ])
    slots _ (no_slot a) = yields (table_full a)
    slots _ (slot n k d e at l q) =
        let same : n ≡ k = omega arith in
        slot-Yields created table protocol port n d few (ap (get_elem? table) same ∙ at)
          (omega arith) q
