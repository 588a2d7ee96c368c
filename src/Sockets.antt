-- ===== src/Sockets.antt =====
-- buenos/net/socket.c: the table of sockets. A semaphore is its number; what `semaphore_create` returns is
-- an argument. The pointers for the results of `socket_recvfrom` are left out.
pub mod Ports
pub mod Open
use osm_re_exam.Prelude.{
  ℕ, zero, suc, ◌+◌, ◌%◌, ◌^◌, List, [], ◌∷◌, length, Bool, true, false, not, ◌&&◌, ◌||◌, Option,
  none, some, ◌==◌, if◌then◌else◌,
}
use osm_re_exam.Prelude.Int.{ℤ, pos, minus_one}
use osm_re_exam.Prelude.Result.{Result, ok, fault, ◌>>=◌, ◌>>◌, read, write, kernel_assert}

-- `socket_descriptor_t`
pub record Descriptor : Type 0 where
  pub port : ℕ
  pub protocol : ℕ
  pub receive_complete : Option ℕ
  pub rbuf : Option ℕ
  pub bufsize : ℕ

abbrev pub protocol_pop : ℕ
protocol_pop = 0x01

abbrev pub protocol_sop : ℕ
protocol_sop = 0x02

-- The loop over the table for an empty slot.
unfoldable pub find_empty : List Descriptor → ℕ → Option ℕ
find_empty [] i = none
find_empty (d ∷ ds) i = let rest = find_empty ds (i + 1) in if d.protocol == 0 then some i else rest

-- The loops over the table for a port.
unfoldable pub port_used : List Descriptor → ℕ → Bool
port_used [] port = false
port_used (d ∷ ds) port = (not (d.protocol == 0) && (d.port == port)) || port_used ds port

-- The loop for the first free port behind `port`, with the rounds that are left.
unfoldable pub next_port : ℕ → List Descriptor → ℕ → Option ℕ
next_port zero table port = none
next_port (suc fuel) table port =
    let next = (port + 1) % 2 ^ 16 in
    let rest = next_port fuel table next in if port_used table next then rest else some next

-- The end of `socket_open`, for an empty slot and a port.
unfoldable pub open_entry : Option ℕ → ℕ → ℕ → ℕ → List Descriptor → Result (ℤ × List Descriptor)
open_entry none s protocol port table = ok (minus_one, table)
open_entry (some semaphore) s protocol port table = do
  table1 ← write table s (record {
    port = port;
    protocol = protocol;
    receive_complete = some semaphore;
    rbuf = none;
    bufsize = 0;
  })
  ok (pos s, table1)

-- As many rounds as there are sockets, and one, are enough for the loop over the ports; a fault stands for
-- a loop that is not over.
unfoldable pub socket_open : Option ℕ → List Descriptor → ℕ → ℕ → Result (ℤ × List Descriptor)
socket_open created table protocol port =
    let at_slot : ℕ → Result (ℤ × List Descriptor) = λ s.
      let any_port : Result (ℤ × List Descriptor) = elim (next_port (suc (length table)) table 0) [
        | none ↦ fault
        | some p ↦ kernel_assert (not (p == 0)) >> open_entry created s protocol p table
      ] in
      if port == 0
      then any_port
      else if port_used table port
      then ok (minus_one, table)
      else open_entry created s protocol port table in
    let slot : Result (ℤ × List Descriptor) = elim (find_empty table 0) [
      | none ↦ ok (minus_one, table)
      | some s ↦ at_slot s
    ] in
    if (protocol == protocol_pop) || (protocol == protocol_sop) then slot else ok (minus_one, table)

-- The entry of a closed socket.
unfoldable pub socket_close : List Descriptor → ℕ → Result (List Descriptor)
socket_close table socket = do
  d ← read table socket
  elim d.receive_complete as (λ _. Result (List Descriptor)) [
    | none ↦ ok table
    | some semaphore ↦
        write table socket
          (record { port = 0; protocol = 0; receive_complete = none; rbuf = none; bufsize = 0 })
  ]
