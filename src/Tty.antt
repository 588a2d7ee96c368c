-- ===== src/Tty.antt =====
-- buenos/drivers/tty.c: the interrupt driven terminal. The array, the head and the count of a buffer of
-- `tty_real_device_t` are a record. What the device does while the interrupt handler runs is an
-- argument: its status, how many characters it takes before it is busy, and what was typed.
pub mod Queue
pub mod Calls
pub mod Steps
use osm_re_exam.Prelude.{
  ℕ, zero, suc, ◌+◌, ◌-◌, ◌%◌, List, [], ◌∷◌, ◌++◌, Bool, true, false, Option, none, some, ◌==◌,
  if◌then◌else◌, ltb,
}
use osm_re_exam.Prelude.Result.{Result, ok, panic, ◌>>=◌, read, write}

pub record Ring : Type 0 where
  pub buf : List ℕ
  pub head : ℕ
  pub count : ℕ

-- `tty_real_device_t`
pub record Tty : Type 0 where
  pub read_ring : Ring
  pub write_ring : Ring

abbrev pub tty_buf_size : ℕ
tty_buf_size = 2048

-- A character put behind the others, and the first one taken out.
unfoldable pub push : Ring → ℕ → Result Ring
push r c = do
  buf ← write r.buf ((r.head + r.count) % tty_buf_size) c
  ok (record r { buf = buf; count = r.count + 1 })

unfoldable pub pop : Ring → Result (ℕ × Ring)
pop r = do
  c ← read r.buf r.head
  ok (c, record r { head = (r.head + 1) % tty_buf_size; count = r.count - 1 })

-- The loop of `tty_read`: at most `len` characters. That of the interrupt handler is the same, with `len`
-- the number of characters that the device takes.
unfoldable pub pop_loop : ℕ → Ring → Result (List ℕ × Ring)
pop_loop zero r = ok ([], r)
pop_loop (suc len) r =
    let rest = (do (c, r1) ← pop r; (cs, r2) ← pop_loop len r1; ok (c ∷ cs, r2)) in
    if r.count == 0 then ok ([], r) else rest

-- One round of the loop over the characters that were typed.
unfoldable pub receive : Ring → ℕ → Result Ring
receive r c = let stored = push r c in if ltb tty_buf_size r.count then ok r else stored

unfoldable pub receive_loop : Ring → List ℕ → Result Ring
receive_loop r [] = ok r
receive_loop r (c ∷ cs) = do r1 ← receive r c; receive_loop r1 cs

-- The device at an interrupt.
pub record TtyStatus : Type 0 where
  pub wirq : Bool
  pub rirq : Bool
  pub error : Bool
  pub room : ℕ
  pub typed : List ℕ

-- What the handler does besides: the characters sent, and whether it wakes the sleepers on a buffer.
pub record Handled : Type 0 where
  pub sent : List ℕ
  pub wakes_writers : Bool
  pub wakes_readers : Bool

unfoldable pub handle_write : TtyStatus → Tty → Result (Handled × Tty)
handle_write s tty =
    let drain = (do
      (sent, r) ← pop_loop s.room tty.write_ring
      ok (
        record { sent = sent; wakes_writers = r.count == 0; wakes_readers = false },
        record tty { write_ring = r },
      )) in
    if s.wirq
    then drain
    else ok (record { sent = []; wakes_writers = false; wakes_readers = false }, tty)

unfoldable pub handle_read : TtyStatus → Handled → Tty → Result (Handled × Tty)
handle_read s h tty =
    let fill = (do
      r ← receive_loop tty.read_ring s.typed
      ok (record h { wakes_readers = true }, record tty { read_ring = r })) in
    if s.rirq then (if s.error then panic else fill) else ok (h, tty)

unfoldable pub tty_interrupt_handle : TtyStatus → Tty → Result (Handled × Tty)
tty_interrupt_handle s tty = do (h, tty1) ← handle_write s tty; handle_read s h tty1

-- The loop of `tty_write` that fills the buffer: the buffer, and what is left to write.
unfoldable pub fill_loop : Ring → List ℕ → Result (Ring × List ℕ)
fill_loop r [] = ok (r, [])
fill_loop r (c ∷ cs) =
    let rest = (do r1 ← push r c; fill_loop r1 cs) in
    if ltb r.count tty_buf_size then rest else ok (r, c ∷ cs)

-- One round of the outer loop of `tty_write`, for the characters `cs` that are left and a device that is
-- busy or not: what is sent, the buffer, and what is left then. Nothing, when it sleeps first.
unfoldable pub write_round : Bool → Tty → List ℕ → Result (Option (List ℕ × Tty × List ℕ))
write_round busy tty cs =
    let fill = (do
      (r, rest) ← fill_loop tty.write_ring cs
      let first = (do (c, r1) ← pop r; ok (some (c ∷ [], record tty { write_ring = r1 }, rest)))
      if busy then ok (some ([], record tty { write_ring = r }, rest)) else first) in
    if ltb 0 tty.write_ring.count then ok none else fill

-- `tty_read`: the characters, or nothing when it sleeps first.
unfoldable pub tty_read : Tty → ℕ → Result (Option (List ℕ × Tty))
tty_read tty len =
    let take = (do
      (cs, r) ← pop_loop len tty.read_ring
      ok (some (cs, record tty { read_ring = r }))) in
    if tty.read_ring.count == 0 then ok none else take
