-- ===== src/Examples/Terminals.antt =====
-- The terminal with the buffers of a fresh driver.
use osm_re_exam.Prelude.{
  ℕ, zero, suc, ap, ◌≡◌, refl, [], ◌∷◌, length, replicate, true, false, arith,
}
use osm_re_exam.Prelude.Result.{write}
use osm_re_exam.Tty.{
  Ring, TtyStatus, receive, push, receive_loop, handle_write, handle_read, tty_interrupt_handle,
  tty_read,
}
use osm_re_exam.Tty.Queue.{IsRing}
use osm_re_exam.Tty.Steps.{
  World, Steps, interrupt, reading_sleeps, done, then_step, IsWorld, Steps-IsWorld,
}

abbrev fresh_ring : Ring
fresh_ring = record { buf = replicate 2048 0; head = 0; count = 0 }

length-replicate : (n : ℕ) → length {A = ℕ} (replicate n 0) ≡ n
length-replicate zero = refl
length-replicate (suc n) = ap suc (length-replicate n)

fresh_ring-IsRing : IsRing fresh_ring
fresh_ring-IsRing = record {
  size = length-replicate 2048;
  inside = omega arith;
  room = omega arith;
}

abbrev fresh : World
fresh = record {
  tty = record { read_ring = fresh_ring; write_ring = fresh_ring };
  taken = [];
  sent = [];
  typed = [];
  given = [];
  writer_sleeps = false;
  reader_sleeps = false;
}

fresh-IsWorld : IsWorld fresh
fresh-IsWorld = record {
  whole = record { reads = fresh_ring-IsRing; writes = fresh_ring-IsRing };
  output = refl;
  input = refl;
  writers = λ t. cc;
  readers = λ t. refl;
}

abbrev typed_status : TtyStatus
typed_status = record { wirq = false; rirq = true; error = false; room = 0; typed = 104 ∷ 105 ∷ [] }

abbrev typed_ring : Ring
typed_ring = record { buf = 104 ∷ 105 ∷ replicate 2046 0; head = 0; count = 2 }

abbrev typed_world : World
typed_world = record fresh {
  tty = record { read_ring = typed_ring; write_ring = fresh_ring };
  typed = 104 ∷ 105 ∷ [];
}

-- A reader sleeps, two characters are typed, and it is woken.
typing : Steps fresh typed_world
unfolding tty_read tty_interrupt_handle handle_write handle_read receive_loop receive push write
typing =
    then_step (then_step done (reading_sleeps 10 refl))
      (interrupt typed_status refl (omega arith) refl)

Steps-IsWorld_example : IsWorld typed_world
Steps-IsWorld_example = Steps-IsWorld typing fresh-IsWorld

abbrev full_ring : Ring
full_ring = record { buf = replicate 2048 0; head = 5; count = 2048 }

full_ring-IsRing : IsRing full_ring
full_ring-IsRing = record { size = length-replicate 2048; inside = omega arith; room = omega arith }
