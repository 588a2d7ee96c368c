-- ===== src/Examples/Ports.antt =====
-- A table of two sockets, one of them open.
use osm_re_exam.Prelude.{ℕ, ◌≡◌, refl, [], ◌∷◌, none, some, arith}
use osm_re_exam.Prelude.Int.{pos}
use osm_re_exam.Prelude.Result.{ok, Yields, read, write}
use osm_re_exam.Sockets.{
  Descriptor, find_empty, port_used, next_port, open_entry, socket_open, socket_close,
}
use osm_re_exam.Sockets.Open.{Opened, socket_open-Yields}

abbrev closed : Descriptor
closed = record { port = 0; protocol = 0; receive_complete = none; rbuf = none; bufsize = 0 }

abbrev on_port : ℕ → Descriptor
on_port p = record { port = p; protocol = 1; receive_complete = some 3; rbuf = none; bufsize = 0 }

-- Port 1 is in use, so the first free one is 2.
first_free_port :
    socket_open (some 3) (on_port 1 ∷ closed ∷ []) 1 0 ≡ ok (pos 1, on_port 1 ∷ on_port 2 ∷ [])
unfolding socket_open find_empty next_port port_used open_entry write
first_free_port = refl

close_frees : socket_close (on_port 1 ∷ closed ∷ []) 0 ≡ ok (closed ∷ closed ∷ [])
unfolding socket_close read write
close_frees = refl

socket_open-Yields_example :
    Yields
      (Opened (some 3) (on_port 1 ∷ closed ∷ []) 1 0)
      (socket_open (some 3) (on_port 1 ∷ closed ∷ []) 1 0)
socket_open-Yields_example = socket_open-Yields (some 3) (on_port 1 ∷ closed ∷ []) 1 0 (omega arith)
