-- ===== src/Tty/Calls.antt =====
-- The calls of buenos/drivers/tty.c: what each does to the queues.
use osm_re_exam.Prelude.{
  ℕ, ◌+◌, ◌≤◌, ◌<◌, ◌≡◌, ◌≢◌, refl, sym, ap, ◌∙◌, List, [], ◌∷◌, ◌++◌, length, append-nil,
  length-append, ◌⊎◌, inl, inr, Bool, true, false, Option, none, some, ◌==◌, if◌then◌else◌, ltb,
  arith, Bool-cases, ==→eq, ==→ne, ltb→lt, ltb→ge,
}
use osm_re_exam.Prelude.Result.{ok, ◌>>=◌, Yields, yields, Yields-bind}
use osm_re_exam.Tty.{
  Ring, Tty, tty_buf_size, TtyStatus, Handled, pop, handle_write, handle_read, tty_interrupt_handle,
  write_round, tty_read,
}
use osm_re_exam.Tty.Queue.{
  from, contents, IsRing, length-contents, pop-Yields, pop_loop-Yields, fill_loop-Yields,
  receive_loop-Yields,
}

pub record IsTty (tty : Tty) : Type 0 where
  pub reads : IsRing tty.read_ring
  pub writes : IsRing tty.write_ring

-- What was typed and reaches the driver.
abbrev pub arrived : TtyStatus → List ℕ
arrived s = if s.rirq then s.typed else []

pub record Interrupted (s : TtyStatus) (tty : Tty) (h : Handled) (tty' : Tty) : Type 0 where
  pub whole : IsTty tty'
  pub output : contents tty.write_ring ≡ h.sent ++ contents tty'.write_ring
  pub input : contents tty'.read_ring ≡ contents tty.read_ring ++ arrived s
  pub writers :
      (tty'.write_ring.count ≢ 0) ⊎ ((h.wakes_writers ≡ true) ⊎ (tty.write_ring.count ≡ 0))
  pub readers : (h.wakes_readers ≡ true) ⊎ (tty'.read_ring ≡ tty.read_ring)

record Drained (s : TtyStatus) (tty : Tty) (h : Handled) (tty' : Tty) : Type 0 where
  whole : IsTty tty'
  output : contents tty.write_ring ≡ h.sent ++ contents tty'.write_ring
  same : tty'.read_ring ≡ tty.read_ring
  writers : (tty'.write_ring.count ≢ 0) ⊎ ((h.wakes_writers ≡ true) ⊎ (tty.write_ring.count ≡ 0))

handle_write-Yields :
    (s : TtyStatus) (tty : Tty)
    → IsTty tty
    → Yields (λ p. Drained s tty p.0 p.1) (handle_write s tty)
unfolding handle_write
handle_write-Yields s tty i = elim (Bool-cases s.wirq) [
  | inl t ↦ rw t (
      Yields-bind _ (pop_loop-Yields s.room tty.write_ring i.writes) (λ p k. yields (record {
        whole = record { reads = i.reads; writes = k.0 };
        output = k.1;
        same = refl;
        writers = elim (Bool-cases (p.1.count == 0)) [
          | inl none_left ↦ inr (inl none_left)
          | inr some_left ↦ inl (==→ne p.1.count 0 some_left)
        ];
      })))
  | inr t ↦ rw t (
      yields (record {
        whole = i;
        output = refl;
        same = refl;
        writers = elim (Bool-cases (tty.write_ring.count == 0)) [
          | inl none_left ↦ inr (inr (==→eq tty.write_ring.count 0 none_left))
          | inr some_left ↦ inl (==→ne tty.write_ring.count 0 some_left)
        ];
      }))
]

pub tty_interrupt_handle-Yields :
    (s : TtyStatus) (tty : Tty)
    → IsTty tty
    → s.error ≡ false
    → tty.read_ring.count + length (arrived s) ≤ tty_buf_size
    → Yields (λ p. Interrupted s tty p.0 p.1) (tty_interrupt_handle s tty)
unfolding tty_interrupt_handle handle_read
tty_interrupt_handle-Yields s tty i no_error fits =
    Yields-bind _ (handle_write-Yields s tty i) (λ p d. elim (Bool-cases s.rirq) [
      | inl t ↦
          let a : arrived s ≡ s.typed = rw t refl in
          let room : p.1.read_ring.count + length s.typed ≤ tty_buf_size =
            omega (arith, fits, ap (λ r. r.count) d.same, ap length a) in
          rw (t, no_error)
            (Yields-bind _ (receive_loop-Yields p.1.read_ring s.typed d.whole.reads room) (λ r k.
              yields (record {
                whole = record { reads = k.0; writes = d.whole.writes };
                output = d.output;
                input = k.1 ∙ ap (λ q. contents q ++ s.typed) d.same;
                writers = d.writers;
                readers = inl refl;
              })))
      | inr t ↦ rw t (
          yields (record {
            whole = d.whole;
            output = d.output;
            input = ap contents d.same ∙ sym (append-nil (contents tty.read_ring));
            writers = d.writers;
            readers = inr d.same;
          }))
    ])

-- What a round of `tty_write` does; it sleeps exactly if the buffer is not empty.
pub data Round (tty : Tty) (cs : List ℕ) : Option (List ℕ × Tty × List ℕ) → Type 0 where
  sleeps : tty.write_ring.count ≢ 0 → Round tty cs none
  writes :
      {sent rest : List ℕ} {tty' : Tty} (new : List ℕ)
      → tty.write_ring.count ≡ 0
      → IsTty tty'
      → tty'.read_ring ≡ tty.read_ring
      → cs ≡ new ++ rest
      → length rest < length cs
      → contents tty.write_ring ++ new ≡ sent ++ contents tty'.write_ring
      → Round tty cs (some (sent, tty', rest))

pub write_round-Yields :
    (busy : Bool) (tty : Tty) (cs : List ℕ)
    → IsTty tty
    → cs ≢ []
    → Yields (Round tty cs) (write_round busy tty cs)
unfolding write_round
write_round-Yields busy tty cs i some_left = elim (Bool-cases (ltb 0 tty.write_ring.count)) [
  | inl t ↦
      let pending = ltb→lt 0 tty.write_ring.count t in
      rw t (yields (sleeps (λ e. absurd (omega arith))))
  | inr t ↦
      let idle : tty.write_ring.count ≡ 0 = omega (arith, ltb→ge 0 tty.write_ring.count t) in
      let nothing : contents tty.write_ring ≡ [] =
        ap (from tty.write_ring.buf tty.write_ring.head) idle in
      rw t (
        Yields-bind _ (fill_loop-Yields tty.write_ring cs i.writes) (λ p k.
          let split : cs ≡ contents p.0 ++ p.1 = sym (k.1 ∙ ap (λ l. l ++ cs) nothing) in
          let sizes = ap length split ∙ length-append (contents p.0) p.1 in
          let filled : p.0.count ≢ 0 = taken p.0 p.1 split k.3 in
          let shorter : length p.1 < length cs =
            omega (arith, filled, sizes, length-contents p.0) in
          elim busy
            as (λ b. Yields (Round tty cs) (
              if b
              then ok (some ([], record tty { write_ring = p.0 }, p.1))
              else (pop p.0 >>= λ q. ok (some (q.0 ∷ [], record tty { write_ring = q.1 }, p.1))))) [
                | true ↦ yields (
                    writes (contents p.0) idle (record { reads = i.reads; writes = k.0 }) refl split
                      shorter (ap (λ l. l ++ contents p.0) nothing))
                | false ↦ Yields-bind _ (pop-Yields p.0 k.0 filled) (λ q j. yields (
                    writes (contents p.0) idle (record { reads = i.reads; writes = j.0 }) refl split
                      shorter (ap (λ l. l ++ contents p.0) nothing ∙ j.1)))
              ]))
]
  where
    taken :
        (r : Ring) (rest : List ℕ)
        → cs ≡ contents r ++ rest
        → (rest ≡ []) ⊎ (r.count ≡ tty_buf_size)
        → r.count ≢ 0
    taken r rest e (inl done) z =
        some_left
          (e ∙ ap (λ l. contents r ++ l) done ∙ append-nil (contents r) ∙ ap (from r.buf r.head) z)
    taken r rest e (inr full) z = absurd (omega arith)

-- What `tty_read` does; it sleeps exactly if the buffer is empty.
pub data Reading (tty : Tty) (len : ℕ) : Option (List ℕ × Tty) → Type 0 where
  sleeps : tty.read_ring.count ≡ 0 → Reading tty len none
  reads :
      {cs : List ℕ} {tty' : Tty}
      → IsTty tty'
      → tty'.write_ring ≡ tty.write_ring
      → tty.read_ring.count ≢ 0
      → (tty'.read_ring.count ≡ 0) ⊎ (length cs ≡ len)
      → contents tty.read_ring ≡ cs ++ contents tty'.read_ring
      → Reading tty len (some (cs, tty'))

pub tty_read-Yields :
    (tty : Tty) (len : ℕ) → IsTty tty → Yields (Reading tty len) (tty_read tty len)
unfolding tty_read
tty_read-Yields tty len i = elim (Bool-cases (tty.read_ring.count == 0)) [
  | inl t ↦ rw t (yields (sleeps (==→eq tty.read_ring.count 0 t)))
  | inr t ↦ rw t (
      Yields-bind _ (pop_loop-Yields len tty.read_ring i.reads) (λ p k. yields (
        reads (record { reads = k.0; writes = i.writes }) refl (==→ne tty.read_ring.count 0 t) k.3
          k.1)))
]
