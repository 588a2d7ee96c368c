-- ===== src/Tty/Queue.antt =====
-- The buffers of the terminal (buenos/drivers/tty.c) as queues.
use osm_re_exam.Prelude.{
  ℕ, zero, suc, ◌+◌, ◌-◌, ◌%◌, ◌≤◌, ◌<◌, ◌≡◌, ◌≢◌, refl, sym, ap, ◌∙◌, List, [], ◌∷◌, ◌++◌, length,
  get_or, set, length-set, get_or-set_self, get_or-set_ne, append_assoc, append-nil, ◌⊎◌, inl, inr,
  ◌==◌, ltb, arith, Bool-cases, ==→eq, ==→ne, ltb→lt, ltb→ge, ge→ltb,
}
use osm_re_exam.Prelude.Result.{read-ok, write-ok, Yields, yields, Yields-bind, Yields-mono}
use osm_re_exam.Tty.{Ring, tty_buf_size, push, pop, pop_loop, receive, receive_loop, fill_loop}

-- The `n` characters from `head` on.
abbrev pub from : List ℕ → ℕ → ℕ → List ℕ
from buf head zero = []
from buf head (suc n) = get_or buf head 0 ∷ from buf ((head + 1) % 2048) n

abbrev pub contents : Ring → List ℕ
contents r = from r.buf r.head r.count

pub record IsRing (r : Ring) : Type 0 where
  pub size : length r.buf ≡ tty_buf_size
  pub inside : r.head < tty_buf_size
  pub room : r.count ≤ tty_buf_size

length-from : (buf : List ℕ) (head n : ℕ) → length (from buf head n) ≡ n
length-from buf head zero = refl
length-from buf head (suc n) = ap suc (length-from buf ((head + 1) % 2048) n)

pub length-contents : (r : Ring) → length (contents r) ≡ r.count
length-contents r = length-from r.buf r.head r.count

-- A write at place `m` does not change what is before it.
from-set :
    (buf : List ℕ) (head m n c : ℕ)
    → head < 2048
    → m < 2048
    → n ≤ m
    → from (set buf ((head + m) % 2048) c) head n ≡ from buf head n
from-set buf head m zero c h k l = refl
from-set buf head m (suc n) c h k l =
    let ne : (head + m) % 2048 ≢ head = λ e. absurd (omega arith) in
    let shift : ((head + 1) % 2048 + (m - 1)) % 2048 ≡ (head + m) % 2048 = omega arith in
    ap (λ x. x ∷ from (set buf ((head + m) % 2048) c) ((head + 1) % 2048) n)
      (get_or-set_ne buf ((head + m) % 2048) head c 0 ne)
    ∙ ap (λ j. get_or buf head 0 ∷ from (set buf j c) ((head + 1) % 2048) n) (sym shift)
    ∙ ap (◌∷◌ (get_or buf head 0))
        (from-set buf ((head + 1) % 2048) (m - 1) n c (omega arith) (omega arith) (omega arith))

from-last :
    (buf : List ℕ) (head n : ℕ)
    → head < 2048
    → from buf head (n + 1) ≡ from buf head n ++ (get_or buf ((head + n) % 2048) 0 ∷ [])
from-last buf head zero h =
    let e : (head + 0) % 2048 ≡ head = omega arith in ap (λ j. get_or buf j 0 ∷ []) (sym e)
from-last buf head (suc n) h =
    let shift : ((head + 1) % 2048 + n) % 2048 ≡ (head + suc n) % 2048 = omega arith in
    let e : suc n + 1 ≡ suc (n + 1) = omega arith in
    ap (from buf head) e
    ∙ ap (◌∷◌ (get_or buf head 0)) (from-last buf ((head + 1) % 2048) n (omega arith))
    ∙ ap (λ j. get_or buf head 0 ∷ (from buf ((head + 1) % 2048) n ++ (get_or buf j 0 ∷ []))) shift

pub push-Yields :
    (r : Ring) (c : ℕ)
    → IsRing r
    → r.count < tty_buf_size
    → Yields
        (λ r'. IsRing r' × (contents r' ≡ contents r ++ (c ∷ [])) × (r'.count ≡ r.count + 1))
        (push r c)
unfolding push
push-Yields r c i h =
    let size = i.size in
    let inside = i.inside in
    let at = (r.head + r.count) % 2048 in
    rw (write-ok r.buf ((r.head + r.count) % 2048) c (omega arith)) (
      yields (
        record {
          size = length-set r.buf ((r.head + r.count) % 2048) c ∙ size;
          inside = inside;
          room = omega arith;
        },
        from-last (set r.buf ((r.head + r.count) % 2048) c) r.head r.count inside
            ∙ ap
                (λ l.
                  l
                  ++ (get_or (set r.buf ((r.head + r.count) % 2048) c) ((r.head + r.count) % 2048) 0
                      ∷ []))
                (from-set r.buf r.head r.count r.count c inside h (omega arith))
            ∙ ap (λ x. contents r ++ (x ∷ []))
                (get_or-set_self r.buf ((r.head + r.count) % 2048) c 0 (omega arith)),
        refl,
      ))

pub pop-Yields :
    (r : Ring)
    → IsRing r
    → r.count ≢ 0
    → Yields
        (λ p. IsRing p.1 × (contents r ≡ p.0 ∷ contents p.1) × (p.1.count ≡ r.count - 1))
        (pop r)
unfolding pop
pop-Yields r i h =
    let size = i.size in
    let inside = i.inside in
    let room = i.room in
    let e : r.count ≡ suc (r.count - 1) = omega arith in
    rw (read-ok r.buf r.head 0 (omega arith)) (
      yields (
        record { size = size; inside = omega arith; room = omega arith },
        ap (from r.buf r.head) e,
        refl,
      ))

-- What `pop_loop` takes: all of the buffer, or `len` characters.
pub pop_loop-Yields :
    (len : ℕ) (r : Ring)
    → IsRing r
    → Yields
        (λ p.
          IsRing p.1
          × (contents r ≡ p.0 ++ contents p.1)
          × (length p.0 + p.1.count ≡ r.count)
          × ((p.1.count ≡ 0) ⊎ (length p.0 ≡ len)))
        (pop_loop len r)
unfolding pop_loop
pop_loop-Yields zero r i = yields (i, refl, omega arith, inr refl)
pop_loop-Yields (suc len) r i = elim (Bool-cases (r.count == 0)) [
  | inl t ↦ rw t (yields (i, refl, omega arith, inl (==→eq r.count 0 t)))
  | inr t ↦
      let some_left = ==→ne r.count 0 t in
      rw t (
        Yields-bind _ (pop-Yields r i some_left) (λ p q.
          Yields-bind _ (pop_loop-Yields len p.1 q.0) (λ s k. yields (
            k.0,
            q.1 ∙ ap (◌∷◌ p.0) k.1,
            omega (arith, q.2, k.2, some_left),
            elim k.3 [ inl none_left ↦ inl none_left | inr all ↦ inr (ap suc all) ],
          ))))
]

-- What `fill_loop` puts behind the others: all of it, or as much as there is room.
pub fill_loop-Yields :
    (r : Ring) (cs : List ℕ)
    → IsRing r
    → Yields
        (λ p.
          IsRing p.0
          × (contents p.0 ++ p.1 ≡ contents r ++ cs)
          × (r.count ≤ p.0.count)
          × ((p.1 ≡ []) ⊎ (p.0.count ≡ tty_buf_size)))
        (fill_loop r cs)
unfolding fill_loop
fill_loop-Yields r [] i = yields (i, refl, omega arith, inl refl)
fill_loop-Yields r (c ∷ cs) i =
    let room = i.room in
    elim (Bool-cases (ltb r.count tty_buf_size)) [
      | inl t ↦ rw t (
          Yields-bind _ (push-Yields r c i (ltb→lt r.count tty_buf_size t)) (λ r1 q.
            Yields-mono (fill_loop-Yields r1 cs q.0) (λ p k. (
              k.0,
              k.1 ∙ ap (λ l. l ++ cs) q.1 ∙ append_assoc (contents r) (c ∷ []) cs,
              omega (arith, q.2, k.2),
              k.3,
            ))))
      | inr t ↦
          let full = ltb→ge r.count tty_buf_size t in
          rw t (yields (i, refl, omega arith, inr (omega arith)))
    ]

pub receive_loop-Yields :
    (r : Ring) (cs : List ℕ)
    → IsRing r
    → r.count + length cs ≤ tty_buf_size
    → Yields (λ r'. IsRing r' × (contents r' ≡ contents r ++ cs)) (receive_loop r cs)
unfolding receive_loop receive
receive_loop-Yields r [] i h = yields (i, sym (append-nil (contents r)))
receive_loop-Yields r (c ∷ cs) i h = rw (ge→ltb tty_buf_size r.count (omega arith)) (
    Yields-bind _ (push-Yields r c i (omega arith)) (λ r1 q.
      Yields-mono (receive_loop-Yields r1 cs q.0 (omega (arith, q.2, h)))
        (λ r2 k. (k.0, k.1 ∙ ap (λ l. l ++ cs) q.1 ∙ append_assoc (contents r) (c ∷ []) cs))))

-- A character that arrives when the buffer is full is stored nevertheless: it takes the place of the
-- oldest one, and the count is one more than the size of the buffer.
receive-full :
    (r : Ring) (c : ℕ)
    → IsRing r
    → r.count ≡ tty_buf_size
    → Yields (λ r'. (r'.count ≡ tty_buf_size + 1) × (get_or r'.buf r'.head 0 ≡ c)) (receive r c)
unfolding receive push
receive-full r c i full =
    let size = i.size in
    let inside = i.inside in
    let e : (r.head + r.count) % 2048 ≡ r.head = omega arith in
    rw (ge→ltb tty_buf_size r.count (omega arith), e, write-ok r.buf r.head c (omega arith))
      (yields (omega arith, get_or-set_self r.buf r.head c 0 (omega arith)))
