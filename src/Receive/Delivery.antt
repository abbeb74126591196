-- ===== src/Receive/Delivery.antt =====
-- What `tju_recv` gives the application, over a whole run of packets and calls.
use tju_tcp.Common.{
  ℕ, ◌+◌, ◌-◌, ◌≤◌, ◌<◌, ◌≡◌, refl, ◌∙◌, ap, Option, some, none, List, [], ◌∷◌, ◌++◌, arith, Memory,
  slice, slice-ext, slice-append, min, ltb, ◌==◌, Bool-cases, inl, inr,
}
use tju_tcp.Global.{Receiver}
use tju_tcp.Receive.{handle_data, after_read, tju_recv}
use tju_tcp.Receive.Window.{Holds, Carries, NoWrap, handle_data-Keeps}

-- The number of the byte that the application reads next.
abbrev pub next_byte : Receiver → ℕ
next_byte r = r.expect_seq - r.received_len

expect_seq-after_read :
    (heap : Memory) (r : Receiver) (n : ℕ) → (after_read heap r n).expect_seq ≡ r.expect_seq
unfolding after_read
expect_seq-after_read heap r n = ground arith

tju_recv-none :
    (heap : Memory) (r : Receiver) (len : ℕ) → r.received_len ≡ 0 → tju_recv heap r len ≡ none
unfolding tju_recv
tju_recv-none heap r len e = ground arith

module _ (stream : ℕ → ℕ) (limit : ℕ) where
  after_read-Holds :
      (heap : Memory) (r : Receiver) (n : ℕ)
      → Holds stream limit r
      → n ≤ r.received_len
      → Holds stream limit (after_read heap r n)
  unfolding after_read
  after_read-Holds heap r n h le = elim (Bool-cases (ltb n r.received_len)) [
    | inl some_left ↦ rw some_left (record {
      low = omega (arith, h.low);
      reach = h.reach;
      room = omega (arith, h.room);
      left_low = h.left_low;
      left_high = h.left_high;
      last = h.last;
      within = h.within;
      marked = h.marked;
      received = λ i l. ground (arith, h.received (n + i), h.low);
    })
    | inr all_read ↦ rw all_read (record {
      low = omega (arith, h.low);
      reach = h.reach;
      room = omega arith;
      left_low = h.left_low;
      left_high = h.left_high;
      last = h.last;
      within = h.within;
      marked = h.marked;
      received = λ i l. absurd (omega arith);
    })
  ]

  next_byte-after_read :
      (heap : Memory) (r : Receiver) (n : ℕ)
      → Holds stream limit r
      → n ≤ r.received_len
      → next_byte (after_read heap r n) ≡ next_byte r + n
  unfolding after_read
  next_byte-after_read heap r n h le = ground (arith, h.low)

  -- When a receiver that holds the stream has received something, `tju_recv` gives the application
  -- the next bytes of the stream, `len` or as many as there are; what is left is still the stream,
  -- behind those bytes.
  pub tju_recv-slice :
      (heap : Memory) (r : Receiver) (len : ℕ)
      → Holds stream limit r
      → 0 < r.received_len
      → let n = min len r.received_len in
        (r' : Receiver) × (tju_recv heap r len ≡ some (slice stream (next_byte r) n, r'))
        × Holds stream limit r'
        × (next_byte r' ≡ next_byte r + n)
        × (r'.expect_seq ≡ r.expect_seq)
  unfolding tju_recv
  tju_recv-slice heap r len h there = (
    after_read heap r (min len r.received_len),
    ground (arith, same),
    after_read-Holds heap r _ h (omega arith),
    next_byte-after_read heap r _ h (omega arith),
    expect_seq-after_read heap r _,
  )
    where
      same :
          slice r.received_buf 0 (min len r.received_len)
          ≡ slice stream (next_byte r) (min len r.received_len)
      same = slice-ext r.received_buf stream 0 (next_byte r) _ λ t lt. ground (arith, h.received t)

-- What happens to a receiver: a data packet comes, or the application calls `tju_recv`.
pub data Event : Type 0 where
  packet : Memory → Memory → Event
  call : Memory → ℕ → Event

abbrev pub prepend : List ℕ → Option (List ℕ × Receiver) → Option (List ℕ × Receiver)
prepend out none = none
prepend out (some (more, r)) = some (out ++ more, r)

-- All that the application is given, in order. A call that blocks gives it nothing.
pub run : Receiver → List Event → Option (List ℕ × Receiver)
run r [] = some ([], r)
run r (packet heap pkt ∷ es) = elim (handle_data heap r pkt) [ none ↦ none | some r' ↦ run r' es ]
run r (call heap len ∷ es) = elim (tju_recv heap r len) [
  | none ↦ run r es
  | some (out, r') ↦ prepend out (run r' es)
]

run-packet :
    (heap : Memory) (r r1 : Receiver) (pkt : Memory) (es : List Event)
    → handle_data heap r pkt ≡ some r1
    → run r (packet heap pkt ∷ es) ≡ run r1 es
unfolding run
run-packet heap r r1 pkt es e = rw (e, run)

run-blocked :
    (heap : Memory) (r : Receiver) (len : ℕ) (es : List Event)
    → r.received_len ≡ 0
    → run r (call heap len ∷ es) ≡ run r es
unfolding run
run-blocked heap r len es e = rw (tju_recv-none heap r len e, run)

run-call :
    (heap : Memory) (r r1 : Receiver) (len : ℕ) (es : List Event) (out : List ℕ)
    → tju_recv heap r len ≡ some (out, r1)
    → run r (call heap len ∷ es) ≡ prepend out (run r1 es)
unfolding run
run-call heap r r1 len es out e = rw (e, run)

abbrev pub AllCarry : (ℕ → ℕ) → ℕ → List Event → Type 0
AllCarry stream limit [] = Unit
AllCarry stream limit (packet heap pkt ∷ es) = Carries stream limit pkt × AllCarry stream limit es
AllCarry stream limit (call heap len ∷ es) = AllCarry stream limit es

-- A receiver that holds the stream, whose numbers do not wrap, gets packets of it, in any order,
-- lost or repeated, and the application calls `tju_recv` whenever it likes. No step leaves a
-- buffer, and what the application has been given is the stream from where it was, in order, with
-- no byte missing, repeated or changed.
pub run-slice :
    (stream : ℕ → ℕ) (limit : ℕ) (r : Receiver) (es : List Event)
    → NoWrap limit
    → Holds stream limit r
    → AllCarry stream limit es
    → (n : ℕ) × (r' : Receiver) × (run r es ≡ some (slice stream (next_byte r) n, r'))
      × Holds stream limit r'
      × (next_byte r' ≡ next_byte r + n)
unfolding run slice
run-slice stream limit r [] small h all = (0, r, refl, h, omega arith)
run-slice stream limit r (packet heap pkt ∷ es) small h all =
    let (r1, e, kept) = handle_data-Keeps stream limit small heap r pkt h all.0 in
    let (n, r2, e2, h2, pos) = run-slice stream limit r1 es small kept.holds all.1 in
    let same : next_byte r1 ≡ next_byte r = omega (arith, kept.position, kept.holds.low, h.low) in
    (n, r2, run-packet heap r r1 pkt es e ∙ rw (← same) e2, h2, pos ∙ ap (λ q. q + n) same)
run-slice stream limit r (call heap len ∷ es) small h all =
    elim (Bool-cases (r.received_len == 0)) [
      | inl blocks ↦
          let (n, r2, e2, h2, pos) = run-slice stream limit r es small h all in
          (n, r2, run-blocked heap r len es (ground arith) ∙ e2, h2, pos)
      | inr there ↦
          let (r1, e, h1, next, _) = tju_recv-slice stream limit heap r len h (ground arith) in
          let (n, r2, e2, h2, pos) = run-slice stream limit r1 es small h1 all in
          let m = min len r.received_len in
          (
            m + n,
            r2,
            run-call heap r r1 len es _ e ∙ rw (e2, slice-append stream (next_byte r) m n, next),
            h2,
            omega (arith, pos, next),
          )
    ]
