-- ===== src/Syn/Accept.antt =====
-- `get_from_accept`: the socket that `tju_accept` is given.
use native.Mathlib.Decide.{ℕ_discrete}
use tju_tcp.Common.{
  ℕ, zero, suc, ◌+◌, ◌-◌, ◌^◌, ◌≤◌, ◌<◌, ◌≡◌, ◌≢◌, ap, u16, inl, inr, none, some, arith, pos,
  Option-cases, ◌⊎◌,
}
use tju_tcp.Kernel.{max_sock, put_at}
use tju_tcp.Syn.{Queues, is_null, first_accepted, get_from_accept}
use tju_tcp.Syn.Counts.{count-none, count-le, count-put_at, accept_empty, IsCounted}

-- The queues when the socket in cell `k` has been taken out.
abbrev pub taken : Queues → ℕ → Queues
taken q k = record q {
  accept_queue = put_at q.accept_queue (pos k) none;
  accept_num = u16 (q.accept_num + 2 ^ 16 - 1);
}

-- The lowest cell from `i` on that holds a socket.
pub record IsLowest (q : Queues) (i k sock : ℕ) : Type 0 where
  pub from : i ≤ k
  pub there : q.accept_queue (pos k) ≡ some sock
  pub below : (j : ℕ) → i ≤ j → j < k → q.accept_queue (pos j) ≡ none

-- The search finds the lowest cell, or all cells are empty.
first_accepted-IsLowest :
    (q : Queues) (left i : ℕ)
    → ((k : ℕ) × (sock : ℕ) × (k < i + left)
        × IsLowest q i k sock
        × (first_accepted q left i ≡ (some sock, taken q k)))
      ⊎ ((j : ℕ) → i ≤ j → j < i + left → q.accept_queue (pos j) ≡ none)
unfolding first_accepted
first_accepted-IsLowest q zero i = inr (λ j a b. absurd (omega arith))
first_accepted-IsLowest q (suc left) i =
    at (Option-cases (q.accept_queue (pos i))) (first_accepted-IsLowest q left (i + 1))
  where
    at :
        (q.accept_queue (pos i) ≡ none) ⊎ ((sock : ℕ) × (q.accept_queue (pos i) ≡ some sock))
        → ((k : ℕ) × (sock : ℕ) × (k < i + 1 + left)
            × IsLowest q (i + 1) k sock
            × (first_accepted q left (i + 1) ≡ (some sock, taken q k)))
          ⊎ ((j : ℕ) → i + 1 ≤ j → j < i + 1 + left → q.accept_queue (pos j) ≡ none)
        → ((k : ℕ) × (sock : ℕ) × (k < i + suc left)
            × IsLowest q i k sock
            × (first_accepted q (suc left) i ≡ (some sock, taken q k)))
          ⊎ ((j : ℕ) → i ≤ j → j < i + suc left → q.accept_queue (pos j) ≡ none)
    at (inr (sock, e)) rest = inl (
      i,
      sock,
      omega arith,
      record { from = omega arith; there = e; below = λ j a b. absurd (omega arith) },
      rw e,
    )
    at (inl empty) (inl (k, sock, lt, lowest, e)) = inl (
      k,
      sock,
      omega arith,
      record {
        from = omega (arith, lowest.from);
        there = lowest.there;
        below = λ j a b. elim (ℕ_discrete i j) [
          | yes same ↦ ground (arith, ap q.accept_queue (ap pos same))
          | no other ↦ lowest.below j (omega arith) b
        ];
      },
      rw empty e,
    )
    at (inl empty) (inr none_later) = inr λ j a b. elim (ℕ_discrete i j) [
      | yes same ↦ ground (arith, ap q.accept_queue (ap pos same))
      | no other ↦ none_later j (omega arith) (omega arith)
    ]

taken-IsCounted :
    (q : Queues) (k sock : ℕ)
    → k < max_sock
    → q.accept_queue (pos k) ≡ some sock
    → IsCounted q
    → IsCounted (taken q k)
taken-IsCounted q k sock lt there c = record {
  syn = c.syn;
  accept = ground (
    arith,
    c.accept,
    ap is_null there,
    count-le (accept_empty q) max_sock,
    count-put_at is_null q.accept_queue k none lt,
  );
}

-- When the counters are right and `accept_num` is not 0, `get_from_accept` returns a socket, and
-- never null: the one in the lowest cell in use. It leaves the queue, and the counters stay right.
pub get_from_accept-IsLowest :
    (q : Queues)
    → IsCounted q
    → q.accept_num ≢ 0
    → (k : ℕ) × (sock : ℕ) × (k < max_sock)
      × IsLowest q 0 k sock
      × (get_from_accept q ≡ some (some sock, taken q k))
      × IsCounted (taken q k)
unfolding get_from_accept
get_from_accept-IsLowest q c more = found (first_accepted-IsLowest q max_sock 0)
  where
    found :
        ((k : ℕ) × (sock : ℕ) × (k < 0 + max_sock)
            × IsLowest q 0 k sock
            × (first_accepted q max_sock 0 ≡ (some sock, taken q k)))
          ⊎ ((j : ℕ) → 0 ≤ j → j < 0 + max_sock → q.accept_queue (pos j) ≡ none)
        → (k : ℕ) × (sock : ℕ) × (k < max_sock)
          × IsLowest q 0 k sock
          × (get_from_accept q ≡ some (some sock, taken q k))
          × IsCounted (taken q k)
    found (inl (k, sock, lt, lowest, e)) = (
      k,
      sock,
      omega arith,
      lowest,
      ground (arith, e),
      taken-IsCounted q k sock (omega arith) lowest.there c,
    )
    found (inr empty) = absurd (
        omega (
          arith,
          c.accept,
          count-none (accept_empty q) max_sock
              (λ j lt. ap is_null (empty j (omega arith) (omega arith))),
        ))
