-- ===== src/Duplex/Complete.antt =====
-- All that was written can still be delivered.
use tju_tcp.Common.{
  ℕ, zero, suc, ◌+◌, ◌-◌, ◌≤◌, ◌<◌, ◌≡◌, ◌≢◌, ◌⊎◌, ◌∙◌, inl, inr, arith, Memory, ltb, ltb→lt,
  Bool-cases, slice,
}
use tju_tcp.Global.{Timeval}
use tju_tcp.Timer.{Timer}
use tju_tcp.Receive.Window.{NoWrap}
use tju_tcp.Duplex.{Host, Link, Reach, Reach-trans, Step, here, next, left_acts, right_acts}
use tju_tcp.Duplex.Invariant.{IsDuplex, IsDuplex-swap, nextseq, base}
use tju_tcp.Duplex.Ways.{Way, Way-here, Way-trans, IsRefused, drains, opens}
use tju_tcp.Duplex.Rounds.{falls-Idle, resends_on, sends_on}

module _ (heap : Memory) (stream_a : ℕ → ℕ) (total_a : ℕ) (stream_b : ℕ → ℕ) (total_b : ℕ)
    (small_a : NoWrap total_a) (small_b : NoWrap total_b) where
  abbrev Both : Host → Host → Type 0
  Both = IsDuplex stream_a total_a stream_b total_b

  abbrev Ways : Host → Host → Link → Type 0
  Ways = Way heap stream_a total_a stream_b total_b

  base-le-nextseq : (a b : Host) → Both a b → base a ≤ nextseq a
  base-le-nextseq a b h = omega (arith, h.forth.sends.base, h.forth.sends.next, h.forth.sends.acked)

  nextseq-le-written : (a b : Host) → Both a b → nextseq a ≤ a.written
  nextseq-le-written a b h = omega (arith, h.forth.end, h.forth.sends.next, h.forth.sends.sent)

  -- While something is not acknowledged, there is a way on which `base` moves, or on which the interval
  -- comes to be refused.
  moves_with_window :
      (a b : Host) (now : Timeval)
      → Both a b
      → a.sock.sender.window_size ≢ 0
      → base a < a.written
      → (k : Link) × Ways a b k × ((base a < base k.left) ⊎ IsRefused k.left)
  moves_with_window a b now h opened more = elim (Bool-cases (ltb (base a) (nextseq a))) [
    | inl sent ↦
        resends_on heap stream_a total_a stream_b total_b small_a small_b a b now h opened
          (ltb→lt _ _ sent)
    | inr all ↦
        let (d, idle) =
          falls-Idle heap stream_a total_a stream_b total_b small_a small_b a b h opened
            (ground (arith, all, base-le-nextseq a b h)) in
        let w = idle.way in
        let (k, v, moved) =
          sends_on heap stream_a total_a stream_b total_b small_a small_b d.left d.right now
            w.duplex idle.opened idle.off
            (ground (arith, all, idle.same, idle.next, base-le-nextseq a b h))
            (omega (arith, idle.same, w.quiet.0, more)) in
        (
          k,
          Way-trans heap stream_a total_a stream_b total_b small_a small_b a b d k w v,
          inl (omega (arith, moved, w.onward)),
        )
  ]

  moves :
      (a b : Host) (now : Timeval)
      → Both a b
      → base a < a.written
      → (k : Link) × Ways a b k × ((base a < base k.left) ⊎ IsRefused k.left)
  moves a b now h more =
      let (d, w, what) = opens heap stream_a total_a stream_b total_b small_a small_b a b now h in
      elim what [
        | inl moved ↦ (d, w, inl moved)
        | inr (inr refused) ↦ (d, w, inr refused)
        | inr (inl opened) ↦ elim (Bool-cases (ltb (base a) (base d.left))) [
          | inl moved ↦ (d, w, inl (ltb→lt _ _ moved))
          | inr stays ↦
              let (k, v, then) =
                moves_with_window d.left d.right now w.duplex opened
                  (ground (arith, w.quiet.0, w.onward, more)) in
              (
                k,
                Way-trans heap stream_a total_a stream_b total_b small_a small_b a b d k w v,
                elim then [
                  | inl moved ↦ inl (omega (arith, moved, w.onward))
                  | inr refused ↦ inr refused
                ],
              )
        ]
      ]

  completes_within :
      (fuel : ℕ) (a b : Host) (now : Timeval)
      → Both a b
      → a.written - base a < fuel
      → (k : Link) × Ways a b k × ((base k.left ≡ k.left.written) ⊎ IsRefused k.left)
  completes_within zero a b now h lt = absurd (omega (arith, lt))
  completes_within (suc fuel) a b now h lt = elim (Bool-cases (ltb (base a) a.written)) [
    | inr done ↦ (
      record { left = a; right = b },
      Way-here heap stream_a total_a stream_b total_b small_a small_b a b h,
      inl (ground (arith, base-le-nextseq a b h, nextseq-le-written a b h)),
    )
    | inl more ↦
        let (d, w, what) = moves a b now h (ltb→lt _ _ more) in
        elim what [
          | inr refused ↦ (d, w, inr refused)
          | inl moved ↦
              let (k, v, done) =
                completes_within fuel d.left d.right now w.duplex
                  (ground (arith, lt, moved, w.quiet.0, more)) in
              (
                k,
                Way-trans heap stream_a total_a stream_b total_b small_a small_b a b d k w v,
                done,
              )
        ]
  ]

  -- A state where `b` has read all that was written.
  abbrev pub HasAll : Host → Link → Type 0
  HasAll a k = (n : ℕ) × (k.right.delivered ≡ slice stream_a 1 n) × (1 + n ≡ a.written)

  pub completes :
      (a b : Host) (now : Timeval)
      → Both a b
      → (k : Link) × Ways a b k × (HasAll a k ⊎ IsRefused k.left)
  completes a b now h =
      let (d, w, what) = completes_within (suc (a.written - base a)) a b now h (omega arith) in
      elim what [
        | inr refused ↦ (d, w, inr refused)
        | inl done ↦
            let (b', v, empty) =
              drains heap stream_a total_a stream_b total_b small_a small_b d.left d.right
                w.duplex in
            let k : Link = record { left = d.left; right = b' } in
            let all =
              Way-trans heap stream_a total_a stream_b total_b small_a small_b a b d k w v in
            let forth = all.duplex.forth in
            (
              k,
              all,
              inl (
                forth.given,
                forth.delivered,
                omega (
                  arith,
                  empty,
                  forth.position,
                  forth.holds.reach,
                  done,
                  all.quiet.0,
                  all.duplex.acked_a,
                  nextseq-le-written d.left b' all.duplex,
                ),
              ),
            )
      ]

-- The same with the sides exchanged.
abbrev mirror : Link → Link
mirror k = record { left = k.right; right = k.left }

module _ (heap : Memory) (stream_l : ℕ → ℕ) (total_l : ℕ) (stream_r : ℕ → ℕ) (total_r : ℕ) where
  Step-mirror :
      {m n : Link}
      → Step heap stream_r total_r stream_l total_l m n
      → Step heap stream_l total_l stream_r total_r (mirror m) (mirror n)
  Step-mirror (left_acts me peer act) = right_acts me peer act
  Step-mirror (right_acts me peer act) = left_acts me peer act

  Reach-mirror :
      {m n : Link}
      → Reach heap stream_r total_r stream_l total_l m n
      → Reach heap stream_l total_l stream_r total_r (mirror m) (mirror n)
  Reach-mirror here = here
  Reach-mirror (next r st) = next (Reach-mirror r) (Step-mirror st)

-- There is a way on to a state in which each application has read all that the other had written, or to
-- one where `setitimer` refuses the interval of a side.
abbrev pub Completes :
    (heap : Memory) (stream_l : ℕ → ℕ) (total_l : ℕ) (stream_r : ℕ → ℕ) (total_r : ℕ)
    → Link
    → Type 0
Completes heap stream_l total_l stream_r total_r k =
    (k' : Link) × Reach heap stream_l total_l stream_r total_r k k'
    × ((((n : ℕ) × (k'.right.delivered ≡ slice stream_l 1 n) × (1 + n ≡ k.left.written))
          × ((n : ℕ) × (k'.left.delivered ≡ slice stream_r 1 n) × (1 + n ≡ k.right.written)))
        ⊎ (IsRefused k'.left ⊎ IsRefused k'.right))

module _ (heap : Memory) (stream_l : ℕ → ℕ) (total_l : ℕ) (stream_r : ℕ → ℕ) (total_r : ℕ)
    (small_l : NoWrap total_l) (small_r : NoWrap total_r) where
  pub IsDuplex-Completes :
      (k : Link) (now : Timeval)
      → IsDuplex stream_l total_l stream_r total_r k.left k.right
      → Completes heap stream_l total_l stream_r total_r k
  IsDuplex-Completes k now h =
      let (d, w, what) =
        completes heap stream_l total_l stream_r total_r small_l small_r k.left k.right now h in
      elim what [
        | inr refused ↦ (d, w.reach, inr (inl refused))
        | inl (n, all, len) ↦
            let (e, v, then) =
              completes heap stream_r total_r stream_l total_l small_r small_l d.right d.left now
                (IsDuplex-swap _ _ _ _ d.left d.right w.duplex) in
            (
              mirror e,
              Reach-trans heap _ _ _ _ w.reach
                  (Reach-mirror heap stream_l total_l stream_r total_r v.reach),
              elim then [
                | inr refused ↦ inr (inr refused)
                | inl (n', all', len') ↦
                    inl ((n, v.quiet.2 ∙ all, len), (n', all', len' ∙ w.quiet.1))
              ],
            )
      ]
