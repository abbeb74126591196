-- ===== src/Duplex/Watched.antt =====
-- A timer runs, or a retransmission is due, while something is unacknowledged or the window is 0, unless
-- `setitimer` does not take the interval.
use mathlib.Core.Option.{some-injective}
use tju_tcp.Common.{
  ℕ, ◌≡◌, ◌∙◌, refl, sym, ap, subst, some, none, Option, inl, inr, Bool, true, false, ◌&&◌, ◌||◌,
  not, ltb, ◌==◌, arith, Memory, Bool-cases,
}
use tju_tcp.Global.{Timeval, Itimerval, Sender, SenderWindow, Sock}
use tju_tcp.Packet.{get_ack}
use tju_tcp.Timer.{Timer, is_valid, is_zero, set_itimer, start_timer, sigalrm}
use tju_tcp.Connection.{tju_socket}
use tju_tcp.Ack.{
  handle_ack, handle_ack_kind, duplicate_ack, new_ack, slid, clean, retime, advertised, probe_later,
  with_timer,
}

-- `setitimer` starts the timer with the interval.
abbrev pub arms : SenderWindow → Bool
arms w = is_valid w.timeout && not (is_zero w.timeout.it_value)

abbrev pub is_armed : Option Itimerval → Bool
is_armed none = false
is_armed (some v) = true

abbrev pub covered : Sender → Timer → Bool
covered s t = is_armed t.armed || not (arms s.wnd_send)

pub record IsWatched (s : Sender) (t : Timer) : Type 0 where
  pub timed : (not (ltb s.base s.nextseq || s.window_size == 0) || t.retrans || covered s t) ≡ true
  pub asked : (not (s.is_retransing && s.base == s.nextseq) || t.retrans) ≡ true
  pub shut : (not (s.window_size == 0) || not s.is_retransing) ≡ true

pub covered-start_timer : (s : Sender) (t : Timer) → covered s (start_timer t s.wnd_send) ≡ true
unfolding start_timer set_itimer
covered-start_timer s t = ground arith

pub sigalrm-IsWatched :
    (s : Sender) (t : Timer) (v : Itimerval) → IsWatched s t → IsWatched s (sigalrm v t)
unfolding sigalrm
sigalrm-IsWatched s t v h = record { timed = ground arith; asked = ground arith; shut = h.shut }

-- The fields of the sender that count here.
pub record Alike (s s' : Sender) : Type 0 where
  pub base : s'.base ≡ s.base
  pub next : s'.nextseq ≡ s.nextseq
  pub size : s'.window_size ≡ s.window_size
  pub interval : s'.timeout ≡ s.timeout
  pub resends : s'.is_retransing ≡ s.is_retransing

pub Alike-IsWatched : (s s' : Sender) (t : Timer) → Alike s s' → IsWatched s t → IsWatched s' t
Alike-IsWatched s s' t k h = record {
  timed = rw (k.base, k.next, k.size, k.interval) h.timed;
  asked = rw (k.base, k.next, k.resends) h.asked;
  shut = rw (k.size, k.resends) h.shut;
}

retime-IsWatched :
    (s : Sender) (t : Timer)
    → (s.window_size == 0) ≡ false
    → IsWatched (retime s t).0 (retime s t).1
retime-IsWatched s t opened = elim (Bool-cases (s.base == s.nextseq)) [
  | inl all ↦ record { timed = ground arith; asked = ground arith; shut = ground arith }
  | inr some_left ↦ record {
    timed = ground (arith, covered-start_timer s t);
    asked = ground arith;
    shut = ground arith;
  }
]

clean-Alike : (heap : Memory) (s s' : Sender) → clean heap s ≡ some s' → Alike s s'
unfolding clean
clean-Alike heap s s' e = ground arith

-- The window is not 0 behind an ACK, before `probe_later` looks at it.
abbrev UnlessShut : Sender × Timer → Type 0
UnlessShut (s, t) = (s.window_size == 0) ≡ false → IsWatched s t

duplicate_ack-IsWatched :
    (s : Sender) (t : Timer)
    → IsWatched s t
    → ((duplicate_ack s t).0.window_size == 0) ≡ false
    → IsWatched (duplicate_ack s t).0 (duplicate_ack s t).1
unfolding duplicate_ack
duplicate_ack-IsWatched s t h opened = record {
  timed = ground (arith, h.timed);
  asked = ground (arith, h.asked);
  shut = ground arith;
}

new_ack-IsWatched :
    (heap : Memory) (now : Timeval) (s : Sender) (t : Timer) (ack : ℕ) (s' : Sender) (t' : Timer)
    → new_ack heap now s t ack ≡ some (s', t')
    → (s'.window_size == 0) ≡ false
    → IsWatched s' t'
unfolding new_ack
new_ack-IsWatched heap now s t ack s' t' e opened = cleaned_watched (clean heap r.0) refl
  where
    r : Sender × Timer
    r = retime (slid now s ack) t

    cleaned_watched : (o : Option Sender) → clean heap r.0 ≡ o → IsWatched s' t'
    cleaned_watched none c = cc
    cleaned_watched (some x) c =
        let same = some-injective (x, r.1) (s', t') (ap (with_timer r.1) (sym c) ∙ e) in
        let kept = clean-Alike heap r.0 x c in
        subst (λ (y : Sender × Timer). IsWatched y.0 y.1) same
          (Alike-IsWatched r.0 x r.1 kept (
            retime-IsWatched (slid now s ack) t (
              ground
                (arith, opened, kept.size, ap (λ (y : Sender × Timer). y.0.window_size) same))))

kind-IsWatched :
    (heap : Memory) (now : Timeval) (s : Sender) (t : Timer) (pkt : Memory) (s' : Sender)
    (t' : Timer)
    → IsWatched s t
    → handle_ack_kind heap now s t pkt ≡ some (s', t')
    → (s'.window_size == 0) ≡ false
    → IsWatched s' t'
unfolding handle_ack_kind
kind-IsWatched heap now s t pkt s' t' h e opened = elim (Bool-cases (ltb (get_ack pkt) s.base)) [
  | inl below ↦
      let same = some-injective _ (s', t') (rw below at e) in
      given _ same λ o. record {
        timed = ground (arith, h.timed, o);
        asked = h.asked;
        shut = ground (arith, o);
      }
  | inr above ↦ elim (Bool-cases (get_ack pkt == s.base)) [
    | inl at ↦
        given (duplicate_ack (advertised s pkt) t) (some-injective _ (s', t') (rw (above, at) at e))
          (duplicate_ack-IsWatched (advertised s pkt) t
            (record { timed = h.timed; asked = h.asked; shut = h.shut }))
    | inr other ↦
        new_ack-IsWatched heap now (advertised s pkt) t (get_ack pkt) s' t' (rw (above, other) at e)
          opened
  ]
]
  where
    given : (x : Sender × Timer) → x ≡ (s', t') → UnlessShut x → IsWatched s' t'
    given x same f = subst (λ (y : Sender × Timer). UnlessShut y) same f opened

probe_later-IsWatched :
    (s : Sender) (t : Timer) (s' : Sender) (t' : Timer)
    → ((s.window_size == 0) ≡ false → IsWatched s t)
    → probe_later (some (s, t)) ≡ some (s', t')
    → IsWatched s' t'
probe_later-IsWatched s t s' t' f e = elim (Bool-cases (s.window_size == 0)) [
  | inr opened ↦
      subst (λ (y : Sender × Timer). IsWatched y.0 y.1)
        (some-injective (s, t) (s', t') (rw opened at e)) (f opened)
  | inl shut ↦
      subst (λ (y : Sender × Timer). IsWatched y.0 y.1)
        (some-injective (record s { is_retransing = false }, start_timer t s.wnd_send) (s', t')
          (rw shut at e))
        (record {
          timed = ground (arith, covered-start_timer s t);
          asked = ground arith;
          shut = ground arith;
        })
]

pub handle_ack-IsWatched :
    (heap : Memory) (now : Timeval) (s : Sender) (t : Timer) (pkt : Memory) (s' : Sender)
    (t' : Timer)
    → IsWatched s t
    → handle_ack heap now s t pkt ≡ some (s', t')
    → IsWatched s' t'
unfolding handle_ack
handle_ack-IsWatched heap now s t pkt s' t' h e = go (handle_ack_kind heap now s t pkt) refl
  where
    go : (o : Option (Sender × Timer)) → handle_ack_kind heap now s t pkt ≡ o → IsWatched s' t'
    go none k = cc
    go (some (s1, t1)) k =
        probe_later-IsWatched s1 t1 s' t' (kind-IsWatched heap now s t pkt s1 t1 h k)
          (ap probe_later (sym k) ∙ e)

pub tju_socket-IsWatched :
    (heap : Memory) (junk : Sock) (t : Timer) → IsWatched (tju_socket heap junk).sender t
unfolding tju_socket
tju_socket-IsWatched heap junk t = record { timed = refl; asked = refl; shut = refl }
