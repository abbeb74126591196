-- ===== src/Ack/Cases.antt =====
-- The three kinds of ACK, told apart by what they do to the window. The timer, the buffers and
-- `is_retransing`, which come after, leave these fields alone.
use mathlib.Core.Option.{some-injective}
use tju_tcp.Common.{
  ℕ, ◌<◌, ◌≡◌, refl, sym, subst, ◌∙◌, ap, inl, inr, Option, some, none, arith, Memory, ltb, ◌==◌,
  Bool-cases, ltb→lt,
}
use tju_tcp.Global.{Timeval, Sender}
use tju_tcp.Packet.{get_ack}
use tju_tcp.Timer.{Timer}
use tju_tcp.Ack.{
  handle_ack, handle_ack_kind, duplicate_ack, new_ack, slid, clean, retime, advertised, update_size,
  probe_later, with_timer,
}

pub record Kept (s s' : Sender) : Type 0 where
  pub window_size : s'.window_size ≡ s.window_size
  pub cwnd : s'.cwnd ≡ s.cwnd
  pub rwnd : s'.rwnd ≡ s.rwnd
  pub ssthresh : s'.ssthresh ≡ s.ssthresh
  pub window_status : s'.window_status ≡ s.window_status
  pub same_ack_cnt : s'.same_ack_cnt ≡ s.same_ack_cnt
  pub base : s'.base ≡ s.base
  pub nextseq : s'.nextseq ≡ s.nextseq

Kept-trans : (a b c : Sender) → Kept a b → Kept b c → Kept a c
Kept-trans a b c h k = record {
  window_size = k.window_size ∙ h.window_size;
  cwnd = k.cwnd ∙ h.cwnd;
  rwnd = k.rwnd ∙ h.rwnd;
  ssthresh = k.ssthresh ∙ h.ssthresh;
  window_status = k.window_status ∙ h.window_status;
  same_ack_cnt = k.same_ack_cnt ∙ h.same_ack_cnt;
  base = k.base ∙ h.base;
  nextseq = k.nextseq ∙ h.nextseq;
}

retime-Kept : (s : Sender) (t : Timer) → Kept s (retime s t).0
retime-Kept s t = ground arith

clean-Kept : (heap : Memory) (s s' : Sender) → clean heap s ≡ some s' → Kept s s'
unfolding clean
clean-Kept heap s s' e = ground arith

same_sender :
    (s s' : Sender) (t t' : Timer)
    → ◌≡◌ {A = Option (Sender × Timer)} (some (s, t)) (some (s', t'))
    → s ≡ s'
same_sender s s' t t' e = ap (λ (x : Sender × Timer). x.0) (some-injective (s, t) (s', t') e)

with_timer-some :
    (t : Timer) (o : Option Sender) (s' : Sender) (t' : Timer)
    → with_timer t o ≡ some (s', t')
    → o ≡ some s'
with_timer-some t none s' t' e = cc
with_timer-some t (some s) s' t' e = ap some (same_sender s s' t t' e)

new_ack-Kept :
    (heap : Memory) (now : Timeval) (s : Sender) (t : Timer) (ack : ℕ) (s' : Sender) (t' : Timer)
    → new_ack heap now s t ack ≡ some (s', t')
    → Kept (slid now s ack) s'
unfolding new_ack
new_ack-Kept heap now s t ack s' t' e =
    Kept-trans _ _ s' (retime-Kept (slid now s ack) t)
      (clean-Kept heap (retime (slid now s ack) t).0 s' (with_timer-some _ _ s' t' e))

probe_later-Kept :
    (o : Option (Sender × Timer)) (s' : Sender) (t' : Timer)
    → probe_later o ≡ some (s', t')
    → (s : Sender) × (t : Timer) × (o ≡ some (s, t)) × Kept s s'
probe_later-Kept none s' t' e = cc
probe_later-Kept (some (s, t)) s' t' e = (s, t, refl, ground arith)

-- What kind of ACK it was.
pub data Kind (now : Timeval) (s : Sender) (t : Timer) (pkt : Memory) (s' : Sender) : Type 0 where
  old :
      get_ack pkt < s.base
      → Kept (record (advertised s pkt) { wnd_send = update_size (advertised s pkt).wnd_send }) s'
      → Kind now s t pkt s'
  duplicate :
      get_ack pkt ≡ s.base → Kept (duplicate_ack (advertised s pkt) t).0 s' → Kind now s t pkt s'
  new :
      s.base < get_ack pkt
      → Kept (slid now (advertised s pkt) (get_ack pkt)) s'
      → Kind now s t pkt s'

pub handle_ack-Kind :
    (heap : Memory) (now : Timeval) (s : Sender) (t : Timer) (pkt : Memory) (s' : Sender)
    (t' : Timer)
    → handle_ack heap now s t pkt ≡ some (s', t')
    → Kind now s t pkt s'
unfolding handle_ack handle_ack_kind
handle_ack-Kind heap now s t pkt s' t' e = kind (probe_later-Kept _ s' t' e)
  where
    by : (s1 s2 : Sender) → s2 ≡ s1 → Kept s1 s' → Kept s2 s'
    by s1 s2 same k = subst (λ x. Kept x s') (sym same) k

    kind :
        (s1 : Sender) × (t1 : Timer) × (handle_ack_kind heap now s t pkt ≡ some (s1, t1))
          × Kept s1 s'
        → Kind now s t pkt s'
    kind (s1, t1, e1, k) = elim (Bool-cases (ltb (get_ack pkt) s.base)) [
      | inl below ↦ old (ltb→lt _ _ below) (by s1 _ (same_sender _ s1 _ t1 (rw below at e1)) k)
      | inr above ↦ elim (Bool-cases (get_ack pkt == s.base)) [
        | inl same ↦ duplicate (ground arith) (
            by s1 _
              (same_sender (duplicate_ack (advertised s pkt) t).0 s1
                (duplicate_ack (advertised s pkt) t).1 t1 (rw (above, same) at e1))
              k)
        | inr other ↦ new (ground arith) (
            Kept-trans _ s1 s'
              (new_ack-Kept heap now (advertised s pkt) t (get_ack pkt) s1 t1
                (rw (above, other) at e1))
              k)
      ]
    ]
