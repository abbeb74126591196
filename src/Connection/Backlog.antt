-- ===== src/Connection/Backlog.antt =====
-- The way of a socket through the two queues of syn.c, from the SYN to `tju_accept`.

use tju_tcp.Common.{ℕ, ◌^◌, ◌<◌, ◌≡◌, ◌∙◌, sym, some, none, arith, Memory, pos, ◌==◌, if◌then◌else◌}
use tju_tcp.Packet.{get_src, get_dst}
use tju_tcp.Kernel.{server_ip, client_ip, cal_hash, max_sock}
use tju_tcp.Syn.{Queues, init_queue, en_syn_queue, en_accept_queue, get_from_syn, get_from_accept}
use tju_tcp.Syn.Counts.{
  IsCounted, init_queue-IsCounted, en_syn_queue-IsCounted, get_from_syn-IsCounted,
  en_accept_queue-IsCounted,
}
use tju_tcp.Syn.Accept.{get_from_accept-IsLowest, IsLowest, taken}

-- A socket goes through both queues: it enters the first one, a packet with its ports takes it out, it
-- enters the second one, and `get_from_accept` takes it from there.
module _ (clock : ℕ) (q : Queues) (k sock : ℕ) (lt : k < max_sock) (syn_ack pkt : Memory) where
  abbrev pub after_syn : Queues
  after_syn = en_syn_queue clock (init_queue q) (pos k) sock syn_ack

  pub get_from_syn-after_syn :
      cal_hash server_ip (get_dst pkt) client_ip (get_src pkt) ≡ pos k
      → (get_from_syn after_syn pkt).0 ≡ some sock
  unfolding get_from_syn en_syn_queue init_queue
  get_from_syn-after_syn e = rw e (ground arith)

  abbrev pub after_both : Queues
  after_both = en_accept_queue (get_from_syn after_syn pkt).1 (pos k) sock

  accept_num-after_both : after_both.accept_num ≡ 1
  unfolding get_from_syn en_syn_queue init_queue en_accept_queue
  accept_num-after_both = ground arith

  accept_queue-after_both :
      (j : ℕ)
      → j < max_sock
      → after_both.accept_queue (pos j) ≡ (if j == k then some sock else none)
  unfolding get_from_syn en_syn_queue init_queue en_accept_queue
  accept_queue-after_both j l = ground arith

  after_both-IsCounted : get_dst pkt < 2 ^ 16 → get_src pkt < 2 ^ 16 → IsCounted after_both
  after_both-IsCounted hd hs =
      en_accept_queue-IsCounted (get_from_syn after_syn pkt).1 (pos k) sock lt (
        get_from_syn-IsCounted after_syn pkt hd hs (
          en_syn_queue-IsCounted clock (init_queue q) (pos k) sock syn_ack lt
            (init_queue-IsCounted q).0))

  pub get_from_accept-after_both :
      get_dst pkt < 2 ^ 16
      → get_src pkt < 2 ^ 16
      → (rest : Queues) × (get_from_accept after_both ≡ some (some sock, rest))
  get_from_accept-after_both hd hs = at (
      get_from_accept-IsLowest after_both (after_both-IsCounted hd hs)
        (λ e. omega (arith, e, accept_num-after_both)))
    where
      at :
          (j : ℕ) × (s : ℕ) × (j < max_sock)
            × IsLowest after_both 0 j s
            × (get_from_accept after_both ≡ some (some s, taken after_both j))
            × IsCounted (taken after_both j)
          → (rest : Queues) × (get_from_accept after_both ≡ some (some sock, rest))
      at (j, s, l, lowest, e, c) =
          (taken after_both j, ground (arith, e, sym lowest.there ∙ accept_queue-after_both j l))
