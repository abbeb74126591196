-- ===== src/Syn.antt =====
-- syn.c: the queue of half-open connections and the queue of those that wait for `tju_accept`.
-- A socket is named by its pointer. The two locks make each function one step. An index is the `int`
-- that `cal_hash` gives; see `Kernel.Bounds`. `now` is what `clock()` gives.
pub mod Counts
pub mod Accept
pub mod Reach
mod Tests
use mathlib.Core.Option
use tju_tcp.Common.{
  ℕ, zero, suc, ◌+◌, ◌-◌, ◌/◌, ◌^◌, Bool, true, false, Option, none, some, Memory, ℤ, pos, u16, ltb,
  leb, ◌==◌, if◌then◌else◌,
}
use tju_tcp.Global.{SockAddr}
use tju_tcp.Packet.{get_src, get_dst}
use tju_tcp.Kernel.{max_sock, server_ip, client_ip, cal_hash, put_at}

abbrev pub syn_default_remands : ℕ
syn_default_remands = 10

-- CLOCKS_PER_SEC of POSIX.
abbrev pub clocks_per_sec : ℕ
clocks_per_sec = 1000000

-- `syn_elem`
pub record SynElem : Type 0 where
  pub sock : Option ℕ
  pub last_ack_time : ℕ
  pub remands : ℕ
  pub packet_syn_ack : Option Memory

pub record Queues : Type 0 where
  pub syn_queue : ℤ → SynElem
  pub syn_num : ℕ
  pub accept_queue : ℤ → Option ℕ
  pub accept_num : ℕ

abbrev pub is_null {ℓ} : {A : Type ℓ} → Option A → Bool
is_null none = true
is_null (some a) = false

-- for (i = 0; i < MAX_SOCK; i++) f[i] = a[f[i]];
abbrev pub in_array : ℤ → Bool
in_array (pos i) = ltb i max_sock
in_array _ = false

abbrev pub null_elem : SynElem → SynElem
null_elem e = record e { sock = none; packet_syn_ack = none }

unfoldable pub init_queue : Queues → Queues
init_queue q = record {
  syn_queue = λ i. if in_array i then null_elem (q.syn_queue i) else q.syn_queue i;
  syn_num = 0;
  accept_queue = λ i. if in_array i then none else q.accept_queue i;
  accept_num = 0;
}

-- The hash of the two ends of a connection.
abbrev pub hash_of : SockAddr → SockAddr → ℤ
hash_of l r = cal_hash l.ip l.port r.ip r.port

unfoldable pub en_syn_queue : ℕ → Queues → ℤ → ℕ → Memory → Queues
en_syn_queue now q hashval sock pkt =
    if is_null (q.syn_queue hashval).sock
    then record q {
      syn_queue = put_at q.syn_queue hashval (record {
        sock = some sock;
        last_ack_time = now;
        remands = syn_default_remands;
        packet_syn_ack = some pkt;
      });
      syn_num = u16 (q.syn_num + 1);
    }
    else q

unfoldable pub en_accept_queue : Queues → ℤ → ℕ → Queues
en_accept_queue q hashval sock =
    if is_null (q.accept_queue hashval)
    then record q {
      accept_queue = put_at q.accept_queue hashval (some sock);
      accept_num = u16 (q.accept_num + 1);
    }
    else q

-- The entry for the ports of the packet is taken out.
unfoldable pub get_from_syn : Queues → Memory → Option ℕ × Queues
get_from_syn q pkt =
    let hashval = cal_hash server_ip (get_dst pkt) client_ip (get_src pkt) in
    if q.syn_num == 0
    then (none, q)
    else (if is_null (q.syn_queue hashval).sock then (none, q) else (
      (q.syn_queue hashval).sock,
      record q {
        syn_queue = put_at q.syn_queue hashval (null_elem (q.syn_queue hashval));
        syn_num = u16 (q.syn_num + 2 ^ 16 - 1);
      },
    ))

abbrev take_at : ℤ → Option ℕ → Queues → Option ℕ × Queues → Option ℕ × Queues
take_at i none q rest = rest
take_at i (some sock) q rest = (
  some sock,
  record q {
    accept_queue = put_at q.accept_queue i none;
    accept_num = u16 (q.accept_num + 2 ^ 16 - 1);
  },
)

-- The search of `get_from_accept` over the `left` cells from `i` on.
first_accepted : Queues → ℕ → ℕ → Option ℕ × Queues
first_accepted q zero i = (none, q)
first_accepted q (suc left) i =
    take_at (pos i) (q.accept_queue (pos i)) q (first_accepted q left (i + 1))

-- Once `accept_num` is not 0, `get_from_accept` takes the socket with the lowest index; `none`: it
-- waits.
unfoldable pub get_from_accept : Queues → Option (Option ℕ × Queues)
unfolding first_accepted
get_from_accept q = if q.accept_num == 0 then none else some (first_accepted q max_sock 0)

-- What the maintenance thread does with an entry, and the packet that it sends.
unfoldable pub retransmit_elem : ℕ → SynElem → SynElem × Option Memory
retransmit_elem now e =
    if is_null e.sock
    then (e, none)
    else (if ltb 0 e.remands
        then (if leb 1 ((now - e.last_ack_time) / clocks_per_sec)
            then (record e { last_ack_time = now; remands = e.remands - 1 }, e.packet_syn_ack)
            else (e, none))
        else (null_elem e, none))

-- A round of `syn_retrans_thread` at index `i`: an entry that expires is dropped, `syn_num` stays.
unfoldable pub syn_retrans_round : ℕ → Queues → ℤ → Queues × Option Memory
unfolding retransmit_elem
syn_retrans_round now q i =
    let (e, packet) = retransmit_elem now (q.syn_queue i) in
    (record q { syn_queue = put_at q.syn_queue i e }, packet)

-- The index of round `n` of `syn_retrans_thread`: behind the last cell, `i=0` is followed by `i++`.
unfoldable pub retrans_index : ℕ → ℕ
retrans_index zero = 0
retrans_index (suc n) = let i = retrans_index n in if i == max_sock - 1 then 1 else i + 1
