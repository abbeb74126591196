-- ===== src/Timer/Rto.antt =====
-- The retransmission interval, and whether the timer starts with it.
use tju_tcp.Common.{◌+◌, ◌*◌, ◌≤◌, ◌<◌, ◌≡◌, some, false, arith}
use tju_tcp.Global.{Timeval, SenderWindow}
use tju_tcp.Timer.{Timer, usec_per_sec, start_timer, sample_rtt, cal_timeout}

-- The interval is one that `setitimer` takes, and stays so.
pub record IsTimely (w : SenderWindow) : Type 0 where
  pub estmated : w.estmated_rtt ≤ 200000
  pub dev : w.dev_rtt ≤ 199999
  pub interval : w.timeout.it_interval.tv_usec < usec_per_sec
  pub value : w.timeout.it_value.tv_usec < usec_per_sec

-- An interval below a second, with its estimate at most 200 ms and its deviation below that, stays
-- so after a sample of at most 200 ms.
pub cal_timeout-IsTimely :
    (w : SenderWindow) (now : Timeval)
    → IsTimely w
    → sample_rtt w now ≤ 200000
    → IsTimely (cal_timeout w now)
unfolding cal_timeout
cal_timeout-IsTimely w now h le = ground arith

-- An interval below a second and not zero starts the timer, and both flags are cleared.
pub start_timer-armed :
    (t : Timer) (w : SenderWindow)
    → IsTimely w
    → 0 < w.timeout.it_value.tv_usec
    → start_timer t w ≡ record { retrans = false; timeout_flag = false; armed = some w.timeout }
unfolding start_timer
start_timer-armed t w h more = ground arith

-- An interval of a second or more is refused by `setitimer`, since `tv_sec` stays 0: `startTimer` then
-- leaves the timer as it was.
pub start_timer-cal_timeout_refused :
    (t : Timer) (w : SenderWindow) (now : Timeval)
    → usec_per_sec ≤ (cal_timeout w now).estmated_rtt + 4 * (cal_timeout w now).dev_rtt
    → (start_timer t (cal_timeout w now)).armed ≡ t.armed
unfolding cal_timeout start_timer
start_timer-cal_timeout_refused t w now h = ground arith
