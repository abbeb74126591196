-- ===== src/Timer/Tests.antt =====
-- The interval after a sample of 30 ms.
use tju_tcp.Common.{◌≡◌, refl, arith}
use tju_tcp.Global.{Timeval}
use tju_tcp.Timer.{start_timer, cal_timeout}
use tju_tcp.Timer.Rto.{IsTimely, start_timer-cal_timeout_refused}
use tju_tcp.Samples.{now0, timer0, window0}

window0-IsTimely : IsTimely window0
window0-IsTimely = record {
  estmated = omega arith;
  dev = omega arith;
  interval = omega arith;
  value = omega arith;
}

-- 178750 + 4 * 37187
interval0 : (cal_timeout window0 now0).timeout.it_value.tv_usec ≡ 327498
unfolding cal_timeout
interval0 = refl

-- Ten seconds later.
abbrev late : Timeval
late = record { tv_sec = 20; tv_usec = 0 }

start_timer-cal_timeout_refused_example :
    (start_timer timer0 (cal_timeout window0 late)).armed ≡ timer0.armed
unfolding cal_timeout
start_timer-cal_timeout_refused_example =
    start_timer-cal_timeout_refused timer0 window0 late (omega arith)
