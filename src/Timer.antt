-- ===== src/Timer.antt =====
-- The timer functions of timer.c and its two flags: `startTimer`, `stopTimer`, `timeout_handler`,
-- `CalTimeout`, and the flags `RETRANS` and `TIMEOUT_FLAG` of inc/global.h.
pub mod Rto
mod Tests
use tju_tcp.Common.{
  ℕ, ◌+◌, ◌-◌, ◌*◌, ◌/◌, ◌%◌, ◌^◌, Bool, true, false, Option, none, some, ◌&&◌, ◌||◌, u32, u64, ltb,
  leb, ◌==◌, if◌then◌else◌,
}
use tju_tcp.Global.{Timeval, Itimerval, SenderWindow}

-- The flags, and the `ITIMER_REAL` timer of the process with what is left until it fires.
pub record Timer : Type 0 where
  pub retrans : Bool
  pub timeout_flag : Bool
  pub armed : Option Itimerval

abbrev pub usec_per_sec : ℕ
usec_per_sec = 1000000

-- POSIX: `setitimer` fails with EINVAL, and changes nothing, if a `tv_usec` is a million or more;
-- a zero `it_value` disarms the timer.
abbrev pub is_valid : Itimerval → Bool
is_valid v = ltb v.it_interval.tv_usec usec_per_sec && ltb v.it_value.tv_usec usec_per_sec

abbrev pub is_zero : Timeval → Bool
is_zero t = t.tv_sec == 0 && t.tv_usec == 0

unfoldable pub set_itimer : Option Itimerval → Itimerval → Option Itimerval
set_itimer armed v = if is_valid v then (if is_zero v.it_value then none else some v) else armed

unfoldable pub start_timer : Timer → SenderWindow → Timer
unfolding set_itimer
start_timer t w = record {
  retrans = false;
  timeout_flag = false;
  armed = set_itimer t.armed w.timeout;
}

abbrev pub zero_time : Timeval
zero_time = record { tv_sec = 0; tv_usec = 0 }

unfoldable pub stop_timer : Timer → Timer
unfolding set_itimer
stop_timer t = record t {
  armed = set_itimer t.armed (record { it_interval = zero_time; it_value = zero_time });
}

unfoldable pub timeout_handler : Timer → Timer
timeout_handler t = record t { retrans = true; timeout_flag = true }

-- POSIX: an armed timer that expires is loaded from `it_interval`, which disarms it if that is zero, and
-- the signal runs the handler.
abbrev pub reloaded : Itimerval → Option Itimerval
reloaded v = if is_zero v.it_interval then none else some (record v { it_value = v.it_interval })

unfoldable pub sigalrm : Itimerval → Timer → Timer
unfolding timeout_handler
sigalrm v t = timeout_handler (record t { armed = reloaded v })

-- `long sampleRTT`, for a clock that has not gone back since `send_time`.
unfoldable pub sample_rtt : SenderWindow → Timeval → ℕ
sample_rtt w now =
    now.tv_sec * usec_per_sec
    + now.tv_usec
    - (w.send_time.tv_sec * usec_per_sec + w.send_time.tv_usec)

-- `abs` of the `int` that a 64-bit pattern is converted to (of INT_MIN it is undefined).
abbrev pub abs_int : ℕ → ℕ
abs_int w = if ltb (u32 w) (2 ^ 31) then u32 w else 2 ^ 32 - u32 w

-- The products by 0.875, 0.125, 0.75 and 0.25 and their sums are exact in a `double` for numbers
-- below 2 ^ 50 microseconds; the conversion back to an integer drops the fraction.
unfoldable pub cal_timeout : SenderWindow → Timeval → SenderWindow
unfolding sample_rtt
cal_timeout w now =
    let sample = sample_rtt w now in
    let estmated = (7 * w.estmated_rtt + sample) / 8 in
    let dev = (3 * w.dev_rtt + abs_int (u64 (sample + 2 ^ 64 - estmated))) / 4 in
    record w {
      estmated_rtt = estmated;
      dev_rtt = dev;
      timeout = record w.timeout {
        it_value = record w.timeout.it_value { tv_usec = estmated + 4 * dev };
      };
    }
