-- ===== src/Log/Run.antt =====
-- The file of a host after a run of the connection, for who reads it to draw the sending window.
use tju_tcp.Common.{List, map}
use tju_tcp.Global.{Timeval}
use tju_tcp.Timer.{Timer}
use tju_tcp.Log.{LogEvent}
use tju_tcp.Log.Windows.{Windows}

-- The events of a run without their times.
abbrev pub untimed : List (Timeval × LogEvent) → List LogEvent
untimed es = map (λ (x : Timeval × LogEvent). x.1) es
