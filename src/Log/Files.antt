-- ===== src/Log/Files.antt =====
-- The two files of the event log over a run.
use mathlib.Core.Option
use mathlib.Core.List.{append_assoc, append-nil, map-append}
use tju_tcp.Common.{◌≡◌, ◌≢◌, ◌∙◌, refl, sym, true, Option, some, List, [], ◌∷◌, ◌++◌, map, ℤ, pos}
use tju_tcp.Global.{Timeval}
use tju_tcp.Kernel.{Host, server, client, other}
use tju_tcp.Log.{Text, LogEvent, get_current_time, event_line, Logs, log_event}
use tju_tcp.Log.Lines.{read_line, read_line-event_line}

-- The events of a run, each with its time.
unfoldable pub log_all : Host → List (Timeval × LogEvent) → Logs → Option Logs
log_all host [] l = some l
log_all host ((now, e) ∷ es) l = Option.bind (log_event host now e l) (log_all host es)

-- The file that a host writes, and the one that it does not.
abbrev pub own_log : Host → Logs → List Text
own_log server l = l.server_event_log
own_log client l = l.client_event_log
own_log other l = []

abbrev pub peer_log : Host → Logs → List Text
peer_log server l = l.client_event_log
peer_log client l = l.server_event_log
peer_log other l = []

abbrev pub timed_event : Timeval × LogEvent → Option (ℤ × LogEvent)
timed_event (now, e) = some (pos (get_current_time now), e)

log_event-own :
    (host : Host) (now : Timeval) (e : LogEvent) (l : Logs)
    → host ≢ other
    → l.opened ≡ true
    → (l' : Logs) × (log_event host now e l ≡ some l')
      × (own_log host l' ≡ own_log host l ++ event_line now e ∷ [])
      × (peer_log host l' ≡ peer_log host l)
      × (l'.opened ≡ true)
unfolding log_event
log_event-own server now e l h on = (_, rw on refl, refl, refl, on)
log_event-own client now e l h on = (_, rw on refl, refl, refl, on)
log_event-own other now e l h on = absurd (h refl)

-- On a host that is called `server` or `client`, with the files open, any run of events is logged,
-- to that host's file and not to the other. Its lines, read back in order, are those that were there
-- and then the events of the run with their times, none missing, repeated or changed.
pub log_all-read_line :
    (host : Host) (es : List (Timeval × LogEvent)) (l : Logs)
    → host ≢ other
    → l.opened ≡ true
    → (l' : Logs) × (log_all host es l ≡ some l')
      × (map read_line (own_log host l') ≡ map read_line (own_log host l) ++ map timed_event es)
      × (peer_log host l' ≡ peer_log host l)
      × (l'.opened ≡ true)
unfolding log_all Option.bind
log_all-read_line host [] l h on = (l, refl, sym (append-nil _), refl, on)
log_all-read_line host ((now, e) ∷ es) l h on =
    let (l1, e1, own1, peer1, on1) = log_event-own host now e l h on in
    let (l', e', own', peer', on') = log_all-read_line host es l1 h on1 in
    (
      l',
      rw e1 e',
      rw
          (
            own',
            own1,
            map-append read_line (own_log host l) _,
            read_line-event_line now e,
            append_assoc,
          )
          refl,
      peer' ∙ peer1,
      on',
    )
