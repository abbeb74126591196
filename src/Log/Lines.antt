-- ===== src/Log/Lines.antt =====
-- A reader for the lines of the event log, and what the macros print for it.
use mathlib.Core.Option
use tju_tcp.Common.{
  ℕ, ◌-◌, ◌≤◌, ◌≡◌, refl, ap, le→leb, Option, none, some, List, [], ◌∷◌, Memory, ℤ, pos,
}
use tju_tcp.Global.{Timeval}
use tju_tcp.Packet.{Header, create_packet_buf}
use tju_tcp.Packet.RoundTrip.{Fits, header_of, header_of-create_packet_buf}
use tju_tcp.Log.{
  Text, codes, get_current_time, as_int, literal, fprintf, LogEvent, send, recv, cwnd, rwnd, swnd,
  delv, packet_len, send_log, packet_format, size_format, two_format, event_format, event_args,
  event_line,
}
use tju_tcp.Log.Print.{
  is_digit, strip, read_int, fscanf, Matches, Breaks, Stops-fprintf, read_int-print_int,
  fscanf-fprintf,
}

abbrev pub or_else : Option LogEvent → Option LogEvent → Option LogEvent
or_else none e = e
or_else (some e) _ = some e

abbrev four : (ℤ → ℤ → ℤ → ℤ → LogEvent) → List ℤ → Option LogEvent
four event (a ∷ b ∷ c ∷ d ∷ []) = some (event a b c d)
four event _ = none

abbrev two : (ℤ → ℤ → LogEvent) → List ℤ → Option LogEvent
two event (a ∷ b ∷ []) = some (event a b)
two event _ = none

abbrev one : (ℤ → LogEvent) → List ℤ → Option LogEvent
one event (a ∷ []) = some (event a)
one event _ = none

-- What stands behind the time of a line: the name says which numbers follow.
unfoldable pub read_event : Text → Option LogEvent
read_event s =
    or_else (Option.bind (fscanf (literal (codes "] [SEND] [seq:") ∷ packet_format) s) (four send))
      (or_else
        (Option.bind (fscanf (literal (codes "] [RECV] [seq:") ∷ packet_format) s) (four recv))
        (or_else
          (Option.bind (fscanf (literal (codes "] [CWND] [type:") ∷ two_format) s) (two cwnd))
          (or_else
            (Option.bind (fscanf (literal (codes "] [RWND] [size:") ∷ size_format) s) (one rwnd))
            (or_else
              (Option.bind (fscanf (literal (codes "] [SWND] [size:") ∷ size_format) s) (one swnd))
              (Option.bind (fscanf (literal (codes "] [DELV] [seq:") ∷ two_format) s)
                (two delv))))))

abbrev timed : ℤ × Text → Option (ℤ × LogEvent)
timed (t, s) = Option.map (λ e. (t, e)) (read_event s)

-- The time and the event of a line.
unfoldable pub read_line : Text → Option (ℤ × LogEvent)
read_line s = Option.bind (strip (codes "[") s) (λ rest. timed (read_int rest))

Matches-event : (e : LogEvent) → Matches (event_format e) (event_args e)
unfolding event_format is_digit
Matches-event (send _ _ _ _) = (refl, (refl, (refl, (refl, tt))))
Matches-event (recv _ _ _ _) = (refl, (refl, (refl, (refl, tt))))
Matches-event (cwnd _ _) = (refl, (refl, tt))
Matches-event (rwnd _) = (refl, tt)
Matches-event (swnd _) = (refl, tt)
Matches-event (delv _ _) = (refl, (refl, tt))

read_back :
    (e : LogEvent)
    → fscanf (event_format e) (fprintf (event_format e) (event_args e)) ≡ some (event_args e)
read_back e = fscanf-fprintf (event_format e) (event_args e) (Matches-event e)

read_event-fprintf : (e : LogEvent) → read_event (fprintf (event_format e) (event_args e)) ≡ some e
unfolding read_event event_format fprintf fscanf strip Option.bind
read_event-fprintf (send a b c d) = rw (read_back (send a b c d)) refl
read_event-fprintf (recv a b c d) = rw (read_back (recv a b c d)) refl
read_event-fprintf (cwnd a b) = rw (read_back (cwnd a b)) refl
read_event-fprintf (rwnd a) = rw (read_back (rwnd a)) refl
read_event-fprintf (swnd a) = rw (read_back (swnd a)) refl
read_event-fprintf (delv a b) = rw (read_back (delv a b)) refl

Breaks-event : (e : LogEvent) → Breaks (event_format e)
unfolding event_format is_digit
Breaks-event (send _ _ _ _) = refl
Breaks-event (recv _ _ _ _) = refl
Breaks-event (cwnd _ _) = refl
Breaks-event (rwnd _) = refl
Breaks-event (swnd _) = refl
Breaks-event (delv _ _) = refl

-- The line that a macro writes for an event is read back as the time and the event, whichever of the
-- six kinds it is and whatever numbers it has, negative ones included: the log loses nothing.
pub read_line-event_line :
    (now : Timeval) (e : LogEvent)
    → read_line (event_line now e) ≡ some (pos (get_current_time now), e)
unfolding read_line event_line fprintf strip Option.bind
read_line-event_line now e =
    rw
      (
        read_int-print_int (pos (get_current_time now)) (fprintf (event_format e) (event_args e))
            (Stops-fprintf (event_format e) (event_args e) (Breaks-event e)),
        read_event-fprintf e,
      )
      refl

-- The line of a packet that was built from a header whose fields fit, and whose `plen` is not below
-- its `hlen`, tells the header's numbers, those of 32 bits as an `int`, and the length of the data.
pub send_log-create_packet_buf :
    (heap : Memory) (now : Timeval) (h : Header) (payload : Memory) (len : ℕ)
    → Fits h
    → 20 ≤ h.hlen
    → h.hlen ≤ h.plen
    → read_line (event_line now (send_log (create_packet_buf heap h payload len)))
      ≡ some (
        pos (get_current_time now),
        send (as_int h.seq_num) (as_int h.ack_num) (pos h.flags) (pos (h.plen - h.hlen)),
      )
unfolding send_log packet_len
send_log-create_packet_buf heap now h payload len f long le =
    rw
      (
        read_line-event_line now (send_log (create_packet_buf heap h payload len)),
        ap (λ (x : Header). x.seq_num) header,
        ap (λ (x : Header). x.ack_num) header,
        ap (λ (x : Header). x.flags) header,
        ap (λ (x : Header). x.hlen) header,
        ap (λ (x : Header). x.plen) header,
        le→leb h.hlen h.plen le,
      )
      refl
  where
    header : header_of (create_packet_buf heap h payload len) ≡ h
    header = header_of-create_packet_buf heap h payload len f long
