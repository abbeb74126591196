-- ===== src/Duplex/Pipes.antt =====
-- What a connection promises its two applications: a queue of bytes each way. The events of a run of
-- the two hosts are what the applications see of it.
use tju_tcp.Common.{ℕ, ◌≡◌, List, [], ◌∷◌, ◌++◌, Memory, slice}
use tju_tcp.Duplex.{
  Host, Link, Act, writes_data, sends_data, resends_data, timer_fires, packet_arrives, reads_data,
  Step, left_acts, right_acts, Reach, here, next,
}

-- The bytes that were written and not read yet.
pub record Pipes : Type 0 where
  pub to_right : List ℕ
  pub to_left : List ℕ

-- A call of an application.
pub data Call : Type 0 where
  writes reads : List ℕ → Call
  silent : Call

-- The side that calls.
pub data Side : Type 0 where
  left_side right_side : Side

-- How the queues serve a call of one side: the one that it writes, and the one that it reads.
pub data Serves (outgoing incoming : List ℕ) : Call → List ℕ → List ℕ → Type 0 where
  puts : (bytes : List ℕ) → Serves outgoing incoming (writes bytes) (outgoing ++ bytes) incoming
  takes :
      (bytes rest : List ℕ)
      → incoming ≡ bytes ++ rest
      → Serves outgoing incoming (reads bytes) outgoing rest
  idles : Serves outgoing incoming silent outgoing incoming

-- A run of the queues, with the calls in order.
pub data Service (p : Pipes) : List (Side × Call) → Pipes → Type 0 where
  starts : Service p [] p
  by_left :
      {es : List (Side × Call)} {q : Pipes} (call : Call) (outgoing incoming : List ℕ)
      → Service p es q
      → Serves q.to_right q.to_left call outgoing incoming
      → Service p
          (es ++ (left_side, call) ∷ [])
          (record { to_right = outgoing; to_left = incoming })
  by_right :
      {es : List (Side × Call)} {q : Pipes} (call : Call) (outgoing incoming : List ℕ)
      → Service p es q
      → Serves q.to_left q.to_right call outgoing incoming
      → Service p
          (es ++ (right_side, call) ∷ [])
          (record { to_right = incoming; to_left = outgoing })

abbrev pub empty_pipes : Pipes
empty_pipes = record { to_right = []; to_left = [] }

-- What a step of a host is for the applications.
abbrev pub call_of :
    {heap : Memory} {stream : ℕ → ℕ} {total : ℕ} {me peer me' peer' : Host}
    → Act heap stream total me peer me' peer'
    → Call
call_of (writes_data s buffer len _ _ _ _ _) = writes (slice buffer 0 len)
call_of (sends_data _ _ _) = silent
call_of (resends_data _ _) = silent
call_of (timer_fires _ _) = silent
call_of (packet_arrives _ _ _ _ _ _ _) = silent
call_of (reads_data _ out _ _) = reads out

module _ {heap : Memory} {stream_l : ℕ → ℕ} {total_l : ℕ} {stream_r : ℕ → ℕ} {total_r : ℕ} where
  abbrev pub event_of : {m n : Link} → Step heap stream_l total_l stream_r total_r m n → Side × Call
  event_of (left_acts _ _ act) = (left_side, call_of act)
  event_of (right_acts _ _ act) = (right_side, call_of act)

  -- The calls of a run, in order.
  abbrev pub trace :
      {m n : Link} → Reach heap stream_l total_l stream_r total_r m n → List (Side × Call)
  trace here = []
  trace (next reach st) = trace reach ++ event_of st ∷ []
