-- ===== src/Worker/Runtime/Scheduling.antt =====
-- apps/worker/src/runtime.ts, WorkerRuntime: when polls and heartbeats begin and end. Each function
-- is one turn of the event loop; `polling` and `beating` stand for the promises.
use manglam_balaji_managemen.Prelude.{
  Bool, true, false, not, ◌&&◌, ◌≡◌, refl, arith, if◌then◌else◌, List, [], ◌∷◌,
}

pub record WorkerRuntime : Type 0 where
  pub draining : Bool
  pub heartbeat_healthy : Bool
  pub poll_again : Bool
  pub poll_healthy : Bool
  pub polling : Bool
  pub beating : Bool

unfoldable pub is_healthy : WorkerRuntime → Bool
is_healthy r = r.heartbeat_healthy && r.poll_healthy && not r.draining

unfoldable pub request_poll : WorkerRuntime → WorkerRuntime
request_poll r =
    if r.draining
    then r
    else if r.polling
    then record r { poll_again = true }
    else record r { polling = true }

-- The end of `pollOnce`, by its health, and its `finally`.
unfoldable pub poll_ended : Bool → WorkerRuntime → WorkerRuntime
unfolding request_poll
poll_ended healthy r =
    let ended = record r { poll_healthy = healthy; polling = false } in
    if r.poll_again && not r.draining
    then request_poll (record ended { poll_again = false })
    else ended

unfoldable pub request_heartbeat : WorkerRuntime → WorkerRuntime
request_heartbeat r = if r.draining then r else record r { beating = true }

-- The end of `beat`, by whether the heartbeat was written.
unfoldable pub beat_ended : Bool → WorkerRuntime → WorkerRuntime
beat_ended written r = record r {
  heartbeat_healthy = if written then (if r.draining then r.heartbeat_healthy else true) else false;
  beating = false;
}

-- The first lines of `stop`, up to its first wait.
unfoldable pub stop : WorkerRuntime → WorkerRuntime
stop r = record r { draining = true; heartbeat_healthy = false; poll_healthy = false }

pub data Turn : Type 0 where
  poll_requested heartbeat_requested stopped : Turn
  poll_finished beat_finished : Bool → Turn

unfoldable pub turn : Turn → WorkerRuntime → WorkerRuntime
unfolding request_poll poll_ended request_heartbeat beat_ended stop
turn Turn.poll_requested r = request_poll r
turn Turn.heartbeat_requested r = request_heartbeat r
turn Turn.stopped r = stop r
turn (Turn.poll_finished healthy) r = poll_ended healthy r
turn (Turn.beat_finished written) r = beat_ended written r

unfoldable pub turns : List Turn → WorkerRuntime → WorkerRuntime
turns [] r = r
turns (t ∷ ts) r = turns ts (turn t r)

turn-draining : (t : Turn) (r : WorkerRuntime) → r.draining ≡ true → (turn t r).draining ≡ true
unfolding turn
turn-draining Turn.poll_requested r h = ground arith
turn-draining Turn.heartbeat_requested r h = ground arith
turn-draining Turn.stopped r h = refl
turn-draining (Turn.poll_finished healthy) r h = ground arith
turn-draining (Turn.beat_finished written) r h = h

turn-polling :
    (t : Turn) (r : WorkerRuntime)
    → r.draining ≡ true
    → r.polling ≡ false
    → (turn t r).polling ≡ false
unfolding turn
turn-polling Turn.poll_requested r h p = ground arith
turn-polling Turn.heartbeat_requested r h p = ground arith
turn-polling Turn.stopped r h p = p
turn-polling (Turn.poll_finished healthy) r h p = ground arith
turn-polling (Turn.beat_finished written) r h p = p

-- A stopped worker never counts as healthy again, whatever polls and heartbeats end later, and no
-- poll begins after the one that is running has ended.
pub turns-stopped :
    (ts : List Turn) (r : WorkerRuntime)
    → r.draining ≡ true
    → (is_healthy (turns ts r) ≡ false) × (r.polling ≡ false → (turns ts r).polling ≡ false)
unfolding turns is_healthy
turns-stopped [] r h = (ground arith, λ p. p)
turns-stopped (t ∷ ts) r h =
    let (sick, idle) = turns-stopped ts (turn t r) (turn-draining t r h) in
    (sick, λ p. idle (turn-polling t r h p))

-- A request while a poll runs is not lost: when that poll ends, the next one begins, unless the
-- worker is stopped.
pub request_poll-poll_ended :
    (r : WorkerRuntime) (healthy : Bool)
    → r.draining ≡ false
    → r.polling ≡ true
    → ((poll_ended healthy (request_poll r)).polling ≡ true)
      × ((poll_ended healthy (request_poll r)).poll_again ≡ false)
unfolding poll_ended request_poll
request_poll-poll_ended r healthy d p = ground arith
