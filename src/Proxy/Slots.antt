-- ===== src/Proxy/Slots.antt =====
-- The slots for requests in flight, a channel of proxy/proxy.go that proxy/udp.go and proxy/tcp.go fill
-- and empty. The loop of a UDP socket and that of a TCP connection take a slot before they read; with
-- a query it passes to a handler, which frees it.
pub mod Bounded
pub mod Stalled
use nextdns.Prelude.{
  Bool, List, Option, [], false, get_elem?, if◌then◌else◌, ltb, none, set, some, suc, true, zero, ℕ,
  ◌++◌, ◌+◌, ◌-◌, ◌>>=◌, ◌∷◌,
}

-- Where a loop stands: before the channel, in the read with a slot, or at its end.
pub data Phase : Type 0 where
  waiting reading ended : Phase

pub record World : Type 0 where
  pub capacity : ℕ
  pub used : ℕ
  pub loops : List Phase
  pub handlers : ℕ

-- What happens: a loop begins; it takes a slot; its read brings a query, or a short or late one that
-- is passed over, or an error that ends the loop; or a handler ends, also by a panic.
pub data Event : Type 0 where
  begins : Event
  takes brings skips fails : ℕ → Event
  handled : Event

-- A loop moves from one phase to another.
abbrev pub same_phase : Phase → Phase → Bool
same_phase waiting waiting = true
same_phase reading reading = true
same_phase ended ended = true
same_phase _ _ = false

abbrev pub move_from : World → ℕ → Phase → Phase → Option Phase → Option World
move_from w i p p' none = none
move_from w i p p' (some q) =
    if same_phase q p then some (record w { loops = set w.loops i p' }) else none

abbrev pub move : World → ℕ → Phase → Phase → Option World
move w i p p' = move_from w i p p' (get_elem? w.loops i)

-- `<-inflightRequests`
abbrev pub release : World → World
release w = record w { used = w.used - 1 }

abbrev pub end_handler : World → ℕ → Option World
end_handler w zero = none
end_handler w (suc n) = some (release (record w { handlers = n }))

-- One event, or none where it cannot happen: a send to the channel waits while it is full.
unfoldable pub step : World → Event → Option World
step w begins = some (record w { loops = w.loops ++ waiting ∷ [] })
step w (takes i) =
    if ltb w.used w.capacity then move (record w { used = w.used + 1 }) i waiting reading else none
step w (brings i) = do
  w' ← move w i reading waiting
  some (record w' { handlers = w'.handlers + 1 })
step w (skips i) = do w' ← move w i reading waiting; some (release w')
step w (fails i) = do w' ← move w i reading ended; some (release w')
step w handled = end_handler w w.handlers

unfoldable pub run : World → List Event → Option World
run w [] = some w
run w (e ∷ es) = do w' ← step w e; run w' es

-- `make(chan struct{}, p.MaxInflightRequests)`, before any loop begins
abbrev pub idle : ℕ → World
idle capacity = record { capacity = capacity; used = 0; loops = []; handlers = 0 }
