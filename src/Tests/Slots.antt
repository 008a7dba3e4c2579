-- ===== src/Tests/Slots.antt =====
-- The slots of the proxy, with one of them.
use nextdns.Prelude.{List, [], arith, get_elem?, refl, some, ◌+◌, ◌∷◌, ◌≡◌, ◌≤◌}
use nextdns.Proxy.Slots.{Event, World, begins, brings, handled, idle, reading, run, takes, waiting}
use nextdns.Proxy.Slots.Bounded.{readers, run_bounded}
use nextdns.Proxy.Slots.Stalled.{run_stalled}

-- Two loops begin, the first reads a query, and the second takes the slot behind its handler.
abbrev busy : List Event
busy = begins ∷ begins ∷ takes 0 ∷ brings 0 ∷ handled ∷ takes 1 ∷ []

abbrev taken : World
taken = record { capacity = 1; used = 1; loops = waiting ∷ reading ∷ []; handlers = 0 }

takes_turns : run (idle 1) busy ≡ some taken
unfolding run nextdns.Proxy.Slots.step
takes_turns = refl

run_bounded_example : (1 ≡ readers (waiting ∷ reading ∷ []) + 0) × (0 ≤ 1)
run_bounded_example = run_bounded 1 taken busy takes_turns

-- The second loop goes on reading, and the first never gets a slot.
abbrev joined : World
joined = record taken { loops = waiting ∷ reading ∷ waiting ∷ [] }

joins : run taken (begins ∷ []) ≡ some joined
unfolding run nextdns.Proxy.Slots.step
joins = refl

run_stalled_example : get_elem? joined.loops 0 ≡ some waiting
run_stalled_example =
    run_stalled 0 taken joined (begins ∷ []) (record { counted = refl; bounded = omega arith }) refl
      refl (refl, tt) joins
