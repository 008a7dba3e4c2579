-- ===== src/Tests/Caching.antt =====
-- Two calls at once on the cache of a table, and a search.
use nextdns.Prelude.{List, [], false, refl, some, ◌+◌, ◌∷◌, ◌≡◌, ◌≤◌}
use nextdns.Neighbors.{Cache, Entry, Event, checks, loads, refreshed, run, search_mac, swaps}
use nextdns.Neighbors.Refresh.{run_once}

abbrev empty : Cache
empty = record {
  last_update = 0;
  table = [];
  stopped = false;
  calls = [];
  running = 0;
  getting = 0;
  started = 0;
}

abbrev entry : Entry
entry = record { ip = 10 ∷ 0 ∷ 0 ∷ 7 ∷ []; mac = 1 ∷ 2 ∷ 3 ∷ 4 ∷ 5 ∷ 6 ∷ [] }

abbrev both : List Event
both = loads 100 ∷ loads 100 ∷ swaps 1 ∷ swaps 0 ∷ checks ∷ refreshed (entry ∷ []) ∷ []

abbrev filled : Cache
filled = record empty { last_update = 100; table = entry ∷ []; started = 1 }

fills : run empty both ≡ some filled
unfolding run nextdns.Neighbors.step nextdns.Neighbors.remove_at
fills = refl

run_once_example : filled.started ≤ empty.started + 1
run_once_example =
    run_once 100 empty filled both refl (refl, (refl, (tt, (tt, (tt, (tt, tt)))))) fills

finds_mac : search_mac filled.table (10 ∷ 0 ∷ 0 ∷ 7 ∷ []) ≡ entry.mac
unfolding search_mac nextdns.Net.ip_equal nextdns.Prelude.bytes_eq
finds_mac = refl
