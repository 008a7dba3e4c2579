-- ===== src/Tests/Interfaces.antt =====
-- netstatus/ at two lists of interfaces.
use nextdns.Prelude.{[], codes, none, refl, some, ℕ, ◌↔◌, ◌∷◌, ◌≡◌, ◌≢◌}
use nextdns.Netstatus.{Addresses, Interface, added, diff, diff_sorted, unchanged}
use nextdns.Netstatus.Handlers.{Handlers, here, next, notifies, notify, stop, unused, without}
use nextdns.Netstatus.Handlers.Checker.{stop_final}
use nextdns.Netstatus.Unchanged.{SameFlags, SameInterfaces, diff_sorted_iff}

abbrev eth0 : Interface
eth0 = record { name = codes "eth0"; flags = 1; index = 2 }

abbrev wlan0 : Interface
wlan0 = record { name = codes "wlan0"; flags = 1; index = 3 }

-- Each interface has one address, now.
abbrev now : Addresses
now = record { of_old = λ i. codes "10.0.0.1/8" ∷ []; of_new = λ i. codes "10.0.0.1/8" ∷ [] }

diff_sorted_iff_example :
    ((diff_sorted now (eth0 ∷ []) (eth0 ∷ wlan0 ∷ []) ≡ unchanged)
      ↔ SameInterfaces now (eth0 ∷ []) (eth0 ∷ wlan0 ∷ []))
    × (((i : ℕ) → now.of_old i ≡ now.of_new i)
        → SameFlags (eth0 ∷ []) (eth0 ∷ wlan0 ∷ [])
        → diff_sorted now (eth0 ∷ []) (eth0 ∷ wlan0 ∷ []) ≡ unchanged)
diff_sorted_iff_example = diff_sorted_iff now (eth0 ∷ []) (eth0 ∷ wlan0 ∷ [])

sees_wlan0 : diff now (some (eth0 ∷ [])) (some (wlan0 ∷ eth0 ∷ [])) ≡ added (codes "wlan0")
unfolding diff diff_sorted nextdns.Netstatus.sort_by_name nextdns.Prelude.bytes_eq
    nextdns.Netstatus.diff_addrs nextdns.Netstatus.first_missing
sees_wlan0 = refl

-- One subscriber, 7, leaves, and then 8 subscribes.
abbrev one : Handlers
one = notify 7 unused

abbrev left : Handlers
left = record { channels = some []; cancel = none; live = []; contexts = 1 }

leaves : stop 7 one ≡ some left
unfolding notify stop without
leaves = refl

stop_final_example :
    ((notify 8 left).channels ≢ none)
    × ((notify 8 left).cancel ≡ none)
    × ((notify 8 left).live ≡ [])
stop_final_example =
    stop_final 7 (next here (notifies 7 unused)) leaves refl (next here (notifies 8 left))
