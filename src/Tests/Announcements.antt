-- ===== src/Tests/Announcements.antt =====
-- discovery/mdns.go at an empty table, with one announced name.
use nextdns.Prelude.{
  Bytes, List, [], arith, codes, find, has_key, length, put, refl, some, true, ◌+◌, ◌∷◌, ◌≡◌, ◌≤◌,
}
use nextdns.Discovery.Mdns.Eviction.{learn_bounded}
use nextdns.Discovery.Mdns.Leak.{IsApart, learn_leaks}
use nextdns.Discovery.Mdns.{Mdns, Times, evict, learn, learn_one, lookup_host, max_entries}
use nextdns.Discovery.Mdns.Eviction.{learn_bounded}

abbrev nothing : Mdns
nothing = record { addrs = []; names = [] }

abbrev at_five : Times
at_five = record { addr_time = 5; name_time = 5; rounds = λ k. 6 + k }

abbrev tv : List (Times × Bytes × Bytes)
tv = (at_five, codes "10.0.0.7", codes "Tv.local.") ∷ []

abbrev with_tv : Mdns
with_tv = record {
  addrs = (codes "10.0.0.7", record { last_update = 5; values = codes "Tv.local." ∷ [] }) ∷ [];
  names = (codes "tv.local.", record { last_update = 5; values = codes "10.0.0.7" ∷ [] }) ∷ [];
}

learn_bounded_example :
    (r' : Mdns) × (learn 2 nothing tv ≡ some r') × (length r'.names ≤ max_entries)
learn_bounded_example =
    learn_bounded tv 0 0 nothing (record { bounded = omega arith; dated = tt })
      (omega arith, omega arith, tt)

learns_tv : learn 2 nothing tv ≡ some with_tv
unfolding learn learn_one evict put nextdns.Discovery.Names.is_valid_name nextdns.Prelude.bytes_eq
    nextdns.Discovery.Mdns.add_entry nextdns.Discovery.Names.append_uniq
    nextdns.Discovery.Names.abs_domain_name nextdns.Discovery.Names.append_uniq_from find
    nextdns.Discovery.Names.insert_at nextdns.Discovery.Names.search_strings
    nextdns.Discovery.Names.search_from
learns_tv = refl

finds_tv : lookup_host with_tv (codes "TV.local") ≡ codes "10.0.0.7" ∷ []
unfolding lookup_host find nextdns.Prelude.bytes_eq nextdns.Discovery.Names.prepare_host_lookup
    nextdns.Discovery.Names.abs_domain_name
finds_tv = refl

learn_leaks_example :
    IsApart with_tv
    × ((a : Bytes) → has_key nothing.addrs a ≡ true → has_key with_tv.addrs a ≡ true)
unfolding nextdns.Discovery.Mdns.Leak.is_dotted
learn_leaks_example =
    learn_leaks tv 2 nothing (record { addresses = tt; hosts = tt }) (refl, tt) learns_tv
