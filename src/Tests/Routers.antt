-- ===== src/Tests/Routers.antt =====
-- The list of clients of a Merlin router.
use nextdns.Prelude.{[], codes, none, refl, some, true, ◌∷◌, ◌≡◌}
use nextdns.Discovery.Routers.{
  Source, lookup_mac, merlin_list, read_client_list, refresh, thirty_seconds, ubios_records,
}
use nextdns.Discovery.Routers.Clients.{Client, IsWritten, read_client_list-encode}

abbrev phone : Client
phone = record { name = codes "Phone"; mac = codes "74:11:B2:74:43:D7"; rest = codes "0>0>>" }

phone-IsWritten : IsWritten phone
unfolding nextdns.Prelude.index_byte
phone-IsWritten = record {
  named = λ e. cc;
  name_open = refl;
  name_close = refl;
  mac_open = refl;
  mac_length = refl;
  rest_open = refl;
}

read_client_list-encode_example :
    read_client_list (codes "<Phone>74:11:B2:74:43:D7>0>0>>")
    ≡ some (some (ubios_records [] ((codes "74:11:B2:74:43:D7", codes "Phone") ∷ [])))
read_client_list-encode_example = read_client_list-encode (phone ∷ []) (phone-IsWritten, tt)

-- The variable without its first separator, read through the source.
abbrev unknown : Source
unknown = record { supported = none; macs = []; expires = 0 }

finds_phone :
    lookup_mac
      (refresh thirty_seconds true 7
        (merlin_list (some (codes "Phone>74:11:B2:74:43:D7>0>0>>")))
        unknown)
      (codes "74:11:b2:74:43:d7")
    ≡ codes "Phone" ∷ []
unfolding lookup_mac nextdns.Prelude.find refresh merlin_list read_client_list
    nextdns.Discovery.Routers.read_from nextdns.Prelude.index_byte
    nextdns.Discovery.Routers.add_client nextdns.Prelude.put nextdns.Prelude.bytes_eq
    nextdns.Discovery.Names.append_uniq nextdns.Discovery.Names.append_uniq_from
    nextdns.Discovery.Names.insert_at nextdns.Discovery.Names.search_strings
    nextdns.Discovery.Names.search_from
finds_phone = refl
