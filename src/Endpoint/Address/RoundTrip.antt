-- ===== src/Endpoint/Address/RoundTrip.antt =====
-- The endpoints of resolver/endpoint/, printed and made again.
use nextdns.Prelude.{
  All, Bytes, List, [], ap, append-nil, append_assoc, arith, codes, false, has_prefix, index_byte,
  none, some, true, ◌++◌, ◌∙◌, ◌∷◌, ◌≡◌, ◌≢◌,
}
use nextdns.Endpoint.{Endpoint, dns, doh}
use nextdns.Endpoint.Address.{Texts, join_commas, scheme, split_commas}

-- A text of a list: not empty and with no comma.
abbrev pub NoComma : Bytes → Type 0
NoComma s = index_byte s 44 ≡ none

split_commas-append :
    (word s rest : Bytes)
    → NoComma s
    → split_commas word (s ++ 44 ∷ rest) ≡ (word ++ s) ∷ split_commas [] rest
unfolding split_commas index_byte
split_commas-append word [] rest h = rw append-nil
split_commas-append word (c ∷ s) rest h =
    ground (arith, h, split_commas-append (word ++ c ∷ []) s rest, append_assoc word (c ∷ []) s)

split_commas_last : (word s : Bytes) → NoComma s → split_commas word s ≡ (word ++ s) ∷ []
unfolding split_commas index_byte
split_commas_last word [] h = rw append-nil
split_commas_last word (c ∷ s) h =
    ground (arith, h, split_commas_last (word ++ c ∷ []) s, append_assoc word (c ∷ []) s)

-- A list without commas in its elements is joined and split again.
pub split_commas-join_commas :
    (a : Bytes) (as' : List Bytes)
    → NoComma a
    → All NoComma as'
    → split_commas [] (join_commas (a ∷ as')) ≡ a ∷ as'
unfolding join_commas
split_commas-join_commas a [] h k = split_commas_last [] a h
split_commas-join_commas a (b ∷ as') h k =
    split_commas-append [] a (join_commas (b ∷ as')) h
    ∙ ap (◌∷◌ a) (split_commas-join_commas b as' k.0 k.1)

-- The bootstrap addresses of an endpoint: the first is not empty, and none has a comma.
abbrev pub Listed : List Bytes → Type 0
Listed [] = Unit
Listed (a ∷ as') = (a ≢ []) × NoComma a × All NoComma as'

-- The text of a DoH endpoint: its URL, with the bootstrap addresses as the fragment.
abbrev pub url_text : Bytes → Bytes → List Bytes → Bytes
url_text hostname path [] = codes "https://" ++ hostname ++ path
url_text hostname path (b ∷ bs) =
    (codes "https://" ++ hostname ++ path) ++ 35 ∷ join_commas (b ∷ bs)

-- What the standard library does at the text of an endpoint: a URL is parsed into the parts that it
-- consists of, and an address is split and joined again.
abbrev pub Parses : Texts → Endpoint → Type 0
Parses t (doh hostname path bootstrap alpn) =
    Listed bootstrap
    × (t.parse_url (url_text hostname path bootstrap)
        ≡ some (record { host = hostname; path = path; fragment = join_commas bootstrap }))
Parses t (dns addr) =
    (has_prefix addr scheme ≡ false)
    × ((host : Bytes) × (port : Bytes) × (t.split_host_port addr ≡ some (host, port))
        × (t.is_ip host ≡ true)
        × (t.join_host_port host port ≡ addr))
