-- ===== src/Run/Clients.antt =====
-- What run.go reports of a client.
use nextdns.Prelude.{
  Bytes, List, Option, [], ap, arith, codes, drop, false, inl, inr, leb, length, length-append,
  length-drop, length-map, length-replicate, length-take, map, none, refl, replicate, some, suc,
  sym, take, take_front, true, zero, ℕ, ◌++◌, ◌-◌, ◌<◌, ◌∙◌, ◌∷◌, ◌≡◌, ◌≤◌, ◌⊎◌,
}
use nextdns.Net.{is_loopback}
use mathlib.Core.Path.{subst}
use nextdns.Run.{
  ClientInfo, Peer, Reporting, base32, client_info, lan_client, mac_bytes, model_of, named_by,
  normalize_name, or_peer_id, print_mac, short_id, upper, with_mac,
}

-- An id has five characters.
length-short_id :
    (sum64 : Bytes → ℕ) (conf_id device_id : Bytes) → length (short_id sum64 conf_id device_id) ≡ 5
unfolding short_id
length-short_id sum64 conf_id device_id =
    let buf = conf_id ++ device_id in
    let digits = base32 13 (sum64 buf) in
    let zeros = replicate (13 - length buf) 0 in
    let tail = drop (length digits) (buf ++ zeros) in
    length-map (take 5 (digits ++ tail)) upper
    ∙ omega (
      arith,
      length-take 5 (digits ++ tail),
      length-append digits tail,
      length-drop (length digits) (buf ++ zeros),
      length-append buf zeros,
      length-replicate {A = ℕ} (13 - length buf) 0,
    )

named_by_same :
    (names : List Bytes) (ci : ClientInfo)
    → ((named_by names ci).id ≡ ci.id)
      × ((named_by names ci).model ≡ ci.model)
      × ((named_by names ci).ip ≡ ci.ip)
named_by_same [] ci = (refl, refl, refl)
named_by_same (n ∷ names) ci = (refl, refl, refl)

or_peer_id_same :
    (r : Reporting) (q : Peer) (ci : ClientInfo) (id : Bytes)
    → (or_peer_id r q ci id).model ≡ ci.model
or_peer_id_same r q ci [] = refl
or_peer_id_same r q ci (c ∷ id) = refl

length-or_peer_id :
    (r : Reporting) (q : Peer) (ci : ClientInfo) (id : Bytes)
    → ci.id ≡ id
    → (id ≡ []) ⊎ (length id ≡ 5)
    → length (or_peer_id r q ci id).id ≡ 5
length-or_peer_id r q ci [] e h =
    length-short_id r.sum64 (r.profile_of q.peer_ip q.local_ip (mac_bytes q.mac)) q.peer_ip
length-or_peer_id r q ci (c ∷ id) e (inl nil) = cc
length-or_peer_id r q ci (c ∷ id) e (inr five) = ap length e ∙ five

with_mac_id :
    (r : Reporting) (q : Peer) (o : Option Bytes) (ci : ClientInfo)
    → ci.id ≡ []
    → ((with_mac r q o ci).id ≡ []) ⊎ (length (with_mac r q o ci).id ≡ 5)
with_mac_id r q none ci e = inl e
with_mac_id r q (some mac) ci e = inr (
    ap length (named_by_same (r.lookup_mac (print_mac mac)) _).0
    ∙ length-short_id r.sum64 (r.profile_of q.peer_ip q.local_ip mac) mac)

-- The maker of a network card, of which its address has the first three bytes.
abbrev pub maker : Option Bytes → Bytes
maker none = []
maker (some mac) = codes "mac:" ++ print_mac (take 3 mac)

abbrev pub IsMac : Option Bytes → Type 0
IsMac none = Unit
IsMac (some mac) = 3 < length mac

model_of_long : (bs rest : Bytes) → length bs ≡ 8 → model_of (bs ++ rest) ≡ codes "mac:" ++ bs
model_of_long bs rest e =
    let long : leb 8 (length (bs ++ rest)) ≡ true = ground (arith, e, length-append bs rest) in
    rw (long, sym e, take_front bs rest) refl

model_of-print_mac : (mac : Bytes) → 3 < length mac → model_of (print_mac mac) ≡ maker (some mac)
unfolding print_mac
model_of-print_mac [] h = absurd (omega arith)
model_of-print_mac (a ∷ []) h = absurd (omega arith)
model_of-print_mac (a ∷ b ∷ []) h = absurd (omega arith)
model_of-print_mac (a ∷ b ∷ c ∷ []) h = absurd (omega arith)
model_of-print_mac (a ∷ b ∷ c ∷ d ∷ mac) h =
    model_of_long (print_mac (a ∷ b ∷ c ∷ [])) (58 ∷ print_mac (d ∷ mac)) refl

with_mac-model :
    (r : Reporting) (q : Peer) (o : Option Bytes) (ci : ClientInfo)
    → IsMac o
    → ci.model ≡ []
    → (with_mac r q o ci).model ≡ maker o
with_mac-model r q none ci h e = e
with_mac-model r q (some mac) ci h e =
    (named_by_same (r.lookup_mac (print_mac mac)) _).1 ∙ model_of-print_mac mac h

-- What the id of a client is a hash of, with the profile: its MAC, or else its address.
abbrev pub device : Peer → Bytes
device q = elim q.mac [ none ↦ q.peer_ip | some mac ↦ mac ]

-- The hash, in base 32.
abbrev pub hashed : Reporting → Peer → Bytes
hashed r q = base32 13 (r.sum64 (r.profile_of q.peer_ip q.local_ip (mac_bytes q.mac) ++ device q))

-- The names that the discovery has for the MAC, or else for the address.
abbrev pub names_of : Reporting → Peer → Option Bytes → List Bytes
names_of r q none = r.lookup_addr (r.print_ip q.peer_ip)
names_of r q (some mac) = elim (r.lookup_mac (print_mac mac)) [
  | [] ↦ r.lookup_addr (r.print_ip q.peer_ip)
  | n ∷ names ↦ n ∷ names
]

take-append : (n : ℕ) (xs ys : Bytes) → n ≤ length xs → take n (xs ++ ys) ≡ take n xs
take-append zero xs ys h = refl
take-append (suc n) [] ys h = absurd (omega arith)
take-append (suc n) (x ∷ xs) ys h = ap (◌∷◌ x) (take-append n xs ys (omega arith))

short_id-digits :
    (sum64 : Bytes → ℕ) (conf_id device_id : Bytes)
    → 5 ≤ length (base32 13 (sum64 (conf_id ++ device_id)))
    → short_id sum64 conf_id device_id
      ≡ map upper (take 5 (base32 13 (sum64 (conf_id ++ device_id))))
unfolding short_id
short_id-digits sum64 conf_id device_id h = ap (λ ds. map upper ds) (take-append 5 _ _ h)

or_peer_id_kept :
    (r : Reporting) (q : Peer) (ci : ClientInfo) (id : Bytes)
    → length id ≡ 5
    → or_peer_id r q ci id ≡ ci
or_peer_id_kept r q ci [] h = absurd (omega arith)
or_peer_id_kept r q ci (c ∷ id) h = refl

named_by-name :
    (names : List Bytes) (ci : ClientInfo) (known : List Bytes)
    → ci.name ≡ normalize_name known
    → (named_by names ci).name ≡ normalize_name (elim names [ [] ↦ known | n ∷ ns ↦ n ∷ ns ])
named_by-name [] ci known h = h
named_by-name (n ∷ names) ci known h = refl

-- The id, the address and the name that are reported.
abbrev pub IsReported : Reporting → Peer → ClientInfo → Type 0
IsReported r q ci =
    (5 ≤ length (hashed r q) → ci.id ≡ map upper (take 5 (hashed r q)))
    × (ci.ip ≡ r.print_ip q.peer_ip)
    × (ci.name ≡ normalize_name (names_of r q q.mac))

lan_client-IsReported : (r : Reporting) (q : Peer) → IsReported r q (lan_client r q)
unfolding lan_client
lan_client-IsReported r q = by_mac q.mac refl
  where
    start : ClientInfo
    start = record {
      id = [];
      ip = r.print_ip q.peer_ip;
      model = [];
      name = normalize_name (r.lookup_addr (r.print_ip q.peer_ip));
    }

    Is : Option Bytes → ClientInfo → Type 0
    Is o ci =
        (5
            ≤ length (
                base32 13 (
                  r.sum64 (
                    r.profile_of q.peer_ip q.local_ip (mac_bytes o)
                    ++ elim o [ none ↦ q.peer_ip | some mac ↦ mac ])))
          → ci.id
            ≡ map upper (
                take 5 (
                  base32 13 (
                    r.sum64 (
                      r.profile_of q.peer_ip q.local_ip (mac_bytes o)
                      ++ elim o [ none ↦ q.peer_ip | some mac ↦ mac ])))))
        × (ci.ip ≡ r.print_ip q.peer_ip)
        × (ci.name ≡ normalize_name (names_of r q o))

    by_mac :
        (o : Option Bytes)
        → q.mac ≡ o
        → Is o (or_peer_id r q (with_mac r q o start) (with_mac r q o start).id)
    by_mac none e = (
      λ h.
          ap (λ x. short_id r.sum64 (r.profile_of q.peer_ip q.local_ip (mac_bytes x)) q.peer_ip) e
          ∙ short_id-digits r.sum64 (r.profile_of q.peer_ip q.local_ip []) q.peer_ip h,
      refl,
      refl,
    )
    by_mac (some mac) e =
        let named = record start {
          id = short_id r.sum64 (r.profile_of q.peer_ip q.local_ip mac) mac;
          model = model_of (print_mac mac);
        } in
        let names = r.lookup_mac (print_mac mac) in
        let (same_id, same_model, same_ip) = named_by_same names named in
        let five =
          ap length same_id ∙ length-short_id r.sum64 (r.profile_of q.peer_ip q.local_ip mac) mac in
        subst (Is (some mac)) (sym (or_peer_id_kept r q (named_by names named) _ five)) (
          λ h. same_id ∙ short_id-digits r.sum64 (r.profile_of q.peer_ip q.local_ip mac) mac h,
          same_ip,
          named_by-name names named (r.lookup_addr (r.print_ip q.peer_ip)) refl,
        )

-- Of a client of the network, other than this host, are reported: an id of five characters, the first
-- digits of a hash where that has five; the maker of its network card; its address; and the first part
-- of a name that the discovery has for its MAC or its address. A client without a MAC has no model.
pub client_info-model :
    (r : Reporting) (q : Peer)
    → IsMac q.mac
    → is_loopback q.peer_ip ≡ false
    → (length (client_info r q).id ≡ 5)
      × ((client_info r q).model ≡ maker q.mac)
      × IsReported r q (client_info r q)
unfolding client_info lan_client
client_info-model r q h e = rw e (
  length-or_peer_id r q _ _ refl (with_mac_id r q q.mac _ refl),
  or_peer_id_same r q _ _ ∙ with_mac-model r q q.mac _ h refl,
  lan_client-IsReported r q,
)
