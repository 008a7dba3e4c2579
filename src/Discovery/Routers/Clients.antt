-- ===== src/Discovery/Routers/Clients.antt =====
-- The list of clients that discovery/merlin_linux.go reads.
use nextdns.Prelude.{
  All, append-nil, Bytes, List, [], ap, append_assoc, arith, drop_behind, drop_front, false,
  index_byte, index_byte-append, index_byte-none, length, length-append, none, refl, some, suc, sym,
  take, take_front, zero, ℕ, ◌++◌, ◌+◌, ◌<◌, ◌∙◌, ◌∷◌, ◌≡◌, ◌≢◌,
}
use nextdns.Discovery.Names.{lower_ascii_bytes}
use nextdns.Discovery.Routers.{
  Macs, add_client, byte_at, is_cut, name_client, or_end, read_client_list, read_from,
  ubios_records,
}

-- A client as the router writes it: its name, its MAC, and what else it keeps.
pub record Client : Type 0 where
  pub name : Bytes
  pub mac : Bytes
  pub rest : Bytes

abbrev pub body_of : Client → Bytes
body_of x = x.name ++ 62 ∷ (x.mac ++ 62 ∷ x.rest)

abbrev pub encode_clients : List Client → Bytes
encode_clients [] = []
encode_clients (x ∷ xs) = 60 ∷ (body_of x ++ encode_clients xs)

-- The separators stand only between the parts, and a MAC has 17 bytes.
pub record IsWritten (x : Client) : Type 0 where
  pub named : x.name ≢ []
  pub name_open : index_byte x.name 60 ≡ none
  pub name_close : index_byte x.name 62 ≡ none
  pub mac_open : index_byte x.mac 60 ≡ none
  pub mac_length : length x.mac ≡ 17
  pub rest_open : index_byte x.rest 60 ≡ none

abbrev pub pairs : List Client → List (Bytes × Bytes)
pairs [] = []
pairs (x ∷ xs) = (x.mac, x.name) ∷ pairs xs

body_open : (x : Client) → IsWritten x → index_byte (body_of x) 60 ≡ none
unfolding index_byte
body_open x h = index_byte-none x.name (62 ∷ (x.mac ++ 62 ∷ x.rest)) 60 h.name_open (
    ap (λ o. elim o [ none ↦ none | some i ↦ some (suc i) ])
      (index_byte-none x.mac (62 ∷ x.rest) 60 h.mac_open
        (ap (λ o. elim o [ none ↦ none | some i ↦ some (suc i) ]) h.rest_open)))

-- An item ends where the next begins, or with the text.
or_end-encode :
    (b : Bytes) (xs : List Client)
    → index_byte b 60 ≡ none
    → or_end (index_byte (b ++ encode_clients xs) 60) (b ++ encode_clients xs) ≡ length b
or_end-encode b [] h = rw (append-nil, h)
or_end-encode b (x ∷ xs) h = rw (index_byte-append b 60 (body_of x ++ encode_clients xs) h)

byte_behind : (xs : Bytes) (y : ℕ) (ys : Bytes) → byte_at (xs ++ y ∷ ys) (length xs) ≡ y
byte_behind [] y ys = refl
byte_behind (x ∷ xs) y ys = byte_behind xs y ys

shape :
    (x : Client) (more : Bytes)
    → body_of x ++ more ≡ x.name ++ 62 ∷ (x.mac ++ 62 ∷ (x.rest ++ more))
shape x more =
    append_assoc x.name (62 ∷ (x.mac ++ 62 ∷ x.rest)) more
    ∙ ap (λ t. x.name ++ 62 ∷ t) (append_assoc x.mac (62 ∷ x.rest) more)

-- Behind the name stand the MAC and a separator.
byte_at_body :
    (x : Client) (more : Bytes)
    → length x.mac ≡ 17
    → byte_at (body_of x ++ more) (length x.name + 18) ≡ 62
byte_at_body x more h =
    let place : length x.name + 18 ≡ length (x.name ++ 62 ∷ x.mac) =
      omega (arith, length-append x.name (62 ∷ x.mac), h) in
    ap (λ t. byte_at t (length x.name + 18))
      (shape x more ∙ sym (append_assoc x.name (62 ∷ x.mac) (62 ∷ (x.rest ++ more))))
    ∙ ap (byte_at ((x.name ++ 62 ∷ x.mac) ++ 62 ∷ (x.rest ++ more))) place
    ∙ byte_behind (x.name ++ 62 ∷ x.mac) 62 (x.rest ++ more)

name_client_at :
    (macs : Macs) (name mac more : Bytes)
    → name ≢ []
    → length mac ≡ 17
    → name_client macs (name ++ 62 ∷ (mac ++ more)) (length name)
      ≡ add_client macs (lower_ascii_bytes mac) name
name_client_at macs [] mac more ne h = absurd (ne refl)
name_client_at macs (c ∷ name) mac more ne h =
    let mac_part : take 17 (mac ++ more) ≡ mac =
      ap (λ k. take k (mac ++ more)) (sym h) ∙ take_front mac more in
    rw (
      drop_behind (c ∷ name) 62 (mac ++ more),
      mac_part,
      take_front (c ∷ name) (62 ∷ (mac ++ more)),
    )

name_client_body :
    (macs : Macs) (x : Client) (more : Bytes)
    → IsWritten x
    → name_client macs (body_of x ++ more) (length x.name)
      ≡ add_client macs (lower_ascii_bytes x.mac) x.name
name_client_body macs x more h =
    ap (λ t. name_client macs t (length x.name)) (shape x more)
    ∙ name_client_at macs x.name x.mac (62 ∷ (x.rest ++ more)) h.named h.mac_length

is_cut_body :
    (x : Client) (more : Bytes)
    → length x.mac ≡ 17
    → is_cut (body_of x ++ more) (length (body_of x)) (length x.name) ≡ false
is_cut_body x more h =
    let l1 = length-append x.name (62 ∷ (x.mac ++ 62 ∷ x.rest)) in
    let l2 = length-append x.mac (62 ∷ x.rest) in
    let l3 = length-append (body_of x) more in ground (arith, h, l1, l2, l3)

read_from-encode :
    (fuel : ℕ) (macs : Macs) (xs : List Client)
    → All IsWritten xs
    → length (encode_clients xs) < fuel
    → read_from fuel macs (encode_clients xs) ≡ some (some (ubios_records macs (pairs xs)))
unfolding read_from ubios_records
read_from-encode zero macs xs h lt = absurd (omega arith)
read_from-encode (suc fuel) macs [] h lt = refl
read_from-encode (suc fuel) macs (x ∷ xs) h lt =
    let more = encode_clients xs in
    let found : index_byte (body_of x ++ more) 62 ≡ some (length x.name) =
      ap (λ t. index_byte t 62) (shape x more)
      ∙ index_byte-append x.name 62 (x.mac ++ 62 ∷ (x.rest ++ more)) h.0.name_close in
    rw
      (
        found,
        or_end-encode (body_of x) xs (body_open x h.0),
        is_cut_body x more h.0.mac_length,
        byte_at_body x more h.0.mac_length,
        name_client_body macs x more h.0,
        drop_front (body_of x) more,
      )
      (read_from-encode fuel _ xs h.1 (omega (arith, lt, length-append (body_of x) more)))

-- A list of clients is read as the router wrote it, and gives the same names to the network cards as
-- records of the same MACs and names do in the database of another router.
pub read_client_list-encode :
    (xs : List Client)
    → All IsWritten xs
    → read_client_list (encode_clients xs) ≡ some (some (ubios_records [] (pairs xs)))
unfolding read_client_list
read_client_list-encode xs h =
    read_from-encode (suc (length (encode_clients xs))) [] xs h (omega arith)
