-- ===== src/Config/Profile/Choice.antt =====
-- Which profile a client gets, config/profile.go.
use nextdns.Prelude.{
  All, Bool-cases, Bytes, List, Option, [], arith, false, if◌then◌else◌, inl, inr, none, refl, some,
  true, ◌++◌, ◌∙◌, ◌∷◌, ◌≡◌, ◌⊎◌,
}
use nextdns.Net.{Ip}
use nextdns.Config.Profile.{
  IpNet, Profile, dest_allows, get, get_from, is_default, is_empty, is_none, mac_allows, mac_bytes,
  match_rule, prefix_allows,
}

-- The profile is of another client, or for everyone.
abbrev pub IsPassed : Ip → Ip → Bytes → Profile → Type 0
IsPassed source dest mac p = (match_rule p source dest mac ≡ false) ⊎ (is_default p ≡ true)

-- A profile without a condition matches everyone.
default_matches :
    (p : Profile) (source dest : Ip) (mac : Bytes)
    → is_default p ≡ true
    → match_rule p source dest mac ≡ true
unfolding is_default match_rule
default_matches p source dest mac h =
    let no_prefix : is_none p.prefix ≡ true = ground (arith, h) in
    let no_mac : is_empty (mac_bytes p.mac) ≡ true = ground (arith, h) in
    let no_dest : is_empty p.dest_ips ≡ true = ground (arith, h) in
    ground (
      arith,
      prefix_open p.prefix no_prefix,
      mac_open (mac_bytes p.mac) no_mac,
      dest_open p.dest_ips no_dest,
    )
  where
    prefix_open : (n : Option IpNet) → is_none n ≡ true → prefix_allows n source ≡ true
    prefix_open none e = refl
    prefix_open (some n) e = cc

    mac_open : (m : Bytes) → is_empty m ≡ true → mac_allows m mac ≡ true
    mac_open [] e = refl
    mac_open (c ∷ m) e = cc

    dest_open : (ips : List Ip) → is_empty ips ≡ true → dest_allows ips dest ≡ true
    dest_open [] e = refl
    dest_open (ip ∷ ips) e = cc

-- What a passed profile leaves of the search.
get_from-passed :
    (p : Profile) (ps : List Profile) (def : Bytes) (source dest : Ip) (mac : Bytes)
    → IsPassed source dest mac p
    → get_from (p ∷ ps) def source dest mac
      ≡ get_from ps (if is_default p then p.id else def) source dest mac
unfolding get_from
get_from-passed p ps def source dest mac (inr e) =
    let hit = default_matches p source dest mac e in rw (hit, e)
get_from-passed p ps def source dest mac (inl e) = elim (Bool-cases (is_default p)) [
  | inl d ↦ absurd (cc (default_matches p source dest mac d, e))
  | inr d ↦ rw (e, d)
]

-- The first profile with a condition that the client meets is chosen, whatever profiles without a
-- condition stand before it.
pub get-conditional :
    (xs : List Profile) (p : Profile) (ys : List Profile) (source dest : Ip) (mac : Bytes)
    → All (IsPassed source dest mac) xs
    → match_rule p source dest mac ≡ true
    → is_default p ≡ false
    → get (xs ++ p ∷ ys) source dest mac ≡ p.id
unfolding get get_from
get-conditional xs p ys source dest mac passed hit special = go xs [] passed
  where
    go :
        (xs : List Profile) (def : Bytes)
        → All (IsPassed source dest mac) xs
        → get_from (xs ++ p ∷ ys) def source dest mac ≡ p.id
    go [] def h = rw (hit, special)
    go (x ∷ xs) def (px, h) =
        get_from-passed x (xs ++ p ∷ ys) def source dest mac px
        ∙ go xs (if is_default x then x.id else def) h

-- A client that meets no condition gets the last profile without a condition, and no profile where
-- there is none.
abbrev pub last_default : List Profile → Bytes → Bytes
last_default [] def = def
last_default (p ∷ ps) def = last_default ps (if is_default p then p.id else def)

pub get-default :
    (ps : List Profile) (source dest : Ip) (mac : Bytes)
    → All (IsPassed source dest mac) ps
    → get ps source dest mac ≡ last_default ps []
unfolding get get_from
get-default ps source dest mac passed = go ps [] passed
  where
    go :
        (ps : List Profile) (def : Bytes)
        → All (IsPassed source dest mac) ps
        → get_from ps def source dest mac ≡ last_default ps def
    go [] def h = refl
    go (x ∷ ps) def (px, h) =
        get_from-passed x ps def source dest mac px ∙ go ps (if is_default x then x.id else def) h
