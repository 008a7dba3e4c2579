-- ===== src/Run/Upstream.antt =====
-- The profile and the resolver that run.go takes for a query.
use nextdns.Prelude.{
  Bool, Bool-cases, Bytes, List, Option, [], false, if◌then◌else◌, inl, inr, none, refl, some, true,
  ◌&&◌, ◌++◌, ◌∷◌, ◌≡◌,
}
use nextdns.Net.{Ip}
use nextdns.Config.Profile.{Profile, match_rule}
use nextdns.Config.Profile
use nextdns.Config.Forwarder
use nextdns.Run.{base_url, is_static, is_static_one, profile_url, with_catch_all}

abbrev pub or_default : {A : Type 0} → Option A → A → A
or_default none default = default
or_default (some server) default = server

catch_one :
    {A : Type 0} (b : Bool) (server default : A) (rest found : Option A)
    → rest ≡ some (or_default found default)
    → (if b then some server else rest)
      ≡ some (or_default (if b then some server else found) default)
catch_one true server default rest found e = refl
catch_one false server default rest found e = e

get-with_catch_all :
    {A : Type 0} (rs : List (Forwarder.Resolver A)) (default : A) (name : Bytes)
    → Forwarder.get (with_catch_all rs default) name
      ≡ some (or_default (Forwarder.get rs name) default)
unfolding Forwarder.get with_catch_all
get-with_catch_all [] default name = unfold Forwarder.matches in refl
get-with_catch_all (r ∷ rs) default name =
    catch_one (Forwarder.matches r name) r.server default
      (Forwarder.get (with_catch_all rs default) name) (Forwarder.get rs name)
      (get-with_catch_all rs default name)

-- A query is resolved by the first forwarder whose domain matches its name, and by the default
-- resolver where there is none: it is never refused for want of a forwarder.
pub resolve-with_catch_all :
    {Q R : Type 0} (rs : List (Forwarder.Resolver (Q → R))) (default : Q → R)
    (no_forwarder : Bytes → R) (name : Bytes) (q : Q)
    → Forwarder.resolve (with_catch_all rs default) no_forwarder name q
      ≡ or_default (Forwarder.get rs name) default q
unfolding Forwarder.resolve
resolve-with_catch_all rs default no_forwarder name q =
    rw (get-with_catch_all rs default name, Forwarder.resolve)

-- A profile that matches without a client has no condition, and matches every client.
no_condition_matches :
    (prefix : Option Profile.IpNet) (own : Bytes) (dests : List Ip) (peer_ip local_ip : Ip)
    (mac : Bytes)
    → (Profile.prefix_allows prefix []
        && (Profile.mac_allows own [] && Profile.dest_allows dests []))
      ≡ true
    → (Profile.prefix_allows prefix peer_ip
        && (Profile.mac_allows own mac && Profile.dest_allows dests local_ip))
      ≡ true
no_condition_matches none [] [] peer_ip local_ip mac h = refl
no_condition_matches none [] (d ∷ dests) peer_ip local_ip mac h = cc
no_condition_matches none (c ∷ own) dests peer_ip local_ip mac h = cc
no_condition_matches (some n) own dests peer_ip local_ip mac h = cc

match_rule_all :
    (p : Profile) (peer_ip local_ip : Ip) (mac : Bytes)
    → match_rule p [] [] [] ≡ true
    → match_rule p peer_ip local_ip mac ≡ true
unfolding match_rule
match_rule_all p peer_ip local_ip mac h =
    no_condition_matches p.prefix (Profile.mac_bytes p.mac) p.dest_ips peer_ip local_ip mac h

static_one :
    (p : Profile) (peer_ip local_ip : Ip) (mac : Bytes)
    → is_static_one (Profile.get (p ∷ []) [] [] []) ≡ true
    → Profile.get (p ∷ []) peer_ip local_ip mac ≡ Profile.get (p ∷ []) [] [] []
unfolding Profile.get Profile.get_from
static_one p peer_ip local_ip mac h = elim (Bool-cases (match_rule p [] [] [])) [
  | inl matched ↦ rw (matched, match_rule_all p peer_ip local_ip mac matched)
  | inr missed ↦ absurd (cc (rw missed at h))
]

-- Where the answer is made once, it is the one that each query would get.
pub profile_url_static :
    (ps : List Profile) (peer_ip local_ip : Ip) (mac : Bytes)
    → profile_url ps peer_ip local_ip mac
      ≡ (base_url ++ Profile.get ps peer_ip local_ip mac, Profile.get ps peer_ip local_ip mac)
unfolding profile_url is_static Profile.get Profile.get_from
profile_url_static [] peer_ip local_ip mac = refl
profile_url_static (p ∷ []) peer_ip local_ip mac =
    elim (Bool-cases (is_static_one (Profile.get (p ∷ []) [] [] []))) [
      | inl fixed ↦ rw (fixed, static_one p peer_ip local_ip mac fixed)
      | inr varies ↦ rw varies
    ]
profile_url_static (p ∷ q ∷ ps) peer_ip local_ip mac = refl
