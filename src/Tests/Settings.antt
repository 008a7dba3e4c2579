-- ===== src/Tests/Settings.antt =====
-- config/ at concrete settings.
use nextdns.Prelude.{[], codes, false, none, refl, some, true, ℕ, ◌∷◌, ◌≡◌}
use nextdns.Net.{Ip}
use nextdns.Config.Profile.{IpNet, Profile, get, is_default, match_rule}
use nextdns.Config.Forwarder.{Resolver}

abbrev everyone : Profile
everyone = record { id = codes "abc"; prefix = none; mac = none; dest_ips = [] }

abbrev lan : Profile
lan = record {
  id = codes "def";
  prefix = some (record { ip = 10 ∷ 0 ∷ 0 ∷ 0 ∷ []; mask = 255 ∷ 0 ∷ 0 ∷ 0 ∷ [] });
  mac = none;
  dest_ips = [];
}

abbrev client : Ip
client = 10 ∷ 1 ∷ 2 ∷ 3 ∷ []

abbrev stranger : Ip
stranger = 192 ∷ 0 ∷ 2 ∷ 1 ∷ []

default_everyone : is_default everyone ≡ true
unfolding is_default
default_everyone = refl

special_lan : is_default lan ≡ false
unfolding is_default
special_lan = refl

hits : match_rule lan client [] [] ≡ true
unfolding match_rule nextdns.Config.Profile.contains nextdns.Net.to4
hits = refl

misses : match_rule lan stranger [] [] ≡ false
unfolding match_rule nextdns.Config.Profile.contains nextdns.Net.to4
misses = refl

abbrev corp : Resolver ℕ
corp = record { server = 4; addr = codes "10.0.0.1"; domain = codes "corp." }
