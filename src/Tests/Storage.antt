-- ===== src/Tests/Storage.antt =====
-- host/service/config.go and config/ at concrete settings.
use nextdns.Prelude.{
  All, Bytes, List, Option, length, [], arith, codes, false, index_byte, none, refl, some, true, ℕ,
  ◌∷◌, ◌≡◌,
}
use nextdns.Config.Storage.Lines.{IsValue, IsVisible, IsVisible-IsValue}
use nextdns.Config.Settings.{Durations}
use nextdns.Config.Storage.{
  has_long_line, scan_lines, Disk, is_directory, load_config, opened, print_settings, save_config,
}
use nextdns.Config.Flags.{
  Config, default_config, default_control, five_seconds, flag_set, listed_forwarders,
  listed_profiles,
}
use nextdns.Config.Flags.Reload.{IsKept, config_reload}
use nextdns.Config.Forwarder.{Resolver}
use nextdns.Config.Forwarder.Reload as ForwarderReload
use nextdns.Config.Profile.Reload as ProfileReload
use nextdns.Config.Profile.{Host, Profile}

abbrev some_text : ℕ → Bytes
some_text d = codes "5s"

abbrev times : Durations
times = record {
  parse_duration = λ s. some five_seconds;
  print_duration = some_text;
  trim_unicode = λ s. s;
}

-- Servers are the lengths of their addresses.
abbrev server_of : Bytes → Option ℕ
server_of addr = some (length addr)

-- A host that reads and prints no condition of a profile.
abbrev plain_host : Host
plain_host = record {
  parse_cidr = λ s. none;
  parse_mac = λ s. none;
  interface_ips = λ s. none;
  print_net = λ n. [];
  print_mac = λ m. [];
}

abbrev everyone : Profile
everyone = record { id = codes "abc"; prefix = none; mac = none; dest_ips = [] }

abbrev corp : Resolver ℕ
corp = record { server = 8; addr = codes "10.0.0.1"; domain = [] }

abbrev mine : Config (List Profile) (List (Resolver ℕ))
mine = record (default_config [] []) {
  listens = codes "localhost:53" ∷ [];
  profile = everyone ∷ [];
  forwarder = corp ∷ [];
  cache_max_age = five_seconds;
  max_ttl = five_seconds;
  report_client_info = true;
  max_inflight_requests = 1000;
}

abbrev disk : Disk
disk = record { directory = is_directory; makes_directory = true; opens = true }

value : (s : Bytes) → IsVisible s → IsValue s
value = IsVisible-IsValue

readable : ProfileReload.IsReadable plain_host everyone
unfolding index_byte
readable = record {
  no_interface = refl;
  trimmed = IsValue.trimmed (value (codes "abc") (omega arith));
  condition = refl;
}

made : ForwarderReload.IsReadable server_of corp
unfolding index_byte
made = record { made = refl; domain_reads = refl }

storable : All (λ (name, e). IsKept times plain_host server_of e) (flag_set mine)
unfolding nextdns.Config.Settings.has_string nextdns.Config.Profile.strings_of
    nextdns.Config.Profile.print_profile nextdns.Config.Forwarder.strings_of
    nextdns.Config.Forwarder.print_resolver
storable = (
  tt,
  (
    ((value (codes "localhost:53") (omega arith), tt), (refl, tt)),
    (
      value default_control (omega arith),
      (
        (tt, tt, tt),
        (
          ((value (codes "abc") (omega arith), tt), (readable, tt), (tt, tt)),
          (
            ((value (codes "10.0.0.1") (omega arith), tt), (made, tt), (tt, tt)),
            (
              tt,
              (
                value (codes "0") (omega arith),
                (
                  (value (codes "5s") (omega arith), refl),
                  (
                    (value (codes "5s") (omega arith), refl),
                    (
                      tt,
                      (
                        value [] tt,
                        (
                          value (codes "all") (omega arith),
                          (
                            tt,
                            (
                              tt,
                              (
                                tt,
                                (
                                  tt,
                                  (
                                    (value (codes "5s") (omega arith), refl),
                                    (omega arith, (tt, (tt, tt))),
                                  ),
                                ),
                              ),
                            ),
                          ),
                        ),
                      ),
                    ),
                  ),
                ),
              ),
            ),
          ),
        ),
      ),
    ),
  ),
)

abbrev text_of_mine : Bytes
text_of_mine =
    print_settings times (listed_profiles plain_host) (listed_forwarders server_of) (flag_set mine)

saved :
    save_config times
      (listed_profiles plain_host)
      (listed_forwarders server_of)
      disk
      (flag_set mine)
    ≡ some text_of_mine
unfolding save_config
saved = refl

short : has_long_line (scan_lines [] text_of_mine) ≡ false
unfolding scan_lines print_settings nextdns.Config.Settings.lines_of
    nextdns.Config.Settings.print_flag nextdns.Config.Profile.strings_of
    nextdns.Config.Profile.print_profile nextdns.Config.Forwarder.strings_of
    nextdns.Config.Forwarder.print_resolver nextdns.Config.Settings.print_uint
    nextdns.Config.Settings.print_digits
short = refl

config_reload_example :
    load_config times
      (listed_profiles plain_host)
      (listed_forwarders server_of)
      (flag_set (default_config [] []))
      (opened text_of_mine false)
    ≡ some (flag_set mine)
config_reload_example = config_reload times plain_host server_of disk mine storable saved short

abbrev host : Host
host = record {
  parse_cidr = λ s. none;
  parse_mac = λ s. none;
  interface_ips = λ s. some ((192 ∷ 168 ∷ 1 ∷ 1 ∷ []) ∷ []);
  print_net = λ n. [];
  print_mac = λ m. [];
}

abbrev guests : Profile
guests = record {
  id = codes "abc";
  prefix = none;
  mac = none;
  dest_ips = (192 ∷ 168 ∷ 1 ∷ 1 ∷ []) ∷ [];
}

plain : index_byte (codes "abc") 61 ≡ none
unfolding index_byte
plain = refl
