-- ===== src/Config/Flags.antt =====
-- config/config.go: the settings of the program by name. Where the flags of the command line are
-- parsed, the flag package is called; what it has set is an input.
pub mod Reload
use nextdns.Prelude.{
  Bool, Bytes, List, Option, [], bytes_eq, codes, false, if◌then◌else◌, true, ℕ, ◌*◌, ◌++◌, ◌^◌,
  ◌∷◌,
}
use nextdns.Config.Profile.{Host, Profile, set_value, strings_of}
use nextdns.Config.Forwarder
use nextdns.Config.Settings.{Listed, duration, flag, forwarders, profiles, strings, text, uint}
use nextdns.Config.Storage.{Settings}

-- `Config`, but for the path of the file, which is a flag that no file holds.
pub record Config (P F : Type 0) : Type 0 where
  pub listens : List Bytes
  pub control : Bytes
  pub config_deprecated : P
  pub profile : P
  pub forwarder : F
  pub log_queries : Bool
  pub cache_size : Bytes
  pub cache_max_age : ℕ
  pub max_ttl : ℕ
  pub report_client_info : Bool
  pub discovery_dns : Bytes
  pub mdns : Bytes
  pub detect_captive_portals : Bool
  pub bogus_priv : Bool
  pub use_hosts : Bool
  pub timeout : ℕ
  pub max_inflight_requests : ℕ
  pub setup_router : Bool
  pub auto_activate : Bool
  pub debug : Bool

-- `DefaultControl` of config/ctl_unix.go
abbrev pub default_control : Bytes
default_control = codes "/var/run/nextdns.sock"

abbrev pub five_seconds : ℕ
five_seconds = 5 * 10 ^ 9

-- `Profiles` and `Forwarders` as values of a flag: their `Set` and their `Strings`
abbrev pub listed_profiles : Host → Listed (List Profile)
listed_profiles h = record { empty = []; set_listed = set_value h; strings_of = strings_of h }

abbrev pub listed_forwarders :
    {A : Type 0} → (Bytes → Option A) → Listed (List (Forwarder.Resolver A))
listed_forwarders new = record {
  empty = [];
  set_listed = Forwarder.set_value new;
  strings_of = Forwarder.strings_of;
}

-- `flagSet`: each setting with its name and its default. The value of `hardened-privacy` is not
-- kept.
abbrev pub flag_set : {P F : Type 0} → Config P F → Settings P F
flag_set c =
    (codes "debug", flag c.debug false)
    ∷ (codes "listen", strings c.listens)
    ∷ (codes "control", text c.control default_control)
    ∷ (codes "config", profiles c.config_deprecated)
    ∷ (codes "profile", profiles c.profile)
    ∷ (codes "forwarder", forwarders c.forwarder)
    ∷ (codes "log-queries", flag c.log_queries false)
    ∷ (codes "cache-size", text c.cache_size (codes "0"))
    ∷ (codes "cache-max-age", duration c.cache_max_age 0)
    ∷ (codes "max-ttl", duration c.max_ttl 0)
    ∷ (codes "report-client-info", flag c.report_client_info false)
    ∷ (codes "discovery-dns", text c.discovery_dns [])
    ∷ (codes "mdns", text c.mdns (codes "all"))
    ∷ (codes "detect-captive-portals", flag c.detect_captive_portals false)
    ∷ (codes "hardened-privacy", flag false false)
    ∷ (codes "bogus-priv", flag c.bogus_priv true)
    ∷ (codes "use-hosts", flag c.use_hosts true)
    ∷ (codes "timeout", duration c.timeout five_seconds)
    ∷ (codes "max-inflight-requests", uint c.max_inflight_requests 256)
    ∷ (codes "setup-router", flag c.setup_router false)
    ∷ (codes "auto-activate", flag c.auto_activate false)
    ∷ []

-- The defaults that `flagSet` writes.
abbrev pub default_config : {P F : Type 0} → P → F → Config P F
default_config no_profiles no_forwarders = record {
  listens = [];
  control = default_control;
  config_deprecated = no_profiles;
  profile = no_profiles;
  forwarder = no_forwarders;
  log_queries = false;
  cache_size = codes "0";
  cache_max_age = 0;
  max_ttl = 0;
  report_client_info = false;
  discovery_dns = [];
  mdns = codes "all";
  detect_captive_portals = false;
  bogus_priv = true;
  use_hosts = true;
  timeout = five_seconds;
  max_inflight_requests = 256;
  setup_router = false;
  auto_activate = false;
  debug = false;
}

-- The profiles under the old name go behind those under the new one, and the old flag is renamed.
unfoldable pub migrate : {A F : Type 0} → Config (List A) F → Config (List A) F
migrate c = record c { profile = c.profile ++ c.config_deprecated; config_deprecated = [] }

unfoldable pub rename_flags : List Bytes → List Bytes
rename_flags [] = []
rename_flags (arg ∷ args) =
    (if bytes_eq arg (codes "-config") then codes "-profile" else arg) ∷ rename_flags args

-- `Parse`: the address to listen on where none is set; `windows` tells of the system.
unfoldable pub default_listen : Bool → Bytes
default_listen windows = if windows then codes "127.0.0.1:53" else codes "localhost:53"

abbrev pub listens_or : Bytes → List Bytes → List Bytes
listens_or d [] = d ∷ []
listens_or d (l ∷ ls) = l ∷ ls

unfoldable pub with_listens : {P F : Type 0} → Bool → Config P F → Config P F
with_listens windows c = record c { listens = listens_or (default_listen windows) c.listens }
