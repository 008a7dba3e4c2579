-- ===== src/Tests/System.antt =====
-- host/ and run.go at concrete files, routes and clients.
use nextdns.Prelude.{
  Bool, Bytes, List, [], arith, codes, false, length, none, refl, some, true, ℕ, ◌+◌, ◌∷◌, ◌≡◌,
}
use nextdns.Config.Forwarder.{Resolver}
use nextdns.Host.ResolvConf.{Faults, File, Files, Folder, folder, no_folder, reset_dns}
use nextdns.Host.ResolvConf.Restore.{reset_dns-set_all, set_all}
use nextdns.Host.Servers.{gateway_dns, gateway_dns6}
use nextdns.Host.Servers.Gateway.{gateway_dns_never}
use nextdns.Net.{Ip, is_loopback}
use nextdns.Config.Forwarder
use nextdns.Run.{Peer, Reporting, client_info}
use nextdns.Run.Clients.{IsReported, client_info-model}

abbrev user_lines : File
user_lines = codes "nameserver 192.168.1.1" ∷ codes "search lan" ∷ []

abbrev untouched : Files
untouched = record { resolv = some user_lines; backup = none; tmp = none; network_manager = none }

abbrev smooth : Faults
smooth = record {
  backup_unknown = false;
  no_tmp = false;
  scan_breaks = false;
  resolv_stays = false;
  tmp_stays = false;
  backup_stays = false;
  manager_written = none;
  manager_stays = false;
  reload_breaks = false;
}

-- The new file cannot be put in place, then the calls go through twice.
abbrev calls : List (Faults × Folder × Bytes)
calls =
    (record smooth { tmp_stays = true }, no_folder, codes "127.0.0.1")
    ∷ (smooth, folder, codes "127.0.0.1")
    ∷ (smooth, folder, codes "127.0.0.1")
    ∷ []

succeeds : (reset_dns smooth (set_all calls untouched)).1 ≡ true
unfolding reset_dns set_all nextdns.Host.ResolvConf.set_dns
    nextdns.Host.ResolvConf.setup_resolv_conf nextdns.Host.ResolvConf.write_temp
    nextdns.Host.ResolvConf.restore_network_manager
succeeds = refl

reset_dns-set_all_example :
    ((reset_dns smooth (set_all calls untouched)).0.resolv ≡ some user_lines)
    × ((reset_dns smooth (set_all calls untouched)).0.backup ≡ none)
reset_dns-set_all_example = reset_dns-set_all calls user_lines smooth untouched refl refl succeeds

abbrev same_text : Ip → Bytes
same_text ip = ip

abbrev answers_all : Bytes → Bool
answers_all ip = true

abbrev default_route : List Bytes
default_route = codes "eth0 00000000 0101A8C0 0003 0 0 0 00000000 0 0 0" ∷ []

gateway_dns_never_example :
    (gateway_dns same_text answers_all (some default_route) ≡ [])
    × (gateway_dns6 same_text answers_all none ≡ [])
gateway_dns_never_example = gateway_dns_never same_text answers_all (some default_route) none

abbrev reporting : Reporting
reporting = record {
  print_ip = same_text;
  lookup_addr = λ a. codes "phone.local." ∷ [];
  lookup_mac = λ m. [];
  profile_of = λ p l m. codes "abc";
  sum64 = λ b. 123456789;
  this_host = record { id = []; ip = []; model = []; name = [] };
}

abbrev phone : Peer
phone = record {
  peer_ip = 192 ∷ 168 ∷ 1 ∷ 7 ∷ [];
  local_ip = 192 ∷ 168 ∷ 1 ∷ 1 ∷ [];
  mac = some (1 ∷ 35 ∷ 69 ∷ 103 ∷ 137 ∷ 171 ∷ []);
}

remote : is_loopback phone.peer_ip ≡ false
unfolding is_loopback nextdns.Net.to4
remote = refl

client_info-model_example :
    (length (client_info reporting phone).id ≡ 5)
    × ((client_info reporting phone).model ≡ codes "mac:01:23:45")
    × IsReported reporting phone (client_info reporting phone)
unfolding nextdns.Run.print_mac
client_info-model_example = client_info-model reporting phone (omega arith) remote

abbrev corp : Forwarder.Resolver (ℕ → ℕ)
corp = record { server = λ q. q + 1; addr = codes "10.0.0.1"; domain = codes "corp." }
