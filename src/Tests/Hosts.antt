-- ===== src/Tests/Hosts.antt =====
-- discovery/ at concrete files and names.
use nextdns.Prelude.{
  Bytes, List, Option, [], codes, false, get_elem?, length, none, refl, some, suc, sym, ℕ, ◌<◌, ◌∙◌,
  ◌∷◌, ◌≡◌, ◌≢◌,
}
use nextdns.Discovery.Names.{
  abs_domain_name, append_uniq, is_at, prepare_host_lookup, search_strings,
}
use nextdns.Discovery.Names.Insertion.{append_uniq_one}
use nextdns.Discovery.Hosts.{FileView, Literals, add_lines, no_maps, read_hosts_file}
use nextdns.Discovery.Hosts.Tables.{Member, lookup_host_default}
use nextdns.Discovery.Hosts.Complete.{Gives, SameButCase, lookup_finds}
use nextdns.Discovery.Dhcp.{Dhcp, Format, dnsmasq, no_leases}

abbrev ab : List Bytes
ab = codes "a" ∷ codes "b" ∷ []

new_c : is_at (get_elem? ab (search_strings ab (codes "c"))) (codes "c") ≡ false
unfolding search_strings nextdns.Discovery.Names.search_from
new_c = refl

append_uniq_one_example :
    (get_elem? (append_uniq ab (codes "c" ∷ [])) (search_strings ab (codes "c")) ≡ some (codes "c"))
    × (length (append_uniq ab (codes "c" ∷ [])) ≡ suc (length ab))
    × ((j : ℕ)
        → suc j ≢ search_strings ab (codes "c")
        → j < length ab
        → get_elem? (append_uniq ab (codes "c" ∷ [])) (suc j) ≡ get_elem? ab j)
    × (0 < search_strings ab (codes "c")
        → get_elem? (append_uniq ab (codes "c" ∷ [])) 0 ≡ get_elem? ab 0)
append_uniq_one_example = append_uniq_one ab (codes "c") new_c

loses_b : append_uniq ab (codes "c" ∷ []) ≡ codes "a" ∷ codes "a" ∷ codes "c" ∷ []
unfolding append_uniq nextdns.Discovery.Names.append_uniq_from search_strings
    nextdns.Discovery.Names.insert_at nextdns.Discovery.Names.search_from
loses_b = refl

abbrev literals : Literals
literals = record { parse_ip = λ s. some s; print_ip = λ ip. ip }

abbrev hosts_lines : List Bytes
hosts_lines = codes "10.0.0.2 NAS nas.lan # storage" ∷ codes "bad" ∷ []

lookup_finds_example :
    ((line : Bytes)
      → Member line hosts_lines
      → Gives literals line (codes "10.0.0.2") (codes "NAS")
      → Member
          (abs_domain_name (codes "NAS"))
          ((read_hosts_file literals hosts_lines).addrs (codes "10.0.0.2")))
    × (Member (codes "NAS") ((read_hosts_file literals hosts_lines).addrs (codes "10.0.0.2"))
        → SameButCase (codes "nAs") (codes "NAS")
        → Member
            (codes "10.0.0.2")
            ((read_hosts_file literals hosts_lines).names (prepare_host_lookup (codes "nAs"))))
lookup_finds_example =
    lookup_finds literals hosts_lines (codes "10.0.0.2") (codes "NAS") (codes "nAs")

reads_nas : (read_hosts_file literals hosts_lines).names (codes "nas.") ≡ codes "10.0.0.2" ∷ []
unfolding read_hosts_file nextdns.Prelude.bytes_eq nextdns.Discovery.Hosts.add_line
    nextdns.Discovery.Hosts.fields nextdns.Prelude.index_byte
    nextdns.Discovery.Hosts.parse_literal_ip nextdns.Discovery.Hosts.parse_ip_zone
    nextdns.Discovery.Hosts.add_name abs_domain_name
reads_nas = refl

differs : prepare_host_lookup (codes "localhost") ≢ codes "localhost.localdomain."
unfolding prepare_host_lookup abs_domain_name
differs e = cc (sym key ∙ e)
  where
    key : prepare_host_lookup (codes "localhost") ≡ codes "localhost."
    key = refl

lookup_host_default_example :
    (read_hosts_file literals hosts_lines).names (prepare_host_lookup (codes "localhost"))
    ≡ (add_lines literals (no_maps literals) hosts_lines).names
        (prepare_host_lookup (codes "localhost"))
lookup_host_default_example = lookup_host_default literals hosts_lines (codes "localhost") differs

abbrev dhcp : Dhcp
dhcp = record {
  leases = no_leases;
  file_info = record { path = []; mtime = 0; size = 0 };
  expires = 0;
}

abbrev lease_file : FileView
lease_file = record {
  path = codes "/tmp/dhcp.leases";
  stat = none;
  lines = some (codes "1 aa:bb 10.0.0.3 phone *" ∷ [], false);
}

abbrev found_file : Option (FileView × Format)
found_file = some (lease_file, dnsmasq)

abbrev two_sources : List (Bytes → List Bytes)
two_sources = (λ key. []) ∷ (λ key. key ∷ []) ∷ []
