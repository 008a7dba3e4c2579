-- ===== src/Host/ResolvConf.antt =====
-- host/dns_resolvconf.go, with SetDNS and ResetDNS of host/dns_linux.go: resolv.conf is replaced and
-- restored. A file is its lines; the calls of the system that fail are inputs.
pub mod Restore
use nextdns.Prelude.{
  Bool, Bytes, List, Option, [], codes, false, has_prefix, if◌then◌else◌, none, not, some,
  trim_space, true, ◌&&◌, ◌++◌, ◌∷◌,
}

abbrev pub File : Type 0
File = List Bytes

-- `/etc/resolv.conf`, its backup and the file that is written first, and the file that tells
-- NetworkManager to leave it alone
pub record Files : Type 0 where
  pub resolv : Option File
  pub backup : Option File
  pub tmp : Option File
  pub network_manager : Option File

-- Whether each call fails: for the backup to be examined, the file to be created and scanned, the
-- two to be renamed, and what concerns NetworkManager: a failed write of its file leaves anything
-- there, a failed removal leaves the file, and the reload may fail.
pub record Faults : Type 0 where
  pub backup_unknown : Bool
  pub no_tmp : Bool
  pub scan_breaks : Bool
  pub resolv_stays : Bool
  pub tmp_stays : Bool
  pub backup_stays : Bool
  pub manager_written : Option (Option File)
  pub manager_stays : Bool
  pub reload_breaks : Bool

-- The folder of NetworkManager's configuration
pub data Folder : Type 0 where
  no_folder stat_fails not_a_folder folder : Folder

-- The files after a call, and whether it succeeded.
abbrev pub Done : Type 0
Done = Files × Bool

-- The lines that `writeTempResolvConf` keeps.
abbrev pub is_kept : Bytes → Bool
is_kept [] = false
is_kept (c ∷ line) =
    not (has_prefix (c ∷ line) (codes "#")) && not (has_prefix (c ∷ line) (codes "nameserver "))

unfoldable pub kept_lines : File → File
kept_lines [] = []
kept_lines (line ∷ lines) =
    if is_kept (trim_space line) then trim_space line ∷ kept_lines lines else kept_lines lines

abbrev pub header : File
header =
    codes "# This file is managed by nextdns."
    ∷ codes "#"
    ∷ codes "# Run \"nextdns deactivate\" to restore previous configuration."
    ∷ []
    ∷ []

unfoldable pub new_lines : Bytes → File → File
new_lines dns lines = header ++ kept_lines lines ++ (codes "nameserver " ++ dns) ∷ []

-- `writeTempResolvConf`
abbrev pub write_temp_from : Faults → Bytes → Files → Option File → Done
write_temp_from x dns f none = (f, false)
write_temp_from x dns f (some lines) =
    if x.no_tmp
    then (record f { tmp = none }, false)
    else (record f { tmp = some (new_lines dns lines) }, not x.scan_breaks)

unfoldable pub write_temp : Faults → Bytes → Files → Done
write_temp x dns f = write_temp_from x dns f f.resolv

-- `os.Rename`: a file that is not there is an error.
abbrev pub rename_resolv : Faults → Files → Option File → Done
rename_resolv x f none = (f, false)
rename_resolv x f (some lines) =
    if x.resolv_stays then (f, false) else (record f { resolv = none; backup = some lines }, true)

abbrev pub rename_tmp : Faults → Files → Option File → Done
rename_tmp x f none = (f, false)
rename_tmp x f (some lines) =
    if x.tmp_stays then (f, false) else (record f { resolv = some lines; tmp = none }, true)

abbrev pub and_then : Done → (Files → Done) → Done
and_then (f, true) next = next f
and_then (f, false) next = (f, false)

-- The backup is made only where there is none.
abbrev pub back_up : Faults → Files → Option File → Done
back_up x f none = rename_resolv x f f.resolv
back_up x f (some lines) = (f, true)

-- `setupResolvConf`
unfoldable pub setup_resolv_conf : Faults → Bytes → Files → Done
setup_resolv_conf x dns f =
    if x.backup_unknown
    then (f, false)
    else and_then (write_temp x dns f)
        λ g. and_then (back_up x g f.backup) λ h. rename_tmp x h h.tmp

-- `disableNetworkManagerResolver` and `restoreNetworkManagerResolver`
abbrev pub disable_lines : File
disable_lines = codes "[main]" ∷ codes "dns=none" ∷ []

unfoldable pub disable_network_manager : Faults → Folder → Files → Done
disable_network_manager x no_folder f = (f, true)
disable_network_manager x stat_fails f = (f, false)
disable_network_manager x not_a_folder f = (f, false)
disable_network_manager x folder f = elim x.manager_written [
  | none ↦ (record f { network_manager = some disable_lines }, not x.reload_breaks)
  | some left ↦ (record f { network_manager = left }, false)
]

abbrev pub restore_manager_file : Faults → Files → Option File → Done
restore_manager_file x f none = (f, true)
restore_manager_file x f (some lines) =
    if x.manager_stays
    then (f, false)
    else (record f { network_manager = none }, not x.reload_breaks)

unfoldable pub restore_network_manager : Faults → Files → Done
restore_network_manager x f = restore_manager_file x f f.network_manager

-- `SetDNS`
unfoldable pub set_dns : Faults → Folder → Bytes → Files → Done
set_dns x d dns f = and_then (setup_resolv_conf x dns f) (disable_network_manager x d)

-- `ResetDNS`: with no backup there is nothing to restore.
abbrev pub restore_backup : Faults → Files → Option File → Done
restore_backup x f none = (f, true)
restore_backup x f (some lines) =
    if x.backup_stays
    then (f, false)
    else restore_network_manager x (record f { resolv = some lines; backup = none })

unfoldable pub reset_dns : Faults → Files → Done
reset_dns x f = restore_backup x f f.backup
