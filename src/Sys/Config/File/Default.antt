-- ===== src/Sys/Config/File/Default.antt =====
-- `config_createcfg` and `config_count_entries` on a system that grants every request.
use central_node.Common.{
  ℕ, zero, suc, ◌+◌, ◌<◌, ◌≡◌, refl, ◌∙◌, Bool, true, false, none, some, List, [], ◌∷◌, ◌++◌, arith,
  ◌==◌, length, length-append, is_some, Bool-cases, inl, inr,
}
use central_node.Common.Text.{Bytes, fgets, before_newline, c_str}
use central_node.Common.Text.Scan.{Lacks, fgets-line}
use central_node.World.{World, cfg_path, exit_success, answer}
use central_node.Sys.Logging.{log_write, log_debug}
use central_node.World.{str, ◌>>◌, ◌>>=◌}
use central_node.Sys.Sysctl.Granted.{
  GrantsAll, KeepsOptions, asked_once, open_read-granted, file_exists-there, file_exists-missing,
}
use central_node.Sys.Sysctl.{dir_exists}
use central_node.Sys.Config.File.{
  open_write, config_entries, write_default, config_createcfg, count_lines, config_count_entries,
}

-- Each entry on a line of its own
unfoldable pub joined : List Bytes → Bytes
joined [] = []
joined (e ∷ es) = e ++ b'\n' ∷ joined es

write_default_lem :
    (w : World)
    → GrantsAll w.os
    → w.disk.cfg_folder ≡ true
    → ((write_default w).0 ≡ exit_success)
      × ((write_default w).1.disk ≡ record w.disk { cfg = some (joined config_entries) })
      × KeepsOptions w (write_default w).1
unfolding write_default open_write answer joined config_entries
write_default_lem w grants folder = rw (grants, folder) (refl, refl, (refl, refl, refl, refl))

-- Where every request is granted, `config_createcfg` reports success, and the default entries stand
-- in the configuration file, each on a line of its own and in place of what the file held. The
-- folder is made where it is missing, and nothing else on the disk changes. The options, the
-- system, the process, the start-up switches, the networks and the terminal are what they were.
pub config_createcfg_lem :
    (w : World)
    → GrantsAll w.os
    → ((config_createcfg w).0 ≡ exit_success)
      × ((config_createcfg w).1.disk
          ≡ record w.disk { cfg_folder = true; cfg = some (joined config_entries) })
      × KeepsOptions w (config_createcfg w).1
unfolding config_createcfg dir_exists answer
config_createcfg_lem w grants = elim (Bool-cases w.disk.cfg_folder) [
  | inl folder ↦ rw (grants, folder) (write_default_lem _ grants refl)
  | inr missing ↦ rw (grants, missing, grants) (write_default_lem _ grants refl)
]

-- Lines that hold a byte before their newline.
abbrev pub AreLines : List Bytes → Type 0
AreLines [] = Unit {0}
AreLines (l ∷ ls) = Lacks b'\n' l × (0 < length l) × (length l < 255) × AreLines ls

-- A line that is not empty counts, whether it is logged or not.
count_lines-line :
    (fuel : ℕ) (output : Bool) (fp : Bytes) (c : ℕ) (cs rest : Bytes) (count : ℕ) (w : World)
    → fgets 255 fp ≡ (c ∷ cs, rest)
    → (c == b'\n') ≡ false
    → (w' : World) × (count_lines (suc fuel) output fp count w
        ≡ count_lines fuel output rest (count + 1) w')
      × (w'.disk ≡ w.disk)
      × KeepsOptions w w'
unfolding count_lines
count_lines-line fuel true fp c cs rest count w got fresh = (
  (log_write log_debug "Outputting existing config value: '[%s]'"
      (str (some (before_newline (c_str (c ∷ cs)))) ∷ []) w).1,
  rw (count_lines, got, ◌>>◌, ◌>>=◌, got, fresh),
  refl,
  (refl, refl, refl, refl),
)
count_lines-line fuel false fp c cs rest count w got fresh =
    (w, rw (count_lines, got, ◌>>◌, ◌>>=◌, got, fresh), refl, (refl, refl, refl, refl))

count_lines-joined :
    (ls : List Bytes) (fuel : ℕ) (output : Bool) (count : ℕ) (w : World)
    → AreLines ls
    → length (joined ls) < fuel
    → ((count_lines fuel output (joined ls) count w).0 ≡ count + length ls)
      × ((count_lines fuel output (joined ls) count w).1.disk ≡ w.disk)
      × KeepsOptions w (count_lines fuel output (joined ls) count w).1
unfolding joined
count_lines-joined ls zero output count w ok h = absurd (omega arith)
count_lines-joined [] (suc fuel) output count w ok h =
    unfold count_lines fgets in (omega arith, refl, (refl, refl, refl, refl))
count_lines-joined ([] ∷ ls) (suc fuel) output count w ok h = absurd (omega arith)
count_lines-joined ((c ∷ l) ∷ ls) (suc fuel) output count w ok h =
    let got = fgets-line 255 (c ∷ l) (joined ls) ok.0 ok.2 in
    let shorter : length (joined ls) < fuel = omega (arith, length-append l (b'\n' ∷ joined ls)) in
    let (w', step, disk, (options, os, process, startup)) =
      count_lines-line fuel output _ c (l ++ b'\n' ∷ []) (joined ls) count w got ok.0.0 in
    let (total, disk', (options', os', process', startup')) =
      count_lines-joined ls fuel output (count + 1) w' ok.3 shorter in
    rw step (
      total ∙ omega arith,
      disk' ∙ disk,
      (options' ∙ options, os' ∙ os, process' ∙ process, startup' ∙ startup),
    )

-- Of a file of lines that are neither empty nor too long for the buffer, where the system refuses
-- nothing, the number of lines is counted. The files, the options, the system, the process, the
-- start-up switches, the networks and the terminal are what they were.
pub config_count_entries-joined :
    (ls : List Bytes) (output : Bool) (w : World)
    → AreLines ls
    → GrantsAll w.os
    → w.disk.cfg ≡ some (joined ls)
    → ((config_count_entries output w).0 ≡ length ls)
      × ((config_count_entries output w).1.disk ≡ w.disk)
      × KeepsOptions w (config_count_entries output w).1
unfolding config_count_entries
config_count_entries-joined ls output w ok grants there =
    let exists : is_some w.disk.cfg ≡ true = rw there refl in
    let (total, disk, keeps) =
      count_lines-joined ls (suc (length (joined ls))) output 0 (asked_once (asked_once w)) ok
        (omega arith) in
    rw
      (
        file_exists-there cfg_path w grants exists,
        ◌>>=◌,
        open_read-granted cfg_path (joined ls) (asked_once w) grants there,
      )
      (total ∙ omega arith, disk, keeps)

-- Without a file, nothing is counted.
pub config_count_entries-none :
    (output : Bool) (w : World)
    → w.disk.cfg ≡ none
    → ((config_count_entries output w).0 ≡ 0)
      × ((config_count_entries output w).1.disk ≡ w.disk)
      × KeepsOptions w (config_count_entries output w).1
unfolding config_count_entries
config_count_entries-none output w missing =
    let (found, disk, keeps) = file_exists-missing cfg_path w (rw missing refl) in
    rw found (refl, disk, keeps)
