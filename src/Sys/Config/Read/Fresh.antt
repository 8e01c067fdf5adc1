-- ===== src/Sys/Config/Read/Fresh.antt =====
-- `config_readcfg` where there is no configuration file yet.
use central_node.Common.{
  ℕ, ◌<◌, ◌≤◌, ◌≡◌, refl, sym, ap, ◌∙◌, Bool, ◌&&◌, true, false, none, some, List, [], ◌∷◌, arith,
  length,
}
use central_node.Common.Text.{Bytes, codes, show}
use central_node.World.{World, Options, cfg_path, exit_success}
use central_node.World.Keeps.{rest_of}
use central_node.World.Faults.{Returns, Returns-mono}
use central_node.Sys.Sysctl.{file_exists}
use central_node.Sys.Sysctl.Granted.{GrantsAll, file_exists-missing}
use central_node.Sys.Config.Read.Names.{name_of}
use central_node.Sys.Config.Entry.{
  config_entry_to_str, cfg_null, cfg_nentries, cfg_autofix, cfg_godmode, cfg_nwdmode, cfg_netlogo,
  cfg_allowsu, cfg_nohttps, cfg_nloglvl, cfg_timeout, cfg_tundev, cfg_proxy, cfg_netrepo,
}
use central_node.Sys.Config.File.{config_count_entries, config_createcfg, config_entries}
use central_node.Sys.Config.File.Default.{joined, config_createcfg_lem, config_count_entries-none}
use central_node.Sys.Config.Read.{config_readcfg}
use central_node.Sys.Config.Read.Line.{
  number, text, Setting, IsWritable, lacks-Lacks, line_of, lacks,
}
use central_node.Sys.Config.Read.Lines.{lines_of, AllWritable, apply_settings, StoresAll}
use central_node.Sys.Config.Read.File.{read_file-lines_of}

-- The default configuration, as settings.
abbrev pub default_settings : List Setting
default_settings =
    record { entry = cfg_autofix; value = number 0 }
    ∷ record { entry = cfg_godmode; value = number 0 }
    ∷ record { entry = cfg_nwdmode; value = number 0 }
    ∷ record { entry = cfg_netlogo; value = number 1 }
    ∷ record { entry = cfg_allowsu; value = number 0 }
    ∷ record { entry = cfg_nohttps; value = number 0 }
    ∷ record { entry = cfg_nloglvl; value = number 1 }
    ∷ record { entry = cfg_timeout; value = number 15 }
    ∷ record { entry = cfg_tundev; value = text (codes "tun0") }
    ∷ record { entry = cfg_proxy; value = text (codes "NULL") }
    ∷ record { entry = cfg_netrepo; value = text (codes "centralnode.xyz") }
    ∷ []

-- The file that `config_createcfg` writes is the file of these settings.
default_settings-lines : lines_of default_settings ≡ joined config_entries
unfolding lines_of line_of name_of config_entry_to_str joined config_entries show
default_settings-lines = refl

-- A number of an entry below CFG_TUNDEV, other than CFG_NULL and the larger ones.
pub small-IsWritable :
    (e n : ℕ) → e < cfg_tundev → n < cfg_null → IsWritable (record { entry = e; value = number n })
small-IsWritable e n h k = record {
  known = omega arith;
  suits = (h, omega arith, λ p. absurd (omega arith));
}

-- A text that fits a line and holds none of the bytes that a line gives a meaning.
is_plain : Bytes → Bool
unfolding lacks
is_plain s = lacks b'"' s && (lacks b'%' s && (lacks b'\n' s && lacks 0 s))

plain-IsWritable :
    (e : ℕ) (s : Bytes)
    → cfg_tundev ≤ e
    → e < cfg_nentries
    → length s < 116
    → is_plain s ≡ true
    → IsWritable (record { entry = e; value = text s })
unfolding is_plain
plain-IsWritable e s h k short plain = record {
  known = k;
  suits = (
    h,
    short,
    lacks-Lacks b'"' s (ground arith),
    lacks-Lacks b'%' s (ground arith),
    lacks-Lacks b'\n' s (ground arith),
    lacks-Lacks 0 s (ground arith),
  );
}

pub default_settings-AllWritable : AllWritable default_settings
unfolding is_plain
default_settings-AllWritable = (
  small-IsWritable cfg_autofix 0 (omega arith) (omega arith),
  (
    small-IsWritable cfg_godmode 0 (omega arith) (omega arith),
    (
      small-IsWritable cfg_nwdmode 0 (omega arith) (omega arith),
      (
        small-IsWritable cfg_netlogo 1 (omega arith) (omega arith),
        (
          small-IsWritable cfg_allowsu 0 (omega arith) (omega arith),
          (
            small-IsWritable cfg_nohttps 0 (omega arith) (omega arith),
            (
              small-IsWritable cfg_nloglvl 1 (omega arith) (omega arith),
              (
                small-IsWritable cfg_timeout 15 (omega arith) (omega arith),
                (
                  plain-IsWritable cfg_tundev (codes "tun0") (omega arith) (omega arith)
                      (omega arith) refl,
                  (
                    plain-IsWritable cfg_proxy (codes "NULL") (omega arith) (omega arith)
                        (omega arith) refl,
                    (
                      plain-IsWritable cfg_netrepo (codes "centralnode.xyz") (omega arith)
                          (omega arith) (omega arith) refl,
                      tt,
                    ),
                  ),
                ),
              ),
            ),
          ),
        ),
      ),
    ),
  ),
)

abbrev pub first_launch : Options → Options
first_launch o = record o { first_time_launch = true }

-- The default file was made and read: the options are those of its settings, and the system, the start-up
-- switches, the networks and the terminal are as they were.
abbrev pub Defaults : World → ℕ → World → Type 0
Defaults w code w' =
    (code ≡ exit_success)
    × (w'.disk.cfg ≡ some (lines_of default_settings))
    × (w'.options ≡ apply_settings default_settings (first_launch w.options))
    × (w'.os ≡ w.os)
    × (rest_of w' ≡ rest_of w)

-- Where there is no configuration file and the system refuses nothing, the default one is written and
-- read back: the run is defined and returns EXIT_SUCCESS, the file holds the default settings, the
-- first launch is signalled, and the options are the ones that evaluating those settings in their order
-- leaves. The system, the start-up switches, the networks and the terminal stay.
pub config_readcfg-none :
    (w : World) → GrantsAll w.os → w.disk.cfg ≡ none → Returns (Defaults w) (config_readcfg w)
unfolding config_readcfg
config_readcfg-none w grants missing =
    let (count, disk, (options, os, _, rest)) = config_count_entries-none false w missing in
    let w1 = (config_count_entries false w).1 in
    let (found, disk', (options', os', _, rest')) =
      file_exists-missing cfg_path w1 (rw (disk, missing) refl) in
    let w2 = record (file_exists (some cfg_path) w1).1 {
      options = record (file_exists (some cfg_path) w1).1.options { first_time_launch = true };
    } in
    let (made, written, (options'', os'', _, rest'')) =
      config_createcfg_lem w2 (rw (os', os) grants) in
    let w3 = (config_createcfg w2).1 in
    let lines : w3.disk.cfg ≡ some (lines_of default_settings) =
      ap (λ d. d.cfg) written ∙ ap some (sym default_settings-lines) in
    rw (found, count, made)
      (Returns-mono (StoresAll default_settings w3) (Defaults w) _
        (λ code w' (success, stored, (os3, kept, _, rest3)). (
          success,
          ap (λ d. d.cfg) kept ∙ lines,
          stored
              ∙ ap (apply_settings default_settings)
                  (options'' ∙ ap first_launch (options' ∙ options)),
          os3 ∙ (os'' ∙ (os' ∙ os)),
          rest3 ∙ (rest'' ∙ (rest' ∙ rest)),
        ))
        (read_file-lines_of default_settings w3 default_settings-AllWritable refl
          (rw (os'', os', os) grants) lines))
