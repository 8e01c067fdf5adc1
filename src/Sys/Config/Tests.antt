-- ===== src/Sys/Config/Tests.antt =====
-- The theorems on src/sys/config.c at concrete settings, values and states.
use central_node.Common.{◌≡◌, ◌↔◌, refl, true, some, [], ◌∷◌, ◌++◌, arith, if◌then◌else◌}
use central_node.Common.Text.{codes}
use central_node.World.{World, exit_success, exit_failure}
use central_node.World.Faults.{Returns}
use central_node.World.Tests.{started, uuid_example}
use central_node.Sys.Sysctl.Granted.{KeepsOptions}
use central_node.Sys.Config.Entry.{
  config_entry_to_str, config_str_to_entry, cfg_fmt_machine, cfg_timeout, cfg_tundev, cfg_netlogo,
  cfg_null,
}
use central_node.Sys.Config.Entry.RoundTrip.{config_str_to_entry_iff}
use central_node.Sys.Config.Eval.{config_evalentry, of_ulong, of_text, as_bool}
use central_node.Sys.Config.Value.{Field, flag, config_get_value, config_get_value-evalentry}
use central_node.Sys.Config.Eval.Switches.{
  is_refused, put_entry, is_taken, config_evalentry-options, config_evalentry-code,
}
use central_node.Sys.Config.Eval.Bounds.{IsFitting, config_evalentry-IsFitting}
use central_node.Sys.Config.File.{config_createcfg, config_read_uuid, config_entries}
use central_node.Sys.Config.File.Default.{joined, AreLines, config_createcfg_lem}
use central_node.Sys.Config.File.Uuid.{IsUuidText, config_read_uuid-none}
use central_node.Sys.Config.Read.{stop, read_entry, config_readcfg}
use central_node.Sys.Config.Read.Line.{
  Setting, number, line_of, Stores, read_entry-line_of, lacks, lacks-Lacks,
}
use central_node.Sys.Config.Read.Lines.{lines_of, StoresAll}
use central_node.Sys.Config.Read.File.{config_readcfg-lines_of}
use central_node.Sys.Config.Read.Fresh.{
  Defaults, default_settings, default_settings-AllWritable, config_readcfg-none,
}
use central_node.Sys.Config.Read.Null.{read_entry-cfg_null}

-- A start with the default configuration on the disk.
abbrev configured : World
configured = record started {
  disk = record started.disk { cfg = some (lines_of default_settings) };
}

config_readcfg-lines_of_example :
    Returns (StoresAll default_settings configured) (config_readcfg configured)
config_readcfg-lines_of_example =
    config_readcfg-lines_of default_settings configured default_settings-AllWritable refl
      (λ n r. refl) refl

config_readcfg-none_example : Returns (Defaults started) (config_readcfg started)
config_readcfg-none_example = config_readcfg-none started (λ n r. refl) refl

abbrev timeout_setting : Setting
timeout_setting = record { entry = cfg_timeout; value = number 30 }

read_entry-line_of_example :
    Returns
      (Stores timeout_setting started)
      (read_entry 2 (line_of timeout_setting ++ b'\n' ∷ []) started)
read_entry-line_of_example =
    read_entry-line_of timeout_setting 2 started
      (record {
        known = omega arith;
        suits = (omega arith, omega arith, λ p. absurd (omega arith));
      })
      (omega arith) (λ n. refl)

read_entry-cfg_null_example :
    Returns
      (λ r w'. (r ≡ stop exit_failure) × (w'.options ≡ started.options))
      (read_entry 7
        (line_of (record { entry = cfg_timeout; value = number cfg_null }) ++ b'\n' ∷ [])
        started)
read_entry-cfg_null_example = read_entry-cfg_null cfg_timeout 7 started (omega arith) (omega arith)

config_evalentry-IsFitting_example :
    IsFitting (config_evalentry cfg_tundev (some (of_text (codes "tun1"))) started).1.options
config_evalentry-IsFitting_example =
    config_evalentry-IsFitting cfg_tundev (of_text (codes "tun1")) started (omega arith)
      (record { tun = tt; proxy = tt; repo = tt; longest = omega arith; multiple = refl })

config_evalentry-options_example :
    (config_evalentry cfg_netlogo (some (of_ulong 2)) started).1.options ≡ (
      if is_refused cfg_netlogo (of_ulong 2)
      then started.options
      else put_entry cfg_netlogo (of_ulong 2) started.options)
config_evalentry-options_example = config_evalentry-options cfg_netlogo (of_ulong 2) started

config_evalentry-code_example : (config_evalentry cfg_netlogo (some (of_ulong 2)) started).0 ≡ (
    if is_taken cfg_netlogo (of_ulong 2) started.log.log_level_force_set
    then exit_success
    else exit_failure)
config_evalentry-code_example = config_evalentry-code cfg_netlogo (of_ulong 2) started

config_str_to_entry_iff_example :
    (config_str_to_entry (codes "NTUNDEV") ≡ cfg_tundev)
    ↔ (config_entry_to_str cfg_tundev cfg_fmt_machine ≡ some (codes "NTUNDEV"))
config_str_to_entry_iff_example = config_str_to_entry_iff (codes "NTUNDEV") cfg_tundev (omega arith)

config_createcfg_lem_example :
    ((config_createcfg started).0 ≡ exit_success)
    × ((config_createcfg started).1.disk
        ≡ record started.disk { cfg_folder = true; cfg = some (joined config_entries) })
    × KeepsOptions started (config_createcfg started).1
config_createcfg_lem_example = config_createcfg_lem started (λ n r. refl)

abbrev two_lines : World
two_lines = record started {
  disk = record started.disk { cfg = some (joined (codes "AUTOFIX=\"1\"" ∷ codes "x" ∷ [])) };
}

two_lines-AreLines : AreLines (codes "AUTOFIX=\"1\"" ∷ codes "x" ∷ [])
unfolding lacks
two_lines-AreLines = (
  lacks-Lacks b'\n' (codes "AUTOFIX=\"1\"") refl,
  omega arith,
  omega arith,
  (lacks-Lacks b'\n' (codes "x") refl, omega arith, omega arith, tt),
)

uuid_example-IsUuidText : IsUuidText uuid_example
unfolding lacks
uuid_example-IsUuidText = record {
  size = refl;
  line = lacks-Lacks b'\n' uuid_example refl;
  whole = lacks-Lacks 0 uuid_example refl;
}

config_read_uuid-none_example :
    ((config_read_uuid started).0 ≡ (exit_success, some uuid_example))
    × ((config_read_uuid started).1.disk ≡ record started.disk { uuid = some uuid_example })
config_read_uuid-none_example =
    config_read_uuid-none uuid_example started uuid_example-IsUuidText (λ n r. refl) refl refl
      (λ n. refl)

config_get_value-evalentry_example :
    (config_get_value cfg_netlogo (config_evalentry cfg_netlogo (some (of_ulong 1)) started).1
      ≡ some (flag (as_bool (of_ulong 1))))
    × (config_get_value cfg_timeout (config_evalentry cfg_timeout (some (of_ulong 30)) started).1
        ≡ some (Field.number 30))
config_get_value-evalentry_example =
    config_get_value-evalentry cfg_netlogo (of_ulong 1) (of_ulong 30) started (omega arith)
      (omega arith)
