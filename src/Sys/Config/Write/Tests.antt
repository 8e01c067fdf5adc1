-- ===== src/Sys/Config/Write/Tests.antt =====
-- Runs of `config_writevalue`.
use central_node.Common.{◌≡◌, refl, some, [], ◌∷◌, ◌++◌, arith}
use central_node.Common.Text.{Bytes, codes, c_str, fgets, show, strncmp_eq, digits_of}
use central_node.World.{World, answer, open_read}
use central_node.World.Tests.{started}
use central_node.Sys.Config.Entry.{
  cfg_timeout, config_entry_to_str, config_str_to_entry, find_entry,
}
use central_node.Sys.Config.Eval.{of_ulong}
use central_node.Sys.Config.Write.{
  format_line, replace_line, find_line, write_to, config_writevalue,
}
use central_node.Sys.Config.Write.Line.{Replaces, with_value, config_writevalue-line_of}
use central_node.Sys.Config.Entry.{cfg_godmode}
use central_node.Sys.Config.Read.Names.{name_of}
use central_node.Sys.Config.Read.Line.{Setting, number, line_of}
use central_node.Sys.Config.Read.Lines.{lines_of}
use central_node.Sys.Config.Read.Fresh.{small-IsWritable}

abbrev two_lines : Bytes
two_lines = codes "TIMEOUT=\"15\"\nNTUNDEV=\"tun0\"\n"

abbrev writable : World
writable = record started { disk = record started.disk { cfg = some two_lines } }

-- A file with the line of another entry, the line of the timeout, and a line behind it.
abbrev god_mode : Setting
god_mode = record { entry = cfg_godmode; value = number 0 }

abbrev timeout : Setting
timeout = record { entry = cfg_timeout; value = number 15 }

abbrev behind_timeout : Bytes
behind_timeout = codes "NTUNDEV=\"tun0\"\n"

abbrev three_lines : World
three_lines = record started {
  disk = record started.disk {
    cfg = some (lines_of (god_mode ∷ []) ++ (line_of timeout ++ b'\n' ∷ behind_timeout));
  };
}

config_writevalue-line_of_example :
    let written = config_writevalue cfg_timeout (some (of_ulong 120)) three_lines in
    Replaces
      (lines_of (god_mode ∷ []))
      (line_of (with_value timeout (number 120)) ++ b'\n' ∷ [])
      (line_of timeout ++ b'\n' ∷ behind_timeout)
      three_lines
      written.0
      written.1
unfolding line_of name_of config_entry_to_str show digits_of
config_writevalue-line_of_example =
    config_writevalue-line_of (god_mode ∷ []) timeout (number 120) behind_timeout three_lines
      (small-IsWritable cfg_godmode 0 (omega arith) (omega arith), tt) (refl, tt) (omega arith)
      (small-IsWritable cfg_timeout 15 (omega arith) (omega arith))
      (small-IsWritable cfg_timeout 120 (omega arith) (omega arith)) (omega arith) (λ n r. refl)
      refl

-- A value of the same length takes the place of the old one.
same_length :
    (config_writevalue cfg_timeout (some (of_ulong 30)) writable).1.disk.cfg
    ≡ some (codes "TIMEOUT=\"30\"\nNTUNDEV=\"tun0\"\n")
unfolding config_writevalue write_to find_line replace_line format_line config_entry_to_str
    config_str_to_entry find_entry open_read answer fgets c_str strncmp_eq show digits_of
same_length = refl

-- A shorter value leaves the end of the old line, here its newline.
shorter :
    (config_writevalue cfg_timeout (some (of_ulong 5)) writable).1.disk.cfg
    ≡ some (codes "TIMEOUT=\"5\"\n\nNTUNDEV=\"tun0\"\n")
unfolding config_writevalue write_to find_line replace_line format_line config_entry_to_str
    config_str_to_entry find_entry open_read answer fgets c_str strncmp_eq show digits_of
shorter = refl

-- A longer value overwrites the beginning of the next line.
longer :
    (config_writevalue cfg_timeout (some (of_ulong 120)) writable).1.disk.cfg
    ≡ some (codes "TIMEOUT=\"120\"\nTUNDEV=\"tun0\"\n")
unfolding config_writevalue write_to find_line replace_line format_line config_entry_to_str
    config_str_to_entry find_entry open_read answer fgets c_str strncmp_eq show digits_of
longer = refl
