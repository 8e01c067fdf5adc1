-- ===== src/Sys/Config/Read/Lines.antt =====
-- What the loop of `config_readcfg` makes of a file of well-formed lines.
use central_node.Common.{
  ℕ, suc, ◌+◌, ◌-◌, ◌≤◌, ◌<◌, ◌≡◌, refl, ap, ◌∙◌, List, [], ◌∷◌, ◌++◌, arith, length, length-append,
}
use central_node.Common.Text.{Bytes, c_str, fgets}
use central_node.Common.Text.Scan.{Lacks, Lacks-append, c_str-Lacks, fgets-line}
use central_node.Common.Text.Numbers.{show-Lacks, length-show-le}
use central_node.World.{World, Options, exit_success}
use central_node.World.Faults.{Returns, Returns-and_then, Returns-mono}
use central_node.Sys.Config.Entry.{cfg_nentries, cfg_arg_max}
use central_node.Sys.Config.Eval.Same.{SameElsewhere}
use central_node.Sys.Config.Read.{next, read_entry, read_entries}
use central_node.Sys.Config.Read.Line.{
  Value, number, text, Setting, IsWritable, GrantsMemory, Suits, Stores, apply_setting, line_of,
  line_of_parts, value_bytes, opening, opening-Lacks, read_entry-line_of,
}

-- A configuration file: a line for each setting.
unfoldable pub lines_of : List Setting → Bytes
lines_of [] = []
lines_of (s ∷ ss) = line_of s ++ b'\n' ∷ lines_of ss

abbrev pub AllWritable : List Setting → Type 0
AllWritable [] = Unit {0}
AllWritable (s ∷ ss) = IsWritable s × AllWritable ss

-- The settings are applied in the order of the lines.
abbrev pub apply_settings : List Setting → Options → Options
apply_settings [] o = o
apply_settings (s ∷ ss) o = apply_settings ss (apply_setting s o)

value_bytes-Lacks :
    (e : ℕ) (v : Value) → Suits e v → Lacks b'\n' (value_bytes v) × Lacks 0 (value_bytes v)
value_bytes-Lacks e (number n) suits = (show-Lacks n b'\n' refl, show-Lacks n 0 refl)
value_bytes-Lacks e (text s) suits = (suits.4, suits.5)

length-value_bytes-le : (e : ℕ) (v : Value) → Suits e v → length (value_bytes v) ≤ 115
length-value_bytes-le e (number n) suits = omega (arith, length-show-le n)
length-value_bytes-le e (text s) suits = omega arith

-- A line holds no newline and no zero byte, and fits the buffer with its newline.
pub line_of-Lacks :
    (s : Setting)
    → IsWritable s
    → Lacks b'\n' (line_of s) × Lacks 0 (line_of s) × (length (line_of s) < 126)
line_of-Lacks s ok =
    let (_, line, nul, size) = opening-Lacks s.entry ok.known in
    let (line_v, nul_v) = value_bytes-Lacks s.entry s.value ok.suits in
    let small = length-value_bytes-le s.entry s.value ok.suits in
    rw (line_of_parts s) (
      Lacks-append b'\n' (opening s.entry) _ line
          (refl, Lacks-append b'\n' (value_bytes s.value) _ line_v (refl, tt)),
      Lacks-append 0 (opening s.entry) _ nul
          (refl, Lacks-append 0 (value_bytes s.value) _ nul_v (refl, tt)),
      omega (
        arith,
        length-append (opening s.entry) (b'"' ∷ (value_bytes s.value ++ b'"' ∷ [])),
        length-append (value_bytes s.value) (b'"' ∷ []),
      ),
    )

-- A run that ends with success, with the settings applied, and that touches only the log, its
-- settings, the options and the last error.
abbrev pub StoresAll : List Setting → World → ℕ → World → Type 0
StoresAll ss w code w' =
    (code ≡ exit_success) × (w'.options ≡ apply_settings ss w.options) × SameElsewhere w w'

-- A round that goes on leaves its rest to the later rounds.
read_entries-next :
    (k i : ℕ) (fp line rest : Bytes) (s : Setting) (w : World) (Q : ℕ → World → Type 0)
    → fgets (cfg_arg_max - 1) fp ≡ (line, rest)
    → c_str line ≡ line
    → Returns (Stores s w) (read_entry i line w)
    → ((w' : World) → Stores s w next w' → Returns Q (read_entries k (i + 1) rest w'))
    → Returns Q (read_entries (suc k) i fp w)
unfolding read_entries
read_entries-next k i fp line rest s w Q got whole round later =
    let read = read_entry i (c_str (fgets (cfg_arg_max - 1) fp).0) w in
    let same : c_str (fgets (cfg_arg_max - 1) fp).0 ≡ line = rw got whole in
    Returns-and_then (Stores s w) Q read _ (rw same round)
      (λ r w' (goes_on, options, same_elsewhere).
        rw (goes_on, got) (later w' (refl, options, same_elsewhere)))

-- The loop over a file of writable lines, for the entries that are left to read: where memory is
-- granted the run is defined and returns EXIT_SUCCESS, and the options are the ones that evaluating
-- the settings in their order leaves.
pub read_entries-lines_of :
    (ss : List Setting) (i : ℕ) (w : World)
    → AllWritable ss
    → i + length ss ≡ cfg_nentries
    → GrantsMemory w.os
    → Returns (StoresAll ss w) (read_entries (length ss) i (lines_of ss) w)
unfolding lines_of
read_entries-lines_of [] i w ok size grants =
    unfold read_entries in (refl, refl, (refl, refl, refl, refl))
read_entries-lines_of (s ∷ ss) i w ok size grants =
    let (line, nul, short) = line_of-Lacks s ok.0 in
    read_entries-next (length ss) i (line_of s ++ b'\n' ∷ lines_of ss) (line_of s ++ b'\n' ∷ [])
      (lines_of ss) s w (StoresAll (s ∷ ss) w)
      (fgets-line (cfg_arg_max - 1) (line_of s) (lines_of ss) line (omega arith))
      (c_str-Lacks (line_of s ++ b'\n' ∷ [])
        (Lacks-append 0 (line_of s) (b'\n' ∷ []) nul (refl, tt)))
      (read_entry-line_of s i w ok.0 (omega arith) grants)
      (λ w' (_, options, (os, disk, process, startup)).
        Returns-mono (StoresAll ss w') (StoresAll (s ∷ ss) w) _
          (λ code w'' (success, options', (os', disk', process', startup')). (
            success,
            options' ∙ ap (apply_settings ss) options,
            (os' ∙ os, disk' ∙ disk, process' ∙ process, startup' ∙ startup),
          ))
          (read_entries-lines_of ss (i + 1) w' ok.1 (omega arith) (rw os grants)))
