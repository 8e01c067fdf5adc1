-- ===== src/Sys/Config/Read/File.antt =====
-- `config_readcfg` as a whole: a file of settings is read back, and a missing one is made first.
use central_node.Common.{
  suc, ◌<◌, ◌≡◌, refl, ap, ◌∙◌, true, false, some, List, [], ◌∷◌, ◌++◌, arith, length,
  length-append, is_some, map,
}
use central_node.World.{World, cfg_path, malloc}
use central_node.World.Faults.{Returns, Returns-mono}
use central_node.Sys.Sysctl.Granted.{GrantsAll, asked_once, open_read-granted, file_exists-there}
use central_node.Sys.Config.Entry.{cfg_nentries}
use central_node.Sys.Config.File.{config_count_entries}
use central_node.Sys.Config.File.Default.{joined, AreLines, config_count_entries-joined}
use central_node.Sys.Config.Read.{read_file, config_readcfg}
use central_node.Sys.Config.Read.Line.{Setting, line_of, line_of_parts, opening, value_bytes}
use central_node.Sys.Config.Read.Lines.{
  lines_of, AllWritable, apply_settings, StoresAll, read_entries-lines_of, line_of-Lacks,
}

length-map {ℓ κ} :
    {A : Type ℓ} {B : Type κ} (f : A → B) (xs : List A) → length (map f xs) ≡ length xs
length-map f [] = refl
length-map f (x ∷ xs) = ap suc (length-map f xs)

lines_of-joined : (ss : List Setting) → lines_of ss ≡ joined (map line_of ss)
unfolding lines_of joined
lines_of-joined [] = refl
lines_of-joined (s ∷ ss) = rw (lines_of-joined ss) refl

line_of-ne_nil : (s : Setting) → 0 < length (line_of s)
line_of-ne_nil s =
    rw (line_of_parts s)
      (omega (arith, length-append (opening s.entry) (b'"' ∷ (value_bytes s.value ++ b'"' ∷ []))))

lines_of-AreLines : (ss : List Setting) → AllWritable ss → AreLines (map line_of ss)
lines_of-AreLines [] ok = tt
lines_of-AreLines (s ∷ ss) ok =
    let (lacks, _, short) = line_of-Lacks s ok.0 in
    (lacks, line_of-ne_nil s, omega arith, lines_of-AreLines ss ok.1)

pub read_file-lines_of :
    (ss : List Setting) (w : World)
    → AllWritable ss
    → length ss ≡ cfg_nentries
    → GrantsAll w.os
    → w.disk.cfg ≡ some (lines_of ss)
    → Returns (StoresAll ss w) (read_file w)
unfolding read_file
read_file-lines_of ss w ok size grants there =
    rw (open_read-granted cfg_path (lines_of ss) w grants there, ← size)
      (read_entries-lines_of ss 0 (asked_once w) ok (omega arith) (λ n. grants n malloc))

-- A configuration file of as many writable lines as there are entries, whatever their order, is
-- read as it stands where the system refuses nothing: the run is defined and returns EXIT_SUCCESS,
-- the options are the ones that evaluating the settings in their order leaves, and the files, the
-- system, the process, the start-up switches, the networks and the terminal are what they were.
pub config_readcfg-lines_of :
    (ss : List Setting) (w : World)
    → AllWritable ss
    → length ss ≡ cfg_nentries
    → GrantsAll w.os
    → w.disk.cfg ≡ some (lines_of ss)
    → Returns (StoresAll ss w) (config_readcfg w)
unfolding config_readcfg
config_readcfg-lines_of ss w ok size grants there =
    let (count, disk, (options, os, process, startup)) =
      config_count_entries-joined (map line_of ss) false w (lines_of-AreLines ss ok) grants
        (there ∙ ap some (lines_of-joined ss)) in
    let w' = (config_count_entries false w).1 in
    let exists : is_some w'.disk.cfg ≡ true = rw (disk, there) refl in
    rw (file_exists-there cfg_path w' (rw os grants) exists, count, length-map line_of ss, size)
      (Returns-mono (StoresAll ss (asked_once w')) (StoresAll ss w) _
        (λ code w'' (success, options', (os', disk', process', startup')). (
          success,
          options' ∙ ap (apply_settings ss) options,
          (os' ∙ os, disk' ∙ disk, process' ∙ process, startup' ∙ startup),
        ))
        (read_file-lines_of ss (asked_once w') ok size (rw os grants) (rw disk there)))
