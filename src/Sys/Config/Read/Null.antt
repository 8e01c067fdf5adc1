-- ===== src/Sys/Config/Read/Null.antt =====
-- The value 255 of `config_readcfg`.
use central_node.Common.{
  ℕ, ◌+◌, ◌<◌, ◌≡◌, refl, true, false, [], ◌∷◌, ◌++◌, arith, leb, ◌==◌, length,
}
use central_node.Common.Text.{Bytes, show}
use central_node.Common.Text.Numbers.{strtoul-show}
use central_node.World.{World, exit_failure}
use central_node.World.Faults.{Returns}
use central_node.Sys.Config.Entry.{cfg_nentries, cfg_null, cfg_tundev}
use central_node.Sys.Config.Read.{stop, read_entry, read_number}
use central_node.Sys.Config.Read.Line.{
  number, opening, opening-Lacks, line_of, line_of-quoted, entry_of_line, quotes_of_line,
  drop_to_value, quoted, quotes_at,
}
use central_node.Sys.Config.Read.Names.{named_lem}

read_number-cfg_null :
    (i e : ℕ) (before : Bytes) (w : World)
    → Returns
        (λ r w'. (r ≡ stop exit_failure) × (w'.options ≡ w.options))
        (read_number i e (before ++ quoted (show cfg_null)) (quotes_at before (show cfg_null)) w)
unfolding read_number
read_number-cfg_null i e before w =
    let ends : (length before + 1 + length (show cfg_null)
          == length before + 1 + length (show cfg_null))
        ≡ true =
      ground arith in
    rw
      (
        drop_to_value before (show cfg_null),
        strtoul-show cfg_null b'"' (b'\n' ∷ []) (omega arith) refl,
        ends,
      )
      (refl, refl)

read_opening-cfg_null :
    (e i : ℕ) (w : World)
    → e < cfg_tundev
    → i < cfg_nentries
    → Returns
        (λ r w'. (r ≡ stop exit_failure) × (w'.options ≡ w.options))
        (read_entry i (opening e ++ quoted (show cfg_null)) w)
unfolding read_entry
read_opening-cfg_null e i w he hi =
    let small : leb cfg_tundev e ≡ false = ground arith in
    let known : (e == cfg_null) ≡ false = ground arith in
    rw
      (
        named_lem i hi,
        read_entry,
        entry_of_line e i (show cfg_null) (omega arith) hi,
        known,
        small,
        quotes_of_line (opening e) (show cfg_null) (opening-Lacks e (omega arith)).0,
      )
      (read_number-cfg_null i e (opening e) w)

-- A line, at any place of the file, that gives a number entry the value 255, which is CFG_NULL,
-- ends the reading with EXIT_FAILURE, and the options stay as they were.
pub read_entry-cfg_null :
    (e i : ℕ) (w : World)
    → e < cfg_tundev
    → i < cfg_nentries
    → Returns
        (λ r w'. (r ≡ stop exit_failure) × (w'.options ≡ w.options))
        (read_entry i (line_of (record { entry = e; value = number cfg_null }) ++ b'\n' ∷ []) w)
read_entry-cfg_null e i w he hi =
    rw (line_of-quoted (record { entry = e; value = number cfg_null }))
      (read_opening-cfg_null e i w he hi)
