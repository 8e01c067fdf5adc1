-- ===== src/Sys/Logging/Errors.antt =====
-- NODE_SETLASTERR, `node_strerror` and the log file that they write to.
use central_node.Common.{
  ℕ, zero, suc, ◌+◌, ◌-◌, ◌≤◌, ◌≡◌, refl, sym, ap, Bool, false, ◌&&◌, List, [], ◌∷◌, ◌++◌, String,
  arith, ltb, leb, ◌==◌, ==_iff, if◌then◌else◌, get_elem?, get_elem?-none, get_elem?-some, is_some,
  Bool-cases, inl, inr,
}
use central_node.World.{Os, Arg, lit, LogLine, Io, LogSettings, World, fopen, at, exit_failure}
use central_node.Sys.Logging.{
  log_emit, log_error, node_list_str_error, find_error, node_strerror, from_table, Addr, prefix_of,
  enullptr, elasterr, log_lvl_to_str, set_last_err, text_arg,
}

find_error-get :
    (rounds i e : ℕ)
    → enullptr ≤ i
    → i + rounds ≡ elasterr
    → i ≤ e
    → find_error rounds i e ≡ get_elem? node_list_str_error (e - enullptr)
unfolding find_error
find_error-get zero i e low last h =
    sym (
      get_elem?-none node_list_str_error (e - enullptr) (unfold node_list_str_error in omega arith))
find_error-get (suc k) i e low last h = elim (Bool-cases (i == e)) [
  | inl same ↦
      rw same (ap (λ n. get_elem? node_list_str_error (n - enullptr)) ((==_iff i e).0 same))
  | inr other ↦ rw other (find_error-get k (i + 1) e (omega arith) (omega arith) (ground arith))
]

-- For every error number of Central Node, 0x700 and above, the loop of `node_strerror` finds what an
-- index into the table finds: a text exactly for the numbers below __ELASTERR, and `NULL` for the
-- others.
node_strerror-get :
    (os : Os) (e : ℕ)
    → enullptr ≤ e
    → (node_strerror os e ≡ from_table (get_elem? node_list_str_error (e - enullptr)))
      × (is_some (get_elem? node_list_str_error (e - enullptr)) ≡ ltb e elasterr)
unfolding node_strerror
node_strerror-get os e h =
    let found = find_error-get (elasterr - enullptr) enullptr e (omega arith) (omega arith) h in
    let own : ltb e enullptr ≡ false = ground arith in
    (
      rw (own, found) refl,
      elim (Bool-cases (ltb e elasterr)) [
        | inl below ↦
            let (s, is) =
              get_elem?-some node_list_str_error (e - enullptr)
                (unfold node_list_str_error in ground arith) in
            rw (is, below) refl
        | inr above ↦
            rw
              (
                get_elem?-none node_list_str_error (e - enullptr)
                    (unfold node_list_str_error in ground arith),
                above,
              )
              refl
      ],
    )

-- A message is written exactly if its level is not below the set level, the log file is available,
-- and the system opens it.
abbrev pub is_logged : ℕ → Os → LogSettings → Io → Bool
is_logged level os log io =
    leb log.log_level level
    && (log.logfile_available && os.refuse io.calls (fopen (at log.log_path)) == 0)

abbrev pub line_of : ℕ → String → List Arg → LogLine
line_of level format args = record {
  prefix = prefix_of (log_lvl_to_str level);
  format = format;
  args = args;
}

pub log_emit-log_file :
    (level : ℕ) (format : String) (args : List Arg) (os : Os) (log : LogSettings) (io : Io)
    → (log_emit level format args os log io).log_file ≡ (
        if is_logged level os log io
        then io.log_file ++ line_of level format args ∷ []
        else io.log_file)
unfolding log_emit
log_emit-log_file level format args os log io = ground arith

-- After NODE_SETLASTERR the error number and the failed exit status can be read back, whatever
-- becomes of the log. The log file keeps its lines; it gets one more, with the error's text, exactly
-- if the log level is at most LOG_ERROR, the log file is available and the system opens it.
-- The settings, the options and the files are what they were.
pub set_last_err_lem :
    (a : Addr) (info : String) (e : ℕ) (w : World)
    → let w' = (set_last_err a info e w).1 in
      (w'.error.last_errno ≡ e)
      × (w'.error.exit_status ≡ exit_failure)
      × (w'.io.log_file ≡ (
          if is_logged log_error w.os w.log w.io
          then w.io.log_file
            ++ line_of log_error "%s %s" (lit info ∷ text_arg (node_strerror w.os e) ∷ []) ∷ []
          else w.io.log_file))
      × (w'.log ≡ w.log)
      × (w'.options ≡ w.options)
      × (w'.disk ≡ w.disk)
set_last_err_lem a info e w =
    (refl, refl, log_emit-log_file log_error "%s %s" _ w.os w.log w.io, refl, refl, refl)
