-- ===== src/Base/Args/Exits.antt =====
-- Which start-up arguments are known, which end the program, and what `--debug` sets.
use central_node.Common.{
  ℕ, zero, suc, ◌<◌, ◌≡◌, ◌↔◌, ◌⊎◌, inl, inr, refl, sym, ap, ◌∙◌, Bool, true, false, ◌||◌, ◌&&◌,
  Option, none, some, List, [], ◌∷◌, arith, ◌==◌, ==_iff, if◌then◌else◌, length, get_elem?,
  Bool-cases,
}
use mathlib.Core.Option.{some-injective}
use central_node.Common.Text.{Bytes, codes, strncmp_eq}
use central_node.Sys.Logging.{log_write}
use central_node.Sys.Config.File.{config_read_uuid}
use central_node.Sys.Config.File.Uuid.{
  config_read_uuid-KeepsProgram, config_create_uuid-KeepsProgram,
}
use central_node.World.{num, LogSettings, World, exit_success, exit_failure}
use central_node.Sys.Logging.{log_debug, setloglvl}
use central_node.Sys.Logging.Level.{set_all, set_all-locked, setloglvl_lem, setloglvl-force}
use central_node.Base.Args.{
  cnode_sarg_cmplen, cnode_sarg_unknown, cnode_execution_exit, cnode_eval_sarg, run_sarg, run_sargs,
  cnode_parse_sargs, gen_uuid,
}

-- A comparison of more bytes than the second string has is an equation.
strncmp_eq-whole : (a b : Bytes) (n : ℕ) → length b < n → strncmp_eq a b n ≡ true → a ≡ b
unfolding strncmp_eq
strncmp_eq-whole a b zero fits same = absurd (omega arith)
strncmp_eq-whole [] [] (suc n) fits same = refl
strncmp_eq-whole [] (y ∷ b) (suc n) fits same = absurd (ground arith)
strncmp_eq-whole (x ∷ a) [] (suc n) fits same = absurd (ground arith)
strncmp_eq-whole (x ∷ a) (y ∷ b) (suc n) fits same =
    rw ((==_iff x y).0 (ground arith), strncmp_eq-whole a b n (omega arith) (ground arith)) refl

-- The known arguments, by their numbers.
abbrev sarg_names : List Bytes
sarg_names =
    codes "--cleanup"
    ∷ codes "--panic"
    ∷ codes "--resetcfg"
    ∷ codes "--debug"
    ∷ codes "--testcolor"
    ∷ codes "--genuuid"
    ∷ []

abbrev Known : Bytes → ℕ → Type 0
Known s i = (i ≡ cnode_sarg_unknown) ⊎ (get_elem? sarg_names i ≡ some s)

Known-if :
    (s name : Bytes) (i rest : ℕ)
    → get_elem? sarg_names i ≡ some name
    → length name < 16
    → Known s rest
    → Known s (if strncmp_eq s name cnode_sarg_cmplen then i else rest)
Known-if s name i rest named fits later = elim (Bool-cases (strncmp_eq s name cnode_sarg_cmplen)) [
  | inl same ↦ rw same (inr (named ∙ ap some (sym (strncmp_eq-whole s name 16 fits same))))
  | inr other ↦ rw other later
]

cnode_eval_sarg-Known : (s : Bytes) → Known s (cnode_eval_sarg s)
unfolding cnode_eval_sarg
cnode_eval_sarg-Known s = Known-if s _ 0 _ refl (omega arith) (
    Known-if s _ 1 _ refl (omega arith) (
      Known-if s _ 2 _ refl (omega arith) (
        Known-if s _ 3 _ refl (omega arith)
          (Known-if s _ 4 _ refl (omega arith) (Known-if s _ 5 _ refl (omega arith) (inl refl))))))

abbrev code_of : Option Bytes → ℕ
code_of none = cnode_sarg_unknown
code_of (some s) = cnode_eval_sarg s

names-eval_sarg :
    (i : ℕ) (name : Bytes) → get_elem? sarg_names i ≡ some name → cnode_eval_sarg name ≡ i
unfolding cnode_eval_sarg strncmp_eq
names-eval_sarg zero name h = sym (ap code_of h)
names-eval_sarg (suc zero) name h = sym (ap code_of h)
names-eval_sarg (suc (suc zero)) name h = sym (ap code_of h)
names-eval_sarg (suc (suc (suc zero))) name h = sym (ap code_of h)
names-eval_sarg (suc (suc (suc (suc zero)))) name h = sym (ap code_of h)
names-eval_sarg (suc (suc (suc (suc (suc zero))))) name h = sym (ap code_of h)
names-eval_sarg (suc (suc (suc (suc (suc (suc i)))))) name h = absurd (ground (arith, h))

-- `cnode_eval_sarg` gives a number below CNODE_SARGN exactly for the argument that the table has there.
cnode_eval_sarg_iff :
    (s : Bytes) (i : ℕ) → i < 6 → (cnode_eval_sarg s ≡ i) ↔ (get_elem? sarg_names i ≡ some s)
cnode_eval_sarg_iff s i known = (
  λ found. elim (cnode_eval_sarg-Known s) [
    | inl unknown ↦ absurd (omega arith)
    | inr named ↦ rw (← found) named
  ],
  names-eval_sarg i s,
)

-- Whether two texts are the same.
pub is_text : Bytes → Bytes → Bool
is_text [] [] = true
is_text [] (y ∷ ys) = false
is_text (x ∷ xs) [] = false
is_text (x ∷ xs) (y ∷ ys) = x == y && is_text xs ys

is_text-same : (a b : Bytes) → is_text a b ≡ true → a ≡ b
unfolding is_text
is_text-same [] [] same = refl
is_text-same [] (y ∷ ys) same = absurd (ground (arith, same))
is_text-same (x ∷ xs) [] same = absurd (ground (arith, same))
is_text-same (x ∷ xs) (y ∷ ys) same =
    rw ((==_iff x y).0 (ground (arith, same)), is_text-same xs ys (ground (arith, same))) refl

is_text_refl : (a : Bytes) → is_text a a ≡ true
unfolding is_text
is_text_refl [] = refl
is_text_refl (x ∷ xs) = let rest = is_text_refl xs in rw rest (ground arith)

Bool-same : (a b : Bool) → (a ≡ true → b ≡ true) → (b ≡ true → a ≡ true) → a ≡ b
Bool-same true b there back = sym (there refl)
Bool-same false true there back = back refl
Bool-same false false there back = refl

-- The number of an argument is the one of a name exactly if it is that name.
eval_sarg-is_text :
    (s name : Bytes) (i : ℕ)
    → i < 6
    → get_elem? sarg_names i ≡ some name
    → (cnode_eval_sarg s == i) ≡ is_text s name
eval_sarg-is_text s name i known named =
    Bool-same (cnode_eval_sarg s == i) (is_text s name)
      (λ found.
        let there = (cnode_eval_sarg_iff s i known).0 ((==_iff (cnode_eval_sarg s) i).0 found) in
        rw (some-injective s name (sym there ∙ named)) (is_text_refl name))
      (λ same.
        (==_iff (cnode_eval_sarg s) i).1
          ((cnode_eval_sarg_iff s i known).1 (named ∙ ap some (sym (is_text-same s name same)))))

-- The argument is --cleanup or --genuuid.
abbrev pub ends_program : Bytes → Bool
ends_program arg = is_text arg (codes "--cleanup") || is_text arg (codes "--genuuid")

abbrev pub any : (Bytes → Bool) → List Bytes → Bool
any test [] = false
any test (arg ∷ args) = test arg || any test args

run_sarg-code :
    (arg : Bytes) (ret_code : ℕ) (w : World)
    → (run_sarg arg ret_code w).0 ≡ (if ends_program arg then cnode_execution_exit else ret_code)
unfolding run_sarg
run_sarg-code arg ret_code w =
    rw
      (
        ← eval_sarg-is_text arg (codes "--cleanup") 0 (omega arith) refl,
        ← eval_sarg-is_text arg (codes "--genuuid") 5 (omega arith) refl,
      )
      (ground arith)

run_sargs-code :
    (args : List Bytes) (ret_code : ℕ) (w : World)
    → (run_sargs args ret_code w).0
      ≡ (if any ends_program args then cnode_execution_exit else ret_code)
unfolding run_sargs
run_sargs-code [] ret_code w = refl
run_sargs-code (arg ∷ args) ret_code w =
    let here = run_sarg-code arg ret_code w in
    let rest = run_sargs-code args (run_sarg arg ret_code w).0 (run_sarg arg ret_code w).1 in
    rest ∙ rw here (ground arith)

-- `cnode_parse_sargs` tells the program to end exactly if one of the arguments, wherever it stands, is
-- --cleanup or --genuuid.
pub cnode_parse_sargs-code :
    (args : List Bytes) (w : World)
    → (cnode_parse_sargs args w).0
      ≡ (if any ends_program args then cnode_execution_exit else exit_success)
unfolding cnode_parse_sargs
cnode_parse_sargs-code args w = run_sargs-code args exit_success w

abbrev pub is_debug : Bytes → Bool
is_debug arg = is_text arg (codes "--debug")

abbrev pub locked : LogSettings → LogSettings
locked log = record log { log_level_force_set = true; log_level = log_debug }

gen_uuid-KeepsProgram : (w : World) → (gen_uuid w).1.log ≡ w.log
unfolding gen_uuid
gen_uuid-KeepsProgram w =
    elim (Bool-cases (
      (config_read_uuid (log_write log_debug "Checking for existing UUID.." [] w).1).0.0
      == exit_success)) [
        | inl found ↦ rw found (config_read_uuid-KeepsProgram _).5
        | inr missing ↦
            rw missing ((config_create_uuid-KeepsProgram _).5 ∙ (config_read_uuid-KeepsProgram _).5)
      ]

run_sarg-log :
    (arg : Bytes) (ret_code : ℕ) (w : World)
    → (run_sarg arg ret_code w).1.log ≡ (if is_debug arg then locked w.log else w.log)
unfolding run_sarg
run_sarg-log arg ret_code w =
    rw (← eval_sarg-is_text arg (codes "--debug") 3 (omega arith) refl)
      (ground (arith, gen_uuid-KeepsProgram w, setloglvl-force log_debug w.log))

run_sargs-log :
    (args : List Bytes) (ret_code : ℕ) (w : World)
    → (run_sargs args ret_code w).1.log ≡ (if any is_debug args then locked w.log else w.log)
unfolding run_sargs
run_sargs-log [] ret_code w = refl
run_sargs-log (arg ∷ args) ret_code w =
    let here = run_sarg-log arg ret_code w in
    let rest = run_sargs-log args (run_sarg arg ret_code w).0 (run_sarg arg ret_code w).1 in
    rest ∙ rw here (ground arith)

-- The log settings after `cnode_parse_sargs` are the old ones, unless --debug is among the arguments:
-- then the level is LOG_DEBUG and locked, so that however many calls of `cnode_setloglvl` without force
-- follow, each fails and leaves it, where they would go by the old settings otherwise.
pub cnode_parse_sargs-log :
    (args : List Bytes) (ls : List ℕ) (l : ℕ) (w : World)
    → let log = (cnode_parse_sargs args w).1.log in
      let debug = any is_debug args in
      (log ≡ (if debug then locked w.log else w.log))
      × (setloglvl l false (set_all ls log)
          ≡ (if debug then (exit_failure, locked w.log) else setloglvl l false (set_all ls w.log)))
unfolding cnode_parse_sargs
cnode_parse_sargs-log args ls l w =
    let log = run_sargs-log args exit_success w in
    (
      log,
      ap (λ g. setloglvl l false (set_all ls g)) log ∙ elim (Bool-cases (any is_debug args)) [
        | inl debug ↦
            rw (debug, set_all-locked ls (locked w.log) refl) (setloglvl_lem l (locked w.log))
        | inr quiet ↦ rw quiet refl
      ],
    )

-- Without arguments the evaluation succeeds and touches only the log.
pub cnode_parse_sargs-nil :
    (w : World)
    → cnode_parse_sargs [] w ≡ (
      exit_success,
      (log_write log_debug "Evaluated all known startup parameters [%d]" (num 1 ∷ []) w).1,
    )
unfolding cnode_parse_sargs run_sargs
cnode_parse_sargs-nil w = refl
