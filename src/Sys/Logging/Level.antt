-- ===== src/Sys/Logging/Level.antt =====
-- The lock on the log level: `cnode_setloglvl` of src/base/cnode.c.
use central_node.Common.{
  ℕ, ◌≤◌, ◌≡◌, refl, true, false, List, [], ◌∷◌, some, String, Option-cases, inl, inr, arith,
  if◌then◌else◌,
}
use central_node.World.{LogSettings, exit_success, exit_failure}
use central_node.Sys.Logging.{setloglvl, log_lvl_to_str, log_critical}

-- Calls without `force`, in order.
pub set_all : List ℕ → LogSettings → LogSettings
set_all [] log = log
set_all (l ∷ ls) log = set_all ls (setloglvl l false log).1

setloglvl-locked :
    (l : ℕ) (log : LogSettings) → log.log_level_force_set ≡ true → (setloglvl l false log).1 ≡ log
unfolding setloglvl
setloglvl-locked l log h = ground arith

pub set_all-locked :
    (ls : List ℕ) (log : LogSettings) → log.log_level_force_set ≡ true → set_all ls log ≡ log
unfolding set_all
set_all-locked [] log h = refl
set_all-locked (l ∷ ls) log h = rw (setloglvl-locked l log h) (set_all-locked ls log h)

-- Once the level is forced, calls without force leave it as it is, however many follow, and each
-- reports failure.
pub setloglvl_lock :
    (forced l : ℕ) (ls : List ℕ) (log : LogSettings)
    → let locked = (setloglvl forced true log).1 in
      ((set_all ls locked).log_level ≡ forced)
      × ((setloglvl l false (set_all ls locked)).0 ≡ exit_failure)
unfolding setloglvl
setloglvl_lock forced l ls log =
    let same = set_all-locked ls (setloglvl forced true log).1 refl in rw same (refl, refl)

pub setloglvl-force :
    (l : ℕ) (log : LogSettings)
    → (setloglvl l true log).1 ≡ record log { log_level_force_set = true; log_level = l }
unfolding setloglvl
setloglvl-force l log = refl

-- A call without force, in one equation.
pub setloglvl_lem :
    (l : ℕ) (log : LogSettings)
    → setloglvl l false log ≡ (
        if log.log_level_force_set
        then (exit_failure, log)
        else (exit_success, record log { log_level = l }))
unfolding setloglvl
setloglvl_lem l log = ground arith

-- Every level that the configuration can set has a name.
pub log_lvl_to_str-some : (l : ℕ) → l ≤ log_critical → (s : String) × (log_lvl_to_str l ≡ some s)
unfolding log_lvl_to_str
log_lvl_to_str-some l h = elim (Option-cases (log_lvl_to_str l)) [
  | inl unnamed ↦ absurd (ground arith)
  | inr named ↦ named
]

-- Where the level is not locked, a call sets it with force and without. Without force it reports
-- success, and with force failure.
setloglvl-result :
    (l : ℕ) (log : LogSettings)
    → log.log_level_force_set ≡ false
    → ((setloglvl l false log).0 ≡ exit_success)
      × ((setloglvl l false log).1.log_level ≡ l)
      × ((setloglvl l true log).0 ≡ exit_failure)
      × ((setloglvl l true log).1.log_level ≡ l)
unfolding setloglvl
setloglvl-result l log h = rw h (refl, refl, refl, refl)
