-- ===== src/Sys/Sysctl/Granted.antt =====
-- The files and folders that are there, on a system that grants every request.
use central_node.Common.{
  ℕ, ◌+◌, ◌-◌, ◌≡◌, refl, true, false, none, some, arith, leb, length, inl, inr, Option-cases,
}
use central_node.Common.Text.{Bytes}
use central_node.World.Keeps.{rest_of, KeepsProgram}
use central_node.World.{
  ◌>>=◌, FilePath, malloc, osrelease_path, cfg_path, uuid_path, cfg_folder_path, at, exit_success,
  World, Os, Request, answer, ask, open_read, exists_at, file_at, enoent,
}
use central_node.Sys.Logging.{path_max, log_set_path}
use central_node.Sys.Sysctl.{file_exists, is_wsl}

-- Every request is granted.
abbrev pub GrantsAll : Os → Type 0
GrantsAll os = (n : ℕ) (r : Request) → os.refuse n r ≡ 0

-- Neither the options nor the system, the process, the start-up switches, the networks or the terminal
-- are touched.
abbrev pub KeepsOptions : World → World → Type 0
KeepsOptions w w' =
    (w'.options ≡ w.options) × (w'.os ≡ w.os) × (w'.process ≡ w.process) × (rest_of w' ≡ rest_of w)

-- The state after a request that is granted.
abbrev pub asked_once : World → World
asked_once w = record w { io = record w.io { calls = w.io.calls + 1 } }

pub answer-granted : (r : Request) (w : World) → GrantsAll w.os → ask r w ≡ (0, asked_once w)
unfolding answer
answer-granted r w grants = rw (grants w.io.calls r) refl

pub open_read-granted :
    (p : FilePath) (text : Bytes) (w : World)
    → GrantsAll w.os
    → file_at p w.disk ≡ some text
    → open_read p w ≡ (some text, asked_once w)
unfolding open_read answer
open_read-granted p text w grants there = rw (grants w.io.calls, there) refl

pub open_read-missing :
    (p : FilePath) (w : World)
    → GrantsAll w.os
    → file_at p w.disk ≡ none
    → open_read p w
      ≡ (none, record w { io = record w.io { calls = w.io.calls + 1; errno = enoent } })
unfolding open_read answer
open_read-missing p w grants missing = rw (grants w.io.calls, missing) refl

pub file_exists-there :
    (p : FilePath) (w : World)
    → GrantsAll w.os
    → exists_at p w.disk ≡ true
    → file_exists (some p) w ≡ (true, asked_once w)
unfolding file_exists answer
file_exists-there p w grants there = rw (grants w.io.calls, there) refl

-- A missing file is found missing; only the log, the errors and `errno` change.
pub file_exists-missing :
    (p : FilePath) (w : World)
    → exists_at p w.disk ≡ false
    → ((file_exists (some p) w).0 ≡ false)
      × ((file_exists (some p) w).1.disk ≡ w.disk)
      × KeepsOptions w (file_exists (some p) w).1
unfolding file_exists answer
file_exists-missing p w missing = ground (arith, missing)

pub open_read-KeepsProgram : (p : FilePath) (w : World) → KeepsProgram w (open_read p w).1
unfolding open_read answer
open_read-KeepsProgram cfg_path w = ground arith
open_read-KeepsProgram uuid_path w = ground arith
open_read-KeepsProgram osrelease_path w = ground arith
open_read-KeepsProgram cfg_folder_path w = ground arith
open_read-KeepsProgram (at p) w = ground arith

-- Looking for WSL touches only the log, the errors and the requests made.
pub is_wsl-KeepsProgram : (w : World) → KeepsProgram w (is_wsl w).1
unfolding is_wsl
is_wsl-KeepsProgram w =
    let kept = open_read-KeepsProgram osrelease_path w in
    elim (Option-cases (open_read osrelease_path w).0) [
      | inl missing ↦ rw (is_wsl, ◌>>=◌, missing) kept
      | inr (text, there) ↦ rw (is_wsl, ◌>>=◌, there) kept
    ]

-- The path of the log file is set where memory is granted, and nothing else changes.
pub log_set_path-granted :
    (path : Bytes) (w : World)
    → GrantsAll w.os
    → leb (path_max - 1) (length path) ≡ false
    → log_set_path (some path) w
      ≡ (exit_success, record (asked_once w) { log = record w.log { log_path = some path } })
unfolding log_set_path answer
log_set_path-granted path w grants fits = rw (fits, grants w.io.calls malloc) refl
