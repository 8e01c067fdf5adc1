-- ===== src/World.antt =====
-- The state that the program's functions share: the parts of `struct cnode_settings`
-- (src/base/cnode.h) that they read or write, the files that they keep, and the answers of the
-- system, which is not under src/. A function of the program is a command over this state.
pub mod Faults
pub mod Keeps
pub mod Tests
pub mod Networks
pub mod Terminal
use central_node.Common.{
  ℕ, ◌+◌, Bool, true, is_some, Option, none, some, List, String, ◌==◌, if◌then◌else◌,
}
use central_node.Common.Text.{Bytes}
use central_node.World.Networks.{Net, Transfer, Transferred}
use central_node.World.Terminal.{Screen}

-- The files that the program names, and any other path.
pub data FilePath : Type 0 where
  cfg_path : FilePath
  uuid_path : FilePath
  osrelease_path : FilePath
  cfg_folder_path : FilePath
  at : Option Bytes → FilePath

-- What the program asks of the system.
pub data Request : Type 0 where
  fopen : FilePath → Request
  stat : FilePath → Request
  mkdir : Request
  opendir : FilePath → Request
  malloc : Request
  fseek : Request
  fwrite : Request
  uuid_time_safe : Request
  socket : Request
  setgid : ℕ → Request
  setuid : ℕ → Request
  finit_module : Request
  delete_module : Request
  open_module : Request
  md5_init : Request
  md5_update : Request
  md5_final : Request
  fmemopen : Request
  curl_global_init : Request
  curl_easy_init : Request
  if_nameindex : Request
  ioctl : Request
  initscr : Request
  has_colors : Request
  start_color : Request
  can_change_color : Request
  color_content : ℕ → Request
  init_color : ℕ → Request
  init_pair : ℕ → Request
  new_menu : Request
  newwin : Request
  set_menu_win : Request
  set_menu_sub : Request
  set_menu_format : Request
  set_menu_mark : Request
  post_menu : Request
  current_item : Request

-- The system's answers. A request may be refused at one call and granted at the next: the first
-- argument of `refuse` is the number of requests made before. 0 grants the request, and any other
-- answer is the error number. Outside of curses mode the terminal's driver passes on whole lines:
-- `cooked` are the bytes of a line by its keys.
pub record Os : Type 0 where
  pub refuse : ℕ → Request → ℕ
  pub stack_addr : ℕ → ℕ
  pub strerror : ℕ → Bytes
  pub uuid_text : ℕ → Bytes
  pub env : Bytes → Option Bytes
  pub transfer : ℕ → Transfer → Transferred
  pub interfaces : List (ℕ × Option Bytes)
  pub ipaddr : Bytes → Bool → Bytes
  pub terminal : ℕ × ℕ
  pub selected : ℕ → ℕ
  pub cooked : List ℕ → Bytes
  pub contents : Bytes → Bytes
  pub md5 : Bytes → Bytes

-- An argument behind the format of a log message. `%s` takes a literal or a string.
pub data Arg : Type 0 where
  num : ℕ → Arg
  str : Option Bytes → Arg
  lit : String → Arg

pub record LogLine : Type 0 where
  pub prefix : String
  pub format : String
  pub args : List Arg

-- What any call may change: the log file, its flag `log_written`, `errno`, and the requests made.
pub record Io : Type 0 where
  pub log_written : Bool
  pub log_file : List LogLine
  pub errno : ℕ
  pub calls : ℕ

-- "log settings" of the struct
pub record LogSettings : Type 0 where
  pub logfile_available : Bool
  pub log_level_force_set : Bool
  pub log_path : Option Bytes
  pub log_level : ℕ

-- "Config options" of the struct. A pointer that is `NULL` is `none`.
pub record Options : Type 0 where
  pub autofix : Bool
  pub godmode : Bool
  pub nodewd_required : Bool
  pub netlogos : Bool
  pub allow_root_execution : Bool
  pub net_nohttps : Bool
  pub net_timeout : ℕ
  pub tincifnet : Option Bytes
  pub proxyaddr : Option Bytes
  pub netrepo : Option Bytes
  pub first_time_launch : Bool
  pub longest_cfg_entry : ℕ

-- `rsp64`, `exit_status` and `last_errno` of the struct
pub record LastError : Type 0 where
  pub rsp64 : ℕ
  pub exit_status : ℕ
  pub last_errno : ℕ

-- The switches and flags that start-up sets.
pub record Startup : Type 0 where
  pub nc_color_test : Bool
  pub version : ℕ
  pub winrunning : Bool
  pub is_sys_wsl : Bool
  pub execname : Option Bytes

-- The credentials of the process.
pub record Process : Type 0 where
  pub uid : ℕ
  pub gid : ℕ

-- The files that the program keeps, and the kernel's release string.
pub record Disk : Type 0 where
  pub cfg_folder : Bool
  pub cfg : Option Bytes
  pub uuid : Option Bytes
  pub osrelease : Option Bytes

pub record World : Type 0 where
  pub os : Os
  pub io : Io
  pub log : LogSettings
  pub options : Options
  pub error : LastError
  pub startup : Startup
  pub disk : Disk
  pub process : Process
  pub net : Net
  pub screen : Screen

-- A command of the program: it returns a value and the new state.
abbrev pub M {ℓ} : Type ℓ → Type ℓ
M A = World → A × World

abbrev pub pure {ℓ} : {A : Type ℓ} → A → M A
pure a w = (a, w)

infixl 5 ◌>>=◌ ◌>>◌
abbrev pub ◌>>=◌ {ℓ κ} : {A : Type ℓ} {B : Type κ} → M A → (A → M B) → M B
◌>>=◌ m f w = let r = m w in f r.0 r.1

abbrev pub ◌>>◌ {ℓ} : {B : Type ℓ} → M (Unit {0}) → M B → M B
m >> k = m >>= λ _. k

-- A part of the state that a command reads.
abbrev pub gets {ℓ} : {A : Type ℓ} → (World → A) → M A
gets f w = (f w, w)

abbrev pub modify : (World → World) → M (Unit {0})
modify f w = (tt, f w)

-- Whether a path is there. Of a path that the model does not keep the system's answer decides.
abbrev pub exists_at : FilePath → Disk → Bool
exists_at cfg_path d = is_some d.cfg
exists_at uuid_path d = is_some d.uuid
exists_at osrelease_path d = is_some d.osrelease
exists_at cfg_folder_path d = d.cfg_folder
exists_at (at p) d = true

-- A file of the disk by its path. The log file's content is kept by lines, in `Io`.
abbrev pub file_at : FilePath → Disk → Option Bytes
file_at cfg_path d = d.cfg
file_at uuid_path d = d.uuid
file_at osrelease_path d = d.osrelease
file_at cfg_folder_path d = none
file_at (at p) d = none

-- The system's answer to a request; `errno` is set where it is refused.
unfoldable pub answer : Request → Os → Io → ℕ × Io
answer r os io =
    let e = os.refuse io.calls r in
    let asked = record io { calls = io.calls + 1 } in
    if e == 0 then (0, asked) else (e, record asked { errno = e })

abbrev pub ask : Request → M ℕ
ask r w = let a = answer r w.os w.io in (a.0, record w { io = a.1 })

-- A request of a library that gives its own error number and leaves `errno`.
abbrev pub ask_plain : Request → M ℕ
ask_plain r w = (w.os.refuse w.io.calls r, record w { io = record w.io { calls = w.io.calls + 1 } })

-- A failed call of the C library that sets `errno`.
abbrev pub set_errno : ℕ → M (Unit {0})
set_errno e w = (tt, record w { io = record w.io { errno = e } })

abbrev pub exit_success : ℕ
exit_success = 0

abbrev pub exit_failure : ℕ
exit_failure = 1

-- ENOENT, EIO, EINVAL, ERANGE, EBADFD and EPERM of errno.h, which is not under src/
abbrev pub enoent : ℕ
enoent = 2

abbrev eio : ℕ
eio = 5

abbrev pub einval : ℕ
einval = 22

abbrev pub erange : ℕ
erange = 34

abbrev pub ebadfd : ℕ
ebadfd = 77

abbrev pub eperm : ℕ
eperm = 1

-- `fopen(path, "rb")`: the bytes to read, or none for `NULL`
unfoldable pub open_read : FilePath → M (Option Bytes)
unfolding answer
open_read p = do
  e ← ask (fopen p)
  d ← gets (λ w. w.disk)
  if e == 0
      then elim (file_at p d) [
        | some text ↦ pure (some text)
        | none ↦ (do set_errno enoent; pure none)
      ]
      else pure none
