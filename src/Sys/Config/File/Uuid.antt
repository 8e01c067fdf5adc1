-- ===== src/Sys/Config/File/Uuid.antt =====
-- `config_read_uuid` where there is no UUID yet.
use central_node.Common.{
  zero, suc, List-cases, Option-cases, Bool-cases, inl, inr, ◌==◌, ℕ, ◌+◌, ◌≡◌, refl, sym, ap, ◌∙◌,
  true, none, some, [], ◌∷◌, arith, length,
}
use central_node.Common.Text.{Bytes, fgets}
use central_node.Common.Text.Scan.{Lacks, c_str-Lacks}
use central_node.World.Keeps.{KeepsProgram, KeepsProgram-trans}
use central_node.World.{open_read, World, exit_success, answer, uuid_path, enoent, ◌>>=◌}
use central_node.Sys.Sysctl.Granted.{
  GrantsAll, asked_once, open_read-missing, open_read-granted, open_read-KeepsProgram,
}
use central_node.Sys.Config.File.{
  open_write, crypto_gen_safe_uuid, config_create_uuid, read_line_of_uuid, try_open_file,
  config_read_uuid,
}

-- What `uuid_unparse` is documented to write: 36 characters, none of which ends a line.
pub record IsUuidText (s : Bytes) : Type 0 where
  pub size : length s ≡ 36
  pub line : Lacks b'\n' s
  pub whole : Lacks 0 s

fgets-all : (s : Bytes) → Lacks b'\n' s → fgets (length s) s ≡ (s, [])
unfolding fgets
fgets-all [] h = refl
fgets-all (c ∷ s) h = rw (h.0, fgets-all s h.1) refl

-- A UUID file that holds a UUID is read back whole.
read_line_of_uuid-whole :
    (s : Bytes) (w : World) → IsUuidText s → read_line_of_uuid s w ≡ ((exit_success, some s), w)
unfolding read_line_of_uuid
read_line_of_uuid-whole [] w is = absurd (omega (arith, is.size))
read_line_of_uuid-whole (c ∷ s) w is =
    let got : fgets 36 (c ∷ s) ≡ (c ∷ s, []) =
      ap (λ n. fgets n (c ∷ s)) (sym is.size) ∙ fgets-all (c ∷ s) is.line in
    rw (read_line_of_uuid, got, c_str-Lacks (c ∷ s) is.whole) refl

-- The state after a UUID file is made.
abbrev made : Bytes → World → World
made s w = record w {
  io = record w.io { calls = w.io.calls + 1 + 1 };
  disk = record w.disk { uuid = some s };
}

config_create_uuid-granted :
    (s : Bytes) (w : World)
    → GrantsAll w.os
    → w.disk.cfg_folder ≡ true
    → ((n : ℕ) → w.os.uuid_text n ≡ s)
    → config_create_uuid w ≡ ((exit_success, some s), made s w)
unfolding config_create_uuid crypto_gen_safe_uuid open_write answer
config_create_uuid-granted s w grants folder texts =
    rw (grants w.io.calls, folder, grants (w.io.calls + 1), texts (w.io.calls + 1 + 1)) refl

-- Where there is no UUID file, its folder is there, the system refuses nothing and libuuid gives
-- the text of a UUID, `config_read_uuid` reports success and that UUID, and the file holds it
-- afterwards. Nothing else on the disk changes.
pub config_read_uuid-none :
    (s : Bytes) (w : World)
    → IsUuidText s
    → GrantsAll w.os
    → w.disk.uuid ≡ none
    → w.disk.cfg_folder ≡ true
    → ((n : ℕ) → w.os.uuid_text n ≡ s)
    → ((config_read_uuid w).0 ≡ (exit_success, some s))
      × ((config_read_uuid w).1.disk ≡ record w.disk { uuid = some s })
unfolding config_read_uuid try_open_file
config_read_uuid-none s w is grants missing folder texts =
    let w1 = record w { io = record w.io { calls = w.io.calls + 1; errno = enoent } } in
    rw
      (
        config_read_uuid,
        try_open_file,
        ◌>>=◌,
        open_read-missing uuid_path w grants missing,
        config_create_uuid-granted s w1 grants folder texts,
        open_read-granted uuid_path s (made s w1) grants refl,
        read_line_of_uuid-whole s (asked_once (made s w1)) is,
      )
      (refl, refl)

pub config_create_uuid-KeepsProgram : (w : World) → KeepsProgram w (config_create_uuid w).1
unfolding config_create_uuid crypto_gen_safe_uuid open_write answer
config_create_uuid-KeepsProgram w = ground arith

read_line_of_uuid-KeepsProgram :
    (text : Bytes) (w : World) → KeepsProgram w (read_line_of_uuid text w).1
unfolding read_line_of_uuid
read_line_of_uuid-KeepsProgram text w = elim (List-cases (fgets 36 text).0) [
  | inl end ↦ rw (read_line_of_uuid, end) (refl, refl, refl, refl, refl, refl)
  | inr (c, cs, line) ↦ rw (read_line_of_uuid, line) (refl, refl, refl, refl, refl, refl)
]

try_open_file-KeepsProgram : (rounds : ℕ) (w : World) → KeepsProgram w (try_open_file rounds w).1
unfolding try_open_file
try_open_file-KeepsProgram zero w = (refl, refl, refl, refl, refl, refl)
try_open_file-KeepsProgram (suc rounds) w =
    let w1 = (open_read uuid_path w).1 in
    elim (Option-cases (open_read uuid_path w).0) [
      | inr (text, there) ↦
          rw (try_open_file, ◌>>=◌, there)
            (KeepsProgram-trans w w1 (read_line_of_uuid text w1).1
              (open_read-KeepsProgram uuid_path w) (read_line_of_uuid-KeepsProgram text w1))
      | inl missing ↦
          let w2 = (config_create_uuid w1).1 in
          let created =
            KeepsProgram-trans w w1 w2 (open_read-KeepsProgram uuid_path w)
              (config_create_uuid-KeepsProgram w1) in
          elim (Bool-cases ((config_create_uuid w1).0.0 == exit_success)) [
            | inl done ↦
                rw (try_open_file, ◌>>=◌, missing, done)
                  (KeepsProgram-trans w w2 (try_open_file rounds w2).1 created
                    (try_open_file-KeepsProgram rounds w2))
            | inr failed ↦ rw (try_open_file, ◌>>=◌, missing, failed) created
          ]
    ]

-- Reading the UUID, or making one, touches only the file, the log file and the last error.
pub config_read_uuid-KeepsProgram : (w : World) → KeepsProgram w (config_read_uuid w).1
unfolding config_read_uuid
config_read_uuid-KeepsProgram w = try_open_file-KeepsProgram 2 w
