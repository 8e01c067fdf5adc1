-- ===== src/Sys/Config/Read/Line.antt =====
-- What `config_readcfg` makes of a well-formed line, `NAME="value"`.
use central_node.Common.{
  ℕ, ◌+◌, ◌-◌, ◌≤◌, ◌<◌, ◌≡◌, ◌≢◌, refl, Bool, true, false, not, ◌&&◌, passes_to, passes_to-each,
  Option, some, [], ◌∷◌, ◌++◌, arith, leb, ◌==◌, if◌then◌else◌, length, length-append, drop,
}
use mathlib.Core.List.{append_assoc}
use central_node.Common.Text.{Bytes, strchr, strrchr, show, u64}
use central_node.Common.Text.Scan.{
  Lacks, Lacks-append, strchr-append, strrchr-append, drop-append, plain_format-Lacks, take-append,
}
use central_node.Common.Text.Numbers.{strtoul-show}
use central_node.World.{World, Io, Os, Options, malloc, answer}
use central_node.World.Faults.{Returns}
use central_node.Sys.Config.Entry.{config_entry_to_str, cfg_nentries, cfg_null, cfg_tundev}
use central_node.Sys.Config.Eval.{Pointee, of_ulong, of_text}
use central_node.Sys.Config.Eval.Same.{config_evalentry-same, SameElsewhere}
use central_node.Sys.Config.Eval.Switches.{is_refused, put_entry, config_evalentry-options}
use central_node.Sys.Config.Read.{
  Round, next, Quotes, quotes_of, entry_of, read_entry, read_string, read_number,
}
use central_node.Sys.Config.Read.Names.{name_of, named_lem, entry_of-name_of}

-- What stands between the quotes of a line.
pub data Value : Type 0 where
  number : ℕ → Value
  text : Bytes → Value

abbrev pub value_bytes : Value → Bytes
value_bytes (number n) = show n
value_bytes (text s) = s

abbrev pub pointee : Value → Pointee
pointee (number n) = of_ulong n
pointee (text s) = of_text s

pub record Setting : Type 0 where
  pub entry : ℕ
  pub value : Value

-- `NAME="value"`
unfoldable pub line_of : Setting → Bytes
line_of s = name_of s.entry ++ b'=' ∷ b'"' ∷ (value_bytes s.value ++ b'"' ∷ [])

-- A number that is not CFG_NULL for an entry below CFG_TUNDEV; for the others a text that fits a line
-- and holds no quote, percent sign, newline or zero byte.
abbrev pub Suits : ℕ → Value → Type 0
Suits e (number n) = (e < cfg_tundev) × (n < u64) × (n ≢ cfg_null)
Suits e (text s) =
    (cfg_tundev ≤ e) × (length s < 116) × Lacks b'"' s × Lacks b'%' s × Lacks b'\n' s × Lacks 0 s

pub record IsWritable (s : Setting) : Type 0 where
  pub known : s.entry < cfg_nentries
  pub suits : Suits s.entry s.value

-- The options after a setting: those that `config_evalentry` leaves.
abbrev pub apply_setting : Setting → Options → Options
apply_setting s o =
    if is_refused s.entry (pointee s.value) then o else put_entry s.entry (pointee s.value) o

-- Every request for memory is granted.
abbrev pub GrantsMemory : Os → Type 0
GrantsMemory os = (n : ℕ) → os.refuse n malloc ≡ 0

pub answer_granted : (os : Os) (io : Io) → GrantsMemory os → (answer malloc os io).0 ≡ 0
unfolding answer
answer_granted os io grants = rw (grants io.calls)

-- The bytes of a line from its first quote on.
abbrev pub quoted : Bytes → Bytes
quoted value = b'"' ∷ (value ++ b'"' ∷ b'\n' ∷ [])

module _ (before value : Bytes) where
  pub quotes_of_line :
      Lacks b'"' before
      → quotes_of (strchr b'"' (before ++ quoted value)) (strrchr b'"' (before ++ quoted value))
        ≡ some (record { fdq = length before; ldq = length before + 1 + length value })
  quotes_of_line h =
      let last : strrchr b'"' (before ++ quoted value) ≡ some (length (before ++ b'"' ∷ value)) =
        rw (← append_assoc before (b'"' ∷ value) (b'"' ∷ b'\n' ∷ []))
          (strrchr-append b'"' (before ++ b'"' ∷ value) (b'\n' ∷ []) (refl, tt)) in
      rw (strchr-append b'"' before _ h, last) (ground (arith, length-append before (b'"' ∷ value)))

  pub drop_to_value : drop (length before + 1) (before ++ quoted value) ≡ value ++ b'"' ∷ b'\n' ∷ []
  drop_to_value =
      let same : length before + 1 ≡ length (before ++ b'"' ∷ []) =
        omega (arith, length-append before (b'"' ∷ [])) in
      rw (same, ← append_assoc before (b'"' ∷ []) (value ++ b'"' ∷ b'\n' ∷ []))
        (drop-append (before ++ b'"' ∷ []) _)

-- A round that goes on to the next line, having stored the setting and touched nothing else but the
-- log and its settings and errors.
abbrev pub Stores : Setting → World → Round → World → Type 0
Stores s w r w' = (r ≡ next) × (w'.options ≡ apply_setting s w.options) × SameElsewhere w w'

abbrev pub quotes_at : Bytes → Bytes → Option Quotes
quotes_at before value =
    some (record { fdq = length before; ldq = length before + 1 + length value })

read_number-line :
    (i e n : ℕ) (before : Bytes) (w : World)
    → n < u64
    → n ≢ cfg_null
    → Returns
        (Stores (record { entry = e; value = number n }) w)
        (read_number i e (before ++ quoted (show n)) (quotes_at before (show n)) w)
unfolding read_number
read_number-line i e n before w fits known =
    let ends : (length before + 1 + length (show n) == length before + 1 + length (show n)) ≡ true =
      ground arith in
    let other : (n == cfg_null) ≡ false = ground arith in
    rw (drop_to_value before (show n), strtoul-show n b'"' (b'\n' ∷ []) fits refl, ends, other)
      (refl, config_evalentry-options e (of_ulong n) _, config_evalentry-same e (of_ulong n) _)

read_string-line :
    (i e : ℕ) (s before : Bytes) (w : World)
    → GrantsMemory w.os
    → Lacks b'%' s
    → Returns
        (Stores (record { entry = e; value = text s }) w)
        (read_string i e (before ++ quoted s) (quotes_at before s) w)
unfolding read_string
read_string-line i e s before w grants plain =
    let printed =
      plain_format-Lacks (s ++ b'"' ∷ b'\n' ∷ [])
        (Lacks-append b'%' s (b'"' ∷ b'\n' ∷ []) plain (refl, (refl, tt))) in
    let size : length before + 1 + length s - length before - 1 ≡ length s = omega arith in
    let some_size : (length before + 1 + length s - length before == 0) ≡ false = ground arith in
    rw
      (
        answer_granted w.os w.io grants,
        drop_to_value before s,
        printed,
        some_size,
        size,
        take-append s (b'"' ∷ b'\n' ∷ []),
      )
      (refl, config_evalentry-options e (of_text s) _, config_evalentry-same e (of_text s) _)

-- The name of an entry, with the equal sign behind it, holds no quote.
pub opening : ℕ → Bytes
opening e = name_of e ++ b'=' ∷ []

unfoldable pub lacks : ℕ → Bytes → Bool
lacks c [] = true
lacks c (x ∷ xs) = not (x == c) && lacks c xs

pub lacks-Lacks : (c : ℕ) (xs : Bytes) → lacks c xs ≡ true → Lacks c xs
unfolding lacks
lacks-Lacks c [] h = tt
lacks-Lacks c (x ∷ xs) h = (ground arith, lacks-Lacks c xs (ground arith))

every_opening :
    passes_to cfg_nentries (λ e.
      lacks b'"' (opening e)
      && (lacks b'\n' (opening e) && (lacks 0 (opening e) && length (opening e) == 8)))
    ≡ true
unfolding passes_to opening lacks name_of config_entry_to_str
every_opening = refl

pub opening-Lacks :
    (e : ℕ)
    → e < cfg_nentries
    → Lacks b'"' (opening e)
      × Lacks b'\n' (opening e)
      × Lacks 0 (opening e)
      × (length (opening e) ≡ 8)
opening-Lacks e h =
    let all =
      passes_to-each cfg_nentries
        (λ e.
          lacks b'"' (opening e)
          && (lacks b'\n' (opening e) && (lacks 0 (opening e) && length (opening e) == 8)))
        e every_opening h in
    (
      lacks-Lacks b'"' (opening e) (ground arith),
      lacks-Lacks b'\n' (opening e) (ground arith),
      lacks-Lacks 0 (opening e) (ground arith),
      ground arith,
    )

pub line_of_parts :
    (s : Setting) → line_of s ≡ opening s.entry ++ b'"' ∷ (value_bytes s.value ++ b'"' ∷ [])
unfolding line_of opening
line_of_parts s = simp append_assoc

-- The line with its newline, from the value's view.
pub line_of-quoted :
    (s : Setting) → line_of s ++ b'\n' ∷ [] ≡ opening s.entry ++ quoted (value_bytes s.value)
unfolding line_of opening
line_of-quoted s = simp append_assoc

pub entry_of_line :
    (e i : ℕ) (value : Bytes)
    → e < cfg_nentries
    → i < cfg_nentries
    → entry_of i (opening e ++ quoted value) ≡ e
unfolding opening
entry_of_line e i value he hi = rw (append_assoc) (entry_of-name_of e i _ he hi)

read_value-line :
    (i e : ℕ) (v : Value) (w : World)
    → e < cfg_nentries
    → i < cfg_nentries
    → Suits e v
    → GrantsMemory w.os
    → Returns
        (Stores (record { entry = e; value = v }) w)
        (read_entry i (opening e ++ quoted (value_bytes v)) w)
unfolding read_entry
read_value-line i e (number n) w he hi suits grants =
    let small : leb cfg_tundev e ≡ false = ground arith in
    let known : (e == cfg_null) ≡ false = ground arith in
    rw
      (
        named_lem i hi,
        read_entry,
        entry_of_line e i (show n) he hi,
        known,
        small,
        quotes_of_line (opening e) (show n) (opening-Lacks e he).0,
      )
      (read_number-line i e n (opening e) w suits.1 suits.2)
read_value-line i e (text s) w he hi suits grants =
    let large : leb cfg_tundev e ≡ true = ground arith in
    let known : (e == cfg_null) ≡ false = ground arith in
    rw
      (
        named_lem i hi,
        read_entry,
        entry_of_line e i s he hi,
        known,
        large,
        quotes_of_line (opening e) s (opening-Lacks e he).0,
      )
      (read_string-line i e s (opening e) w grants suits.3)

-- A writable setting is read back from its line at any place of the file, where memory is granted:
-- the run is defined, the round goes on to the next line, the options are the ones that evaluating
-- the setting leaves, and the files, the system, the process, the start-up switches, the networks and
-- the terminal are what they were.
pub read_entry-line_of :
    (s : Setting) (i : ℕ) (w : World)
    → IsWritable s
    → i < cfg_nentries
    → GrantsMemory w.os
    → Returns (Stores s w) (read_entry i (line_of s ++ b'\n' ∷ []) w)
read_entry-line_of s i w ok hi grants =
    rw (line_of-quoted s) (read_value-line i s.entry s.value w ok.known hi ok.suits grants)
