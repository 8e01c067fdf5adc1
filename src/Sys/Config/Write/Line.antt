-- ===== src/Sys/Config/Write/Line.antt =====
-- What `config_writevalue` makes of the line of its entry.
use central_node.Common.{
  ℕ, zero, suc, ◌+◌, ◌-◌, ◌<◌, ◌≤◌, ◌≡◌, refl, sym, ap, ◌∙◌, Bool, true, false, not, some, List, [],
  ◌∷◌, ◌++◌, arith, leb, ltb, ◌==◌, if◌then◌else◌, length, length-append, take, drop, passes_to,
  passes_to-each,
}
use mathlib.Core.List.{append_assoc}
use central_node.Common.Text.{Bytes, codes, c_str, fgets, show, strncmp_eq}
use central_node.Common.Text.Scan.{
  Lacks-append, c_str-Lacks, fgets-line, drop-append, take-append, strncmp_eq-append,
}
use central_node.World.{World, cfg_path, fseek, fwrite, answer, exit_success}
use central_node.Sys.Sysctl.Granted.{GrantsAll, asked_once, open_read-granted}
use central_node.Sys.Config.Entry.{
  cfg_arg_max, cfg_nentries, cfg_tundev, config_entry_to_str, config_str_to_entry,
}
use central_node.Sys.Config.Entry.RoundTrip.{name-length, config_str_to_entry_iff}
use central_node.Sys.Config.Read.Names.{name_of, named_lem}
use central_node.Sys.Config.Read.Line.{
  Value, number, text, value_bytes, pointee, Setting, line_of, IsWritable, Suits,
}
use central_node.Sys.Config.Read.Lines.{lines_of, AllWritable, line_of-Lacks}
use central_node.Sys.Config.Write.{
  format_line, overwrite, replace_line, find_line, write_to, config_writevalue,
}

-- The first seven bytes tell the names of the entries apart.
told_apart : ℕ → ℕ → Bool
told_apart i e =
    if i == e
    then strncmp_eq (name_of i) (name_of e) 7
    else not (strncmp_eq (name_of i) (name_of e) 7)

length-name_of : (e : ℕ) → e < cfg_nentries → length (name_of e) ≡ 7
length-name_of e known = name-length e (name_of e) (named_lem e known)

-- The text ends where it is cut.
take-all : (n : ℕ) (xs : Bytes) → length xs ≤ n → take n xs ≡ xs
take-all zero [] fits = refl
take-all zero (x ∷ xs) fits = absurd (omega arith)
take-all (suc n) [] fits = refl
take-all (suc n) (x ∷ xs) fits = ap (◌∷◌ x) (take-all n xs (omega arith))

drop-past : (xs ys : Bytes) (n : ℕ) → drop (length xs + n) (xs ++ ys) ≡ drop n ys
drop-past [] ys n = let none_before : 0 + n ≡ n = omega arith in ap (λ k. drop k ys) none_before
drop-past (x ∷ xs) ys n =
    let next : suc (length xs) + n ≡ suc (length xs + n) = omega arith in
    ap (λ k. drop k (x ∷ (xs ++ ys))) next ∙ drop-past xs ys n

line_parts :
    (name value : Bytes)
    → ((name ++ codes "=\"") ++ value) ++ codes "\"\n"
      ≡ (name ++ b'=' ∷ b'"' ∷ (value ++ b'"' ∷ [])) ++ b'\n' ∷ []
line_parts [] value = ap (λ v. b'=' ∷ b'"' ∷ v) (sym (append_assoc value (b'"' ∷ []) (b'\n' ∷ [])))
line_parts (c ∷ name) value = ap (◌∷◌ c) (line_parts name value)

-- An entry is written as what its value is.
written-value :
    (e : ℕ) (v : Value)
    → Suits e v
    → (if leb cfg_tundev e then (pointee v).text else show (pointee v).word) ≡ value_bytes v
written-value e (number n) suits =
    let below : leb cfg_tundev e ≡ false = ground arith in rw below refl
written-value e (text s) suits = let above : leb cfg_tundev e ≡ true = ground arith in rw above refl

-- The new line is the line of the setting.
format_line-line_of :
    (s : Setting)
    → IsWritable s
    → length (line_of s) < 125
    → format_line (name_of s.entry) (pointee s.value) ≡ line_of s ++ b'\n' ∷ []
unfolding format_line line_of
format_line-line_of s ok short =
    let is : config_str_to_entry (name_of s.entry) ≡ s.entry =
      (config_str_to_entry_iff (name_of s.entry) s.entry ok.known).1 (named_lem s.entry ok.known) in
    rw
      (
        is,
        written-value s.entry s.value ok.suits,
        line_parts (name_of s.entry) (value_bytes s.value),
      )
      (take-all 125 _ (omega (arith, short, length-append (line_of s) (b'\n' ∷ []))))

-- Bytes over a text from behind its first part on.
overwrite-append :
    (before bytes behind : Bytes)
    → overwrite (length before) bytes (before ++ behind)
      ≡ before ++ (bytes ++ drop (length bytes) behind)
overwrite-append before bytes behind =
    rw (take-append before behind, drop-past before behind (length bytes))
      (append_assoc before bytes (drop (length bytes) behind))

every_told_apart : passes_to cfg_nentries (λ i. passes_to cfg_nentries (told_apart i)) ≡ true
unfolding passes_to told_apart name_of config_entry_to_str strncmp_eq
every_told_apart = refl

told : (i e : ℕ) → i < cfg_nentries → e < cfg_nentries → told_apart i e ≡ true
told i e hi he =
    passes_to-each cfg_nentries (told_apart i) e
      (passes_to-each cfg_nentries (λ i. passes_to cfg_nentries (told_apart i)) i every_told_apart
        hi)
      he

-- A line is taken for the entry exactly if it is the entry's.
line_of-entry :
    (s : Setting) (e : ℕ) (rest : Bytes)
    → IsWritable s
    → e < cfg_nentries
    → strncmp_eq (line_of s ++ rest) (name_of e) 7 ≡ (s.entry == e)
unfolding told_apart line_of
line_of-entry s e rest ok known =
    let behind = b'=' ∷ b'"' ∷ (value_bytes s.value ++ b'"' ∷ []) in
    let told_them = told s.entry e ok.known known in
    ap (λ l. strncmp_eq l (name_of e) 7) (append_assoc (name_of s.entry) behind rest)
    ∙ (strncmp_eq-append (name_of s.entry) (name_of e) (behind ++ rest) 7
          (length-name_of s.entry ok.known) (length-name_of e known)
        ∙ ground (arith, told_them))

-- No setting has the entry.
abbrev pub AllOthers : ℕ → List Setting → Type 0
AllOthers e [] = Unit {0}
AllOthers e (s ∷ ss) = ((s.entry == e) ≡ false) × AllOthers e ss

-- A line that is read from a place of the text.
read-line :
    (s : Setting) (before rest whole : Bytes)
    → IsWritable s
    → whole ≡ before ++ (line_of s ++ b'\n' ∷ rest)
    → ((fgets (cfg_arg_max - 1) (drop (length before) whole)).0 ≡ line_of s ++ b'\n' ∷ [])
      × (c_str (line_of s ++ b'\n' ∷ []) ≡ line_of s ++ b'\n' ∷ [])
read-line s before rest whole ok is =
    let (line, nul, short) = line_of-Lacks s ok in
    (
      rw (is, drop-append before (line_of s ++ b'\n' ∷ rest))
          (ap (λ r. r.0) (fgets-line (cfg_arg_max - 1) (line_of s) rest line (omega arith))),
      c_str-Lacks _ (Lacks-append 0 (line_of s) (b'\n' ∷ []) nul (refl, tt)),
    )

length-line : (s : Setting) → length (line_of s ++ b'\n' ∷ []) ≡ length (line_of s) + 1
length-line s = length-append (line_of s) (b'\n' ∷ [])

-- The line of the entry, `length before` bytes behind the beginning, is found and replaced.
find_line-line_of :
    (rounds : ℕ) (ss : List Setting) (s : Setting) (before rest bytes whole : Bytes) (w : World)
    → AllWritable ss
    → IsWritable s
    → AllOthers s.entry ss
    → length ss < rounds
    → whole ≡ before ++ (lines_of ss ++ (line_of s ++ b'\n' ∷ rest))
    → find_line rounds s.entry (name_of s.entry) bytes (length before) whole w
      ≡ replace_line s.entry bytes
          (length (before ++ lines_of ss) + (length (line_of s) + 1))
          (length (line_of s) + 1)
          whole
          w
unfolding find_line lines_of
find_line-line_of zero ss s before rest bytes whole w oks ok others enough is = absurd (omega arith)
find_line-line_of (suc rounds) [] s before rest bytes whole w oks ok others enough is =
    let (read, whole_line) = read-line s before rest whole ok is in
    let same : strncmp_eq (line_of s ++ b'\n' ∷ []) (name_of s.entry) 7 ≡ true =
      line_of-entry s s.entry (b'\n' ∷ []) ok ok.known ∙ ground arith in
    let start : length (before ++ []) ≡ length before = omega (arith, length-append before []) in
    rw (read, whole_line, same, length-line s, start) refl
find_line-line_of (suc rounds) (t ∷ ss) s before rest bytes whole w oks ok others enough is =
    let here = line_of t ++ b'\n' ∷ [] in
    let tail = lines_of ss ++ (line_of s ++ b'\n' ∷ rest) in
    let at : whole ≡ before ++ (line_of t ++ b'\n' ∷ tail) =
      is ∙ ap (λ l. before ++ l) (append_assoc (line_of t) (b'\n' ∷ lines_of ss) _) in
    let (read, whole_line) = read-line t before tail whole oks.0 at in
    let other : strncmp_eq here (name_of s.entry) 7 ≡ false =
      line_of-entry t s.entry (b'\n' ∷ []) oks.0 ok.known ∙ others.0 in
    let behind : whole ≡ (before ++ here) ++ tail =
      at
      ∙ (ap (λ l. before ++ l) (sym (append_assoc (line_of t) (b'\n' ∷ []) tail))
          ∙ sym (append_assoc before here tail)) in
    let next : length (before ++ here) ≡ length before + length here = length-append before here in
    let joined_lines : (before ++ here) ++ lines_of ss
        ≡ before ++ (line_of t ++ b'\n' ∷ lines_of ss) =
      append_assoc before here (lines_of ss)
      ∙ ap (λ l. before ++ l) (append_assoc (line_of t) (b'\n' ∷ []) (lines_of ss)) in
    rw (read, whole_line, other, ← next)
      (find_line-line_of rounds ss s (before ++ here) rest bytes whole w oks.1 ok others.1
          (omega arith) behind
        ∙ ap
            (λ l.
              replace_line s.entry bytes (length l + (length (line_of s) + 1))
                (length (line_of s) + 1) whole w)
            joined_lines)

-- The value was written: `bytes` stand behind `before`, over as many bytes of `behind`. Nothing else on
-- the disk, no option and no log setting changed.
abbrev pub Replaces : Bytes → Bytes → Bytes → World → ℕ → World → Type 0
Replaces before bytes behind w code w' =
    (code ≡ exit_success)
    × (w'.disk ≡ record w.disk { cfg = some (before ++ (bytes ++ drop (length bytes) behind)) })
    × (w'.options ≡ w.options)
    × (w'.log ≡ w.log)

replace_line-Replaces :
    (entry_id line_len : ℕ) (before bytes behind : Bytes) (w : World)
    → GrantsAll w.os
    → let r =
        replace_line entry_id bytes (length before + line_len) line_len (before ++ behind) w in
      Replaces before bytes behind w r.0 r.1
unfolding replace_line answer
replace_line-Replaces entry_id line_len before bytes behind w grants =
    let begin : length before + line_len - line_len ≡ length before = omega arith in
    rw
      (
        grants w.io.calls fseek,
        grants (w.io.calls + 1) fwrite,
        begin,
        overwrite-append before bytes behind,
      )
      (refl, refl, refl, refl)

-- The setting with another value.
abbrev pub with_value : Setting → Value → Setting
with_value s v = record s { value = v }

-- Where the system grants every request, and the file holds writable lines of other entries, then the
-- writable line of an entry, and then anything: `config_writevalue` of a writable value of that entry,
-- whose line with its newline fits the buffer, succeeds. The line NAME="value" of the new value and its
-- newline then stand at the beginning of the old line, over as many bytes, and the bytes before and
-- behind them are what they were: with a value of the same length the line is replaced. Nothing else on
-- the disk, no option and no log setting changes.
pub config_writevalue-line_of :
    (ss : List Setting) (s : Setting) (v : Value) (rest : Bytes) (w : World)
    → AllWritable ss
    → AllOthers s.entry ss
    → length ss < cfg_nentries
    → IsWritable s
    → IsWritable (with_value s v)
    → length (line_of (with_value s v)) < 125
    → GrantsAll w.os
    → w.disk.cfg ≡ some (lines_of ss ++ (line_of s ++ b'\n' ∷ rest))
    → let written = config_writevalue s.entry (some (pointee v)) w in
      Replaces
        (lines_of ss)
        (line_of (with_value s v) ++ b'\n' ∷ [])
        (line_of s ++ b'\n' ∷ rest)
        w
        written.0
        written.1
unfolding config_writevalue write_to
config_writevalue-line_of ss s v rest w oks others enough ok ok_new short grants there =
    let new = with_value s v in
    let bytes = line_of new ++ b'\n' ∷ [] in
    let behind = line_of s ++ b'\n' ∷ rest in
    let whole = lines_of ss ++ behind in
    let known : ltb cfg_nentries s.entry ≡ false = ground (arith, ok.known) in
    rw
      (
        known,
        open_read-granted cfg_path whole w grants there,
        write_to,
        named_lem s.entry ok.known,
        format_line-line_of new ok_new short,
        find_line-line_of cfg_nentries ss s [] rest bytes whole (asked_once w) oks ok others enough
            refl,
      )
      (replace_line-Replaces s.entry (length (line_of s) + 1) (lines_of ss) bytes behind
        (asked_once w) grants)
