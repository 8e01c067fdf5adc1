-- ===== src/Sys/Config/Read/Names.antt =====
-- A line is taken for the entry whose name it begins with, whatever its place in the file.
use central_node.Common.{
  ℕ, zero, suc, ◌+◌, ◌<◌, ◌≡◌, refl, ◌∙◌, Bool, true, false, Option, none, some, [], ◌++◌, arith,
  ◌==◌, ==_iff, length, passes_to, passes_to-each,
}
use central_node.Common.Text.{Bytes, strncmp_eq}
use central_node.Common.Text.Scan.{strncmp_eq-append}
use central_node.Sys.Config.Entry.{
  config_entry_to_str, matches, find_entry, cfg_nentries, cfg_fmt_machine,
}
use central_node.Sys.Config.Entry.RoundTrip.{name-length}
use central_node.Sys.Config.Read.{entry_of}

-- The name of an entry below CFG_NENTRIES, and nothing for the others.
unfoldable pub name_of : ℕ → Bytes
name_of e = elim (config_entry_to_str e cfg_fmt_machine) [ some s ↦ s | none ↦ [] ]

named : ℕ → Bool
named e = elim (config_entry_to_str e cfg_fmt_machine) [ some s ↦ length s == 7 | none ↦ false ]

-- Behind `i` entries, a line with the name of `e` is taken for `e`, for every pair of entries.
found_at : ℕ → ℕ → Bool
found_at e i = entry_of i (name_of e) == e

every_found : passes_to cfg_nentries (λ e. passes_to cfg_nentries (found_at e)) ≡ true
unfolding passes_to found_at entry_of name_of find_entry config_entry_to_str strncmp_eq
every_found = refl

every_named : passes_to cfg_nentries named ≡ true
unfolding passes_to named config_entry_to_str
every_named = refl

matches-append :
    (a rest : Bytes) (o : Option Bytes)
    → length a ≡ 7
    → ((s : Bytes) → o ≡ some s → length s ≡ 7)
    → matches (a ++ rest) o 7 ≡ matches a o 7
matches-append a rest none p q = refl
matches-append a rest (some s) p q = strncmp_eq-append a s rest 7 p (q s refl)

find_entry-append :
    (a rest : Bytes) (rounds i : ℕ)
    → length a ≡ 7
    → find_entry (a ++ rest) 7 rounds i ≡ find_entry a 7 rounds i
unfolding find_entry
find_entry-append a rest zero i p = refl
find_entry-append a rest (suc k) i p = rw (
  matches-append a rest (config_entry_to_str i cfg_fmt_machine) p (name-length i),
  find_entry-append a rest k (i + 1) p,
)

pub entry_of-append :
    (a rest : Bytes) (i : ℕ) → length a ≡ 7 → entry_of i (a ++ rest) ≡ entry_of i a
unfolding entry_of
entry_of-append a rest i p = rw (
  matches-append a rest (config_entry_to_str i cfg_fmt_machine) p (name-length i),
  find_entry-append a rest cfg_nentries 0 p,
)

pub named_lem :
    (e : ℕ) → e < cfg_nentries → config_entry_to_str e cfg_fmt_machine ≡ some (name_of e)
unfolding name_of named
named_lem e h = ground (arith, passes_to-each cfg_nentries named e every_named)

-- A line that begins with the name of `e` is taken for `e`, whatever its place.
pub entry_of-name_of :
    (e i : ℕ) (rest : Bytes)
    → e < cfg_nentries
    → i < cfg_nentries
    → entry_of i (name_of e ++ rest) ≡ e
unfolding found_at
entry_of-name_of e i rest he hi =
    entry_of-append (name_of e) rest i (name-length e (name_of e) (named_lem e he))
    ∙ (==_iff (entry_of i (name_of e)) e).0 (
        passes_to-each cfg_nentries (found_at e) i
          (passes_to-each cfg_nentries (λ e. passes_to cfg_nentries (found_at e)) e every_found he)
          hi)
