-- ===== src/Sys/Config/Entry/RoundTrip.antt =====
-- The names of the configuration entries are a code for them.
use central_node.Common.{
  ℕ, zero, suc, ◌+◌, ◌<◌, ◌≡◌, ◌≢◌, ◌↔◌, refl, sym, ap, Option, some, true, [], ◌∷◌, arith, length,
  Bool, none, false, ◌==◌, Bool-cases, inl, inr, passes_to, passes_to-each,
}
use central_node.Common.Text.{Bytes, strncmp_eq}
use central_node.Sys.Config.Entry.{
  config_entry_to_str, config_str_to_entry, find_entry, cfg_nentries, cfg_fmt_machine, cfg_arg_max,
  cfg_null, matches,
}

-- The eleven machine names, each with seven letters.
pub name-length :
    (i : ℕ) (s : Bytes) → config_entry_to_str i cfg_fmt_machine ≡ some s → length s ≡ 7
unfolding config_entry_to_str
name-length i s h = ground arith

entry-lt : (i : ℕ) (s : Bytes) → config_entry_to_str i cfg_fmt_machine ≡ some s → i < cfg_nentries
unfolding config_entry_to_str
entry-lt i s h = ground arith

-- Entry `i` has a name, and the name is found again as entry `i`.
abbrev is_found : ℕ → Bool
is_found i = elim (config_entry_to_str i cfg_fmt_machine) [
  | some s ↦ config_str_to_entry s == i
  | none ↦ false
]

every_is_found : passes_to cfg_nentries is_found ≡ true
unfolding passes_to config_entry_to_str config_str_to_entry strncmp_eq
every_is_found = refl

str-entry :
    (i : ℕ) (s : Bytes) → config_entry_to_str i cfg_fmt_machine ≡ some s → config_str_to_entry s ≡ i
str-entry i s h =
    ground (arith, passes_to-each cfg_nentries is_found i every_is_found, entry-lt i s)

-- Two C strings that agree up to a bound past the end of one are equal.
strncmp_eq-eq : (a b : Bytes) (n : ℕ) → length b < n → strncmp_eq a b n ≡ true → a ≡ b
unfolding strncmp_eq
strncmp_eq-eq a b zero long h = absurd (omega arith)
strncmp_eq-eq [] [] (suc n) long h = refl
strncmp_eq-eq (x ∷ a) (y ∷ b) (suc n) long h = ground (arith, strncmp_eq-eq a b n)
strncmp_eq-eq [] (y ∷ b) (suc n) long h = cc
strncmp_eq-eq (x ∷ a) [] (suc n) long h = cc

pub strncmp_eq_self : (a : Bytes) (n : ℕ) → strncmp_eq a a n ≡ true
unfolding strncmp_eq
strncmp_eq_self a zero = refl
strncmp_eq_self [] (suc n) = refl
strncmp_eq_self (x ∷ a) (suc n) = ground (arith, strncmp_eq_self a n)

pub find_entry-matches :
    (text : Bytes) (n rounds i j : ℕ)
    → find_entry text n rounds i ≡ j
    → j ≢ cfg_null
    → matches text (config_entry_to_str j cfg_fmt_machine) n ≡ true
unfolding find_entry
find_entry-matches text n zero i j h ne = absurd (ne (sym h))
find_entry-matches text n (suc rounds) i j h ne =
    elim (Bool-cases (matches text (config_entry_to_str i cfg_fmt_machine) n)) [
      | inl here ↦ rw (← (rw here at h)) here
      | inr later ↦ find_entry-matches text n rounds (i + 1) j (rw later at h) ne
    ]

-- A matching name with room behind it is the whole text.
matches-eq :
    (s : Bytes) (n : ℕ) (o : Option Bytes)
    → ((name : Bytes) → o ≡ some name → length name < n)
    → matches s o n ≡ true
    → o ≡ some s
matches-eq s n none short h = cc
matches-eq s n (some name) short h = ap some (sym (strncmp_eq-eq s name n (short name refl) h))

-- `config_str_to_entry` gives an entry exactly for that entry's name: it undoes
-- `config_entry_to_str`, and takes no other text for an entry.
pub config_str_to_entry_iff :
    (s : Bytes) (i : ℕ)
    → i < cfg_nentries
    → (config_str_to_entry s ≡ i) ↔ (config_entry_to_str i cfg_fmt_machine ≡ some s)
unfolding config_str_to_entry
config_str_to_entry_iff s i h = (
  λ e.
      let hit = find_entry-matches s cfg_arg_max cfg_nentries 0 i e (omega arith) in
      matches-eq s cfg_arg_max (config_entry_to_str i cfg_fmt_machine)
        (λ name is. omega (arith, name-length i name is)) hit,
  str-entry i s,
)
