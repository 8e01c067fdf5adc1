-- ===== src/Gui/Menu.antt =====
-- src/gui/menu.c and src/gui/menu.h. The menu library of ncurses is a parameter: it grants or refuses
-- each call and says which item is selected. What is painted on the screen is left out.
pub mod Entries
pub mod Execute
pub mod Load
pub mod Semaphore
pub mod Tests
use central_node.Common.{
  ℕ, ◌-◌, ◌^◌, ◌≡◌, ◌⊎◌, inl, inr, refl, Bool, ◌||◌, List, [], ◌∷◌, Option, none, some, ◌==◌,
  if◌then◌else◌, List-cases,
}
use central_node.Common.Text.{Bytes}
use central_node.World.{World, M, pure, gets, modify, ◌>>=◌, ◌>>◌}
use central_node.World.Terminal.{Screen}

abbrev pub menu_id_main : ℕ
menu_id_main = 0

abbrev pub menu_id_networks : ℕ
menu_id_networks = 1

abbrev pub menu_id_nodewdctl : ℕ
menu_id_nodewdctl = 2

abbrev pub menu_id_configctl : ℕ
menu_id_configctl = 3

abbrev pub menu_id_tincdctl : ℕ
menu_id_tincdctl = 4

abbrev pub menu_nmenus : ℕ
menu_nmenus = 5

abbrev pub menu_main_entry_update : ℕ
menu_main_entry_update = 4

abbrev pub menu_main_entry_resetlog : ℕ
menu_main_entry_resetlog = 5

abbrev pub menu_tincdctl_entry_dstatus : ℕ
menu_tincdctl_entry_dstatus = 0

abbrev pub menu_tincdctl_entry_showuuid : ℕ
menu_tincdctl_entry_showuuid = 2

abbrev pub menu_exit : ℕ
menu_exit = 0x100

abbrev pub menu_error : ℕ
menu_error = 0x101

abbrev pub menu_entry_maxlen : ℕ
menu_entry_maxlen = 32

abbrev emenugen : ℕ
emenugen = 0x70e

-- KEY_DOWN, KEY_UP, KEY_LEFT, KEY_RIGHT, KEY_ENTER, KEY_END and KEY_SHOME of curses.h, which is not
-- under src/
abbrev pub key_down : ℕ
key_down = 258

abbrev pub key_up : ℕ
key_up = 259

abbrev pub key_left : ℕ
key_left = 260

abbrev pub key_right : ℕ
key_right = 261

abbrev pub key_enter : ℕ
key_enter = 343

abbrev pub key_end : ℕ
key_end = 360

abbrev pub key_shome : ℕ
key_shome = 391

-- KEY_BIGENTER
abbrev pub key_bigenter : ℕ
key_bigenter = 10

-- ERR of curses.h, -1, as a pattern of 32 bits
abbrev pub err : ℕ
err = 2 ^ 32 - 1

-- `struct menu_info`
pub record MenuInfo : Type 0 where
  pub mid : ℕ
  pub prev_mid : ℕ
  pub nentries : ℕ
  pub menu_entries : List Bytes
  pub menu_title : Bytes
  pub maxy : ℕ
  pub maxx : ℕ

-- `wgetch`: the next key, and none for ERR
abbrev pub read_key : M (Option ℕ)
read_key = do
  screen ← gets (λ w. w.screen)
  elim screen.keys [
    | [] ↦ pure none
    | key ∷ keys ↦ (do
      modify (λ w. record w { screen = record w.screen { keys = keys } })
      pure (some key))
  ]

-- Outside of curses mode a line of keys ends at Enter or Ctrl-D.
abbrev pub ends_line : ℕ → Bool
ends_line key = key == key_bigenter || key == 4

-- The keys of the first line, and those behind it.
unfoldable pub first_line : List ℕ → List ℕ
first_line [] = []
first_line (key ∷ keys) =
    let rest = first_line keys in if ends_line key then key ∷ [] else key ∷ rest

unfoldable pub behind_line : List ℕ → List ℕ
behind_line [] = []
behind_line (key ∷ keys) = let rest = behind_line keys in if ends_line key then keys else rest

-- The next byte of `stdin`, and none for EOF
unfoldable pub take_byte : List ℕ → M (Option ℕ)
take_byte [] = pure none
take_byte (byte ∷ bytes) = do
  modify (λ w. record w { screen = record w.screen { stdin = bytes } })
  pure (some byte)

-- `getchar` outside of curses mode. Where the C library has no byte left, it waits for a line of keys,
-- up to its end or the end of the terminal, and keeps what is behind the first byte.
unfoldable pub get_char : M (Option ℕ)
get_char = do
  screen ← gets (λ w. w.screen)
  elim screen.stdin [
    | byte ∷ bytes ↦ take_byte (byte ∷ bytes)
    | [] ↦ (do
      line ← gets (λ w. w.os.cooked (first_line screen.keys))
      modify (λ w. record w { screen = record w.screen { keys = behind_line screen.keys } })
      take_byte line)
  ]

pub get_char-keys :
    (w : World)
    → (((get_char w).1.screen.keys ≡ w.screen.keys)
        ⊎ ((get_char w).1.screen.keys ≡ behind_line w.screen.keys))
      × (((get_char w).1.os ≡ w.os)
          × ((get_char w).1.options ≡ w.options)
          × ((get_char w).1.startup ≡ w.startup)
          × ((get_char w).1.net ≡ w.net)
          × ((get_char w).1.screen.colors ≡ w.screen.colors))
unfolding get_char take_byte
get_char-keys w = elim (List-cases w.screen.stdin) [
  | inr (byte, bytes, there) ↦ rw there (inl refl, (refl, refl, refl, refl, refl))
  | inl empty ↦ elim (List-cases (w.os.cooked (first_line w.screen.keys))) [
    | inl ended ↦ rw (empty, ended) (inr refl, (refl, refl, refl, refl, refl))
    | inr (byte, bytes, line) ↦ rw (empty, line) (inr refl, (refl, refl, refl, refl, refl))
  ]
]

-- E_SYSTEM_ERROR, E_BAD_ARGUMENT, E_POSTED and E_NOT_CONNECTED of eti.h, -1, -2, -3 and -11, as
-- patterns of 32 bits
unfoldable pub menu_geterror : ℕ → ℕ → ℕ
menu_geterror errno retcode =
    if retcode == 2 ^ 32 - 1
    then errno
    else if retcode == 2 ^ 32 - 2
    then 2 ^ 32 - 2
    else if retcode == 2 ^ 32 - 3
    then 2 ^ 32 - 3
    else if retcode == 2 ^ 32 - 11
    then 2 ^ 32 - 11
    else emenugen
