-- ===== src/World/Terminal.antt =====
-- What ncurses keeps of the terminal, as far as the program reads it back or must restore it.
use central_node.Common.{ℕ, Bool, List, Option}

-- `struct color` of src/gui/gui.h
pub record Color : Type 0 where
  pub red : ℕ
  pub green : ℕ
  pub blue : ℕ

-- `mainwin` is whether `pmainwin` is set. `keys` are the keys that will be read; when there are no
-- more, reading gives ERR. `stdin` are the bytes that the C library has read from the terminal for
-- `getchar` and not passed on yet.
pub record Screen : Type 0 where
  pub mainwin : Bool
  pub colors : ℕ → Color
  pub pairs : ℕ → Option (ℕ × ℕ)
  pub keys : List ℕ
  pub stdin : List ℕ
  pub echo : Bool
  pub cursor : Bool
