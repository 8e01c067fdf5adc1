-- ===== src/Gui/Start/Painted.antt =====
-- The colours and pairs of the program, set on a system that grants every request.
use central_node.Common.{
  ℕ, suc, ◌+◌, ◌-◌, ◌≡◌, refl, ◌∙◌, Bool, true, false, ◌&&◌, Option, none, some, List, [], ◌∷◌,
  arith, leb, ◌==◌, if◌then◌else◌, get_elem?, Bool-cases, inl, inr,
}
use central_node.Sys.Logging.{log_write, log_debug}
use central_node.World.{num, World, init_color, init_pair, exit_success}
use central_node.World.Terminal.{Color}
use central_node.Sys.Sysctl.Granted.{GrantsAll}
use central_node.Gui.Colors.{id_color_min, write_color}
use central_node.Gui.Start.{
  write_pair, nodecolors, init_each, define_pairs, check_pairs, color_pairs, ncurses_init_colors,
}

abbrev or_else : Color → Option Color → Color
or_else old none = old
or_else old (some color) = color

-- The colours when those of a list stand from a number on.
abbrev pub painted : ℕ → List Color → (ℕ → Color) → ℕ → Color
painted id xs colors c = if leb id c then or_else (colors c) (get_elem? xs (c - id)) else colors c

minus-suc : (a b : ℕ) → leb (b + 1) a ≡ true → a - b ≡ suc (a - (b + 1))
minus-suc a b h = ground arith

painted-write :
    (id : ℕ) (x : Color) (xs : List Color) (colors : ℕ → Color) (c : ℕ)
    → painted (id + 1) xs (write_color id x colors) c ≡ painted id (x ∷ xs) colors c
painted-write id x xs colors c = elim (Bool-cases (leb (id + 1) c)) [
  | inl above ↦
      let other : (c == id) ≡ false = ground arith in
      let at_least : leb id c ≡ true = ground arith in
      rw (above, other, at_least, minus-suc c id above) refl
  | inr below ↦ elim (Bool-cases (c == id)) [
    | inl here ↦
        let at_least : leb id c ≡ true = ground arith in
        let first : c - id ≡ 0 = ground arith in rw (below, here, at_least, first) refl
    | inr other ↦ let less : leb id c ≡ false = ground arith in rw (below, other, less) refl
  ]
]

-- The keys that wait, the echo and the cursor.
abbrev pub input_of : World → List ℕ × Bool × Bool
input_of w = (w.screen.keys, w.screen.echo, w.screen.cursor)

-- What of the state stays when colours are set.
abbrev pub KeepsAll : World → World → Type 0
KeepsAll w w' =
    (w'.os ≡ w.os)
    × (w'.options ≡ w.options)
    × (w'.startup ≡ w.startup)
    × (w'.net ≡ w.net)
    × (input_of w' ≡ input_of w)

abbrev KeepsAll-trans : (u v w : World) → KeepsAll u v → KeepsAll v w → KeepsAll u w
KeepsAll-trans u v w (a, b, c, d, e) (a', b', c', d', e') = (a' ∙ a, b' ∙ b, c' ∙ c, d' ∙ d, e' ∙ e)

abbrev colored : ℕ → Color → World → World
colored id x w =
    let logged =
      (log_write log_debug "Initializing color ID %d - nodecolor[%2d] with R: %4d G: %4d B: %4d"
        (num id ∷ num (id - id_color_min) ∷ num x.red ∷ num x.green ∷ num x.blue ∷ []) w).1 in
    record logged {
      io = record logged.io { calls = logged.io.calls + 1 };
      screen = record w.screen { colors = write_color id x w.screen.colors };
    }

init_each-next :
    (id : ℕ) (x : Color) (xs : List Color) (w : World)
    → GrantsAll w.os
    → init_each id (x ∷ xs) w ≡ init_each (id + 1) xs (colored id x w)
unfolding init_each
init_each-next id x xs w grants =
    let logged =
      (log_write log_debug "Initializing color ID %d - nodecolor[%2d] with R: %4d G: %4d B: %4d"
        (num id ∷ num (id - id_color_min) ∷ num x.red ∷ num x.green ∷ num x.blue ∷ []) w).1 in
    rw (grants logged.io.calls (init_color id)) refl

init_each-painted :
    (id : ℕ) (xs : List Color) (w : World)
    → GrantsAll w.os
    → ((init_each id xs w).0 ≡ exit_success)
      × ((c : ℕ) → (init_each id xs w).1.screen.colors c ≡ painted id xs w.screen.colors c)
      × KeepsAll w (init_each id xs w).1
init_each-painted id [] w grants =
    unfold init_each in (refl, λ c. ground arith, (refl, refl, refl, refl, refl))
init_each-painted id (x ∷ xs) w grants =
    let (success, colors, kept) = init_each-painted (id + 1) xs (colored id x w) grants in
    rw (init_each-next id x xs w grants)
      (success, λ c. colors c ∙ painted-write id x xs w.screen.colors c, kept)

all_true : List Bool → Bool
all_true [] = true
all_true (b ∷ bs) = b && all_true bs

-- Defining the pairs leaves the colours, and where every request is granted all pairs are defined.
define_pairs-granted :
    (ps : List (ℕ × ℕ × ℕ)) (w : World)
    → GrantsAll w.os
    → (all_true (define_pairs ps w).0 ≡ true)
      × ((define_pairs ps w).1.screen.colors ≡ w.screen.colors)
      × KeepsAll w (define_pairs ps w).1
unfolding define_pairs all_true
define_pairs-granted [] w grants = (refl, refl, (refl, refl, refl, refl, refl))
define_pairs-granted ((id, fg, bg) ∷ ps) w grants =
    let paired : World = record w {
      io = record w.io { calls = w.io.calls + 1 };
      screen = record w.screen { pairs = write_pair id (fg, bg) w.screen.pairs };
    } in
    rw (grants w.io.calls (init_pair id)) (define_pairs-granted ps paired grants)

check_pairs-success :
    (i : ℕ) (bs : List Bool) (w : World)
    → all_true bs ≡ true
    → ((check_pairs i bs w).0 ≡ exit_success)
      × ((check_pairs i bs w).1.screen.colors ≡ w.screen.colors)
      × KeepsAll w (check_pairs i bs w).1
unfolding check_pairs all_true
check_pairs-success i [] w all = (refl, refl, (refl, refl, refl, refl, refl))
check_pairs-success i (true ∷ bs) w all = check_pairs-success (i + 1) bs w all
check_pairs-success i (false ∷ bs) w all = absurd (ground arith)

abbrev pub Painted : World → ℕ → World → Type 0
Painted w code w' =
    (code ≡ exit_success)
    × ((c : ℕ) → w'.screen.colors c ≡ painted id_color_min nodecolors w.screen.colors c)
    × KeepsAll w w'

pub ncurses_init_colors-Painted :
    (w : World) → GrantsAll w.os → Painted w (ncurses_init_colors w).0 (ncurses_init_colors w).1
unfolding ncurses_init_colors
ncurses_init_colors-Painted w grants =
    let (success, colors, kept) = init_each-painted id_color_min nodecolors w grants in
    let w1 = (init_each id_color_min nodecolors w).1 in
    let (all, colors', kept') = define_pairs-granted color_pairs w1 (rw kept.0 grants) in
    let w2 = (define_pairs color_pairs w1).1 in
    let defined = (define_pairs color_pairs w1).0 in
    let (success'', colors'', kept'') = check_pairs-success 0 defined w2 all in
    let w3 = (check_pairs 0 defined w2).1 in
    rw success (
      success'',
      λ c. rw (colors'', colors') (colors c),
      KeepsAll-trans w w2 w3 (KeepsAll-trans w w1 w2 kept kept') kept'',
    )
