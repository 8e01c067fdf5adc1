-- ===== src/Gui/Menu/Load/Keys.antt =====
-- The keys that a menu handles before it is left.
use central_node.Common.{
  ℕ, zero, suc, ◌≤◌, ◌<◌, ◌≡◌, ◌⊎◌, inl, inr, refl, ap, true, false, none, some, List, [], ◌∷◌,
  arith, ◌==◌, ◌||◌, length, drop, Bool-cases, List-cases,
}
use central_node.World.{World, current_item, ask_plain}
use central_node.World.Faults.{Returns, Returns-and_then, Returns-mono, ◌>>=◌}
use central_node.Sys.Sysctl.Granted.{GrantsAll}
use central_node.Gui.Menu.{
  MenuInfo, behind_line, ends_line, read_key, menu_exit, menu_nmenus, key_down, key_up, key_left,
  key_right, key_enter, key_bigenter, key_end, key_shome,
}
use central_node.Gui.Menu.Execute.{menu_execoption}
use central_node.Gui.Menu.Execute.Next.{
  IsServed, IsServed-KeepsMenus, KeepsMenus, KeepsMenus-refl, KeepsMenus-trans, Takes, IsNext,
  Executes, menu_execoption-Executes,
}
use central_node.Gui.Menu.Load.{select_item, handle_key, key_loop}

-- Somewhere the End key is pressed twice in a row, then a key that ends a line, and then the End key.
pub data EndsTwice : List ℕ → Type 0 where
  here :
      {key again line last : ℕ} {keys : List ℕ}
      → key ≡ key_end
      → again ≡ key_end
      → ends_line line ≡ true
      → last ≡ key_end
      → EndsTwice (key ∷ again ∷ line ∷ last ∷ keys)
  there : {key : ℕ} {keys : List ℕ} → EndsTwice keys → EndsTwice (key ∷ keys)

-- The End key is due: it is the next one, or will be pressed twice in a row and again behind Enter or
-- Ctrl-D. A prompt may take the first one, and a wait for a line everything up to Enter.
pub data Due : List ℕ → Type 0 where
  now : {key : ℕ} {keys : List ℕ} → key ≡ key_end → Due (key ∷ keys)
  later : {keys : List ℕ} → EndsTwice keys → Due keys

-- Behind the first line of keys the End key is due still.
EndsTwice-behind_line : (keys : List ℕ) → EndsTwice keys → Due (behind_line keys)
unfolding behind_line
EndsTwice-behind_line [] ends = elim ends [ ]
EndsTwice-behind_line (k ∷ a ∷ l ∷ e ∷ keys) (here is is_again is_line is_last) =
    let first : ends_line k ≡ false = rw is refl in
    let second : ends_line a ≡ false = rw is_again refl in rw (first, second, is_line) (now is_last)
EndsTwice-behind_line (k ∷ keys) (there ends) = elim (Bool-cases (ends_line k)) [
  | inl stop ↦ rw stop (later ends)
  | inr other ↦ rw other (EndsTwice-behind_line keys ends)
]

-- What is due whatever of `Takes` happens.
abbrev AllDue : List ℕ → Type 0
AllDue keys = Due keys × Due (drop 1 keys) × Due (behind_line keys)

-- After a key that is not the End key, and what an item may take behind it, the End key is due still.
Due-next : (key : ℕ) (keys : List ℕ) → Due (key ∷ keys) → (key ≡ key_end) ⊎ AllDue keys
Due-next key keys (now is) = inl is
Due-next key [] (later (there ends)) = elim ends [ ]
Due-next key (again ∷ line ∷ last ∷ keys) (later (here is is_again is_line is_last)) = inl is
Due-next key (k ∷ again ∷ line ∷ last ∷ keys) (later (there (here is is_again is_line is_last))) =
    inr (now is, now is_again, EndsTwice-behind_line _ (here is is_again is_line is_last))
Due-next key (k ∷ keys) (later (there (there ends))) =
    inr (later (there ends), later ends, EndsTwice-behind_line (k ∷ keys) (there ends))

Due-nil : Due [] → ⊥
Due-nil (later ends) = elim ends [ ]

Due-Takes : (keys keys' : List ℕ) → Takes keys keys' → AllDue keys → Due keys'
Due-Takes keys keys' (inl same) due = rw same due.0
Due-Takes keys keys' (inr (inl (key, first))) due = rw (← ap (drop 1) first) due.1
Due-Takes keys keys' (inr (inr line)) due = rw line due.2

length-behind_line : (keys : List ℕ) → length (behind_line keys) ≤ length keys
unfolding behind_line
length-behind_line [] = omega arith
length-behind_line (key ∷ keys) = elim (Bool-cases (ends_line key)) [
  | inl stop ↦ rw stop (omega arith)
  | inr other ↦ rw other (omega (arith, length-behind_line keys))
]

pub length-Takes : (keys keys' : List ℕ) → Takes keys keys' → length keys' ≤ length keys
length-Takes keys keys' (inl same) = rw same (omega arith)
length-Takes keys keys' (inr (inl (key, first))) = rw first (omega arith)
length-Takes keys keys' (inr (inr line)) = rw line (length-behind_line keys)

-- What a key does, with the End key leading out of the menus.
abbrev pub Handles : World → ℕ → ℕ → World → Type 0
Handles w key next_menu w' =
    Executes w next_menu w' × ((key == key_end) ≡ true → next_menu ≡ menu_exit)

pub handle_key-Handles :
    (minfo : MenuInfo) (next_menu item_id key : ℕ) (w : World)
    → IsServed w.os w.options
    → IsNext minfo.prev_mid
    → IsNext next_menu
    → Returns (Handles w key) (handle_key minfo next_menu item_id key w)
unfolding handle_key
handle_key-Handles minfo next_menu item_id key w served back is =
    elim (Bool-cases (key == key_down || key == key_up)) [
      | inl moves ↦
          rw (handle_key, moves)
            ((is, inl refl, KeepsMenus-refl w), λ end. absurd (ground (arith, moves, end)))
      | inr e0 ↦
          rw (handle_key, e0)
            (elim (Bool-cases (key == key_left)) [
              | inl left ↦
                  rw left
                    ((back, inl refl, KeepsMenus-refl w), λ end. absurd (ground (arith, left, end)))
              | inr e1 ↦
                  rw e1
                    (elim (Bool-cases
                      (key == key_bigenter || (key == key_enter || key == key_right))) [
                        | inl enter ↦ rw enter (
                            Returns-and_then (Executes w) (Handles w key)
                              (menu_execoption minfo next_menu item_id w) _
                              (menu_execoption-Executes minfo next_menu item_id w served back is)
                              (λ id w' executes.
                                (executes, λ end. absurd (ground (arith, enter, end)))))
                        | inr e2 ↦ rw e2 (elim (Bool-cases (key == key_shome)) [
                          | inl home ↦ rw home (
                            (is, inl refl, KeepsMenus-refl w),
                            λ end. absurd (ground (arith, home, end)),
                          )
                          | inr e3 ↦ rw e3 (elim (Bool-cases (key == key_end)) [
                            | inl ends ↦
                                rw ends ((inr refl, inl refl, KeepsMenus-refl w), λ end. refl)
                            | inr other ↦ rw other (
                              (is, inl refl, KeepsMenus-refl w),
                              λ end. absurd (ground (arith, other, end)),
                            )
                          ])
                        ])
                      ])
            ])
    ]

pub select_item-granted :
    (next_menu : ℕ) (w : World)
    → GrantsAll w.os
    → select_item next_menu w
      ≡ ((w.os.selected w.io.calls, next_menu), (ask_plain current_item w).1)
unfolding select_item
select_item-granted next_menu w grants = rw (grants w.io.calls current_item) refl

-- A menu is left: what the next menu and the keys that are left satisfy, with what menus keep kept.
abbrev pub Leaves : (ℕ → List ℕ → Type 0) → World → ℕ → World → Type 0
Leaves P w next_menu w' = P next_menu w'.screen.keys × KeepsMenus w w'

-- The next menu is a menu or the exit. It is the exit, or else keys were taken and the End key is due
-- still.
abbrev pub Leads : List ℕ → ℕ → List ℕ → Type 0
Leads keys next_menu keys' =
    IsNext next_menu × ((next_menu ≡ menu_exit) ⊎ (Due keys' × (length keys' < length keys)))

Leads-trans :
    (keys keys1 keys2 : List ℕ) (id : ℕ)
    → length keys1 < length keys
    → Leads keys1 id keys2
    → Leads keys id keys2
Leads-trans keys keys1 keys2 id fewer (is, ends) = (
  is,
  elim ends [ inl over ↦ inl over | inr (due, less) ↦ inr (due, omega (arith, less, fewer)) ],
)

-- The state behind a key.
abbrev pub taken : World → List ℕ → World
taken w keys = record w { screen = record w.screen { keys = keys } }

pub read_key-first :
    (w : World) (key : ℕ) (keys : List ℕ)
    → w.screen.keys ≡ key ∷ keys
    → read_key w ≡ (some key, taken w keys)
read_key-first w key keys first = rw first refl

pub read_key-none : (w : World) → w.screen.keys ≡ [] → read_key w ≡ (none, w)
read_key-none w none_left = rw none_left refl

-- The End key is due: enough rounds lead out of the menu, to the exit or to another menu with fewer
-- keys left and the End key due still.
pub key_loop-Leaves :
    (rounds : ℕ) (minfo : MenuInfo) (w : World)
    → IsServed w.os w.options
    → minfo.mid < menu_nmenus
    → IsNext minfo.prev_mid
    → Due w.screen.keys
    → length w.screen.keys < rounds
    → Returns (Leaves (Leads w.screen.keys) w) (key_loop rounds minfo w)
unfolding key_loop
key_loop-Leaves zero minfo w served is back due enough = absurd (omega (arith, enough))
key_loop-Leaves (suc rounds) minfo w served is back due enough = elim (List-cases w.screen.keys) [
  | inl none_left ↦ absurd (Due-nil (rw (← none_left) due))
  | inr (key, keys, first) ↦
      let asked = (ask_plain current_item (taken w keys)).1 in
      let selected : select_item minfo.mid (taken w keys)
          ≡ ((w.os.selected w.io.calls, minfo.mid), asked) =
        select_item-granted minfo.mid (taken w keys) served.grants in
      let fewer : length keys < length w.screen.keys = rw (ap length first) (omega arith) in
      rw (key_loop, ◌>>=◌, read_key-first w key keys first, selected)
        (Returns-and_then (Handles asked key) (Leaves (Leads w.screen.keys) w)
          (handle_key minfo minfo.mid (w.os.selected w.io.calls) key asked) _
          (handle_key-Handles minfo minfo.mid (w.os.selected w.io.calls) key asked served back
            (inl is))
          (λ next_menu w' ((is_next, takes, keeps), ends).
            let less : length w'.screen.keys < length w.screen.keys =
              omega (arith, length-Takes keys w'.screen.keys takes, fewer) in
            elim (Due-next key keys (rw (← first) due)) [
              | inl is_end ↦
                  let over : next_menu ≡ menu_exit = ends (rw is_end refl) in
                  let leaves : (next_menu == minfo.mid) ≡ false = rw over (ground (arith, is)) in
                  rw leaves ((is_next, inl over), keeps)
              | inr due_still ↦
                  let due' = Due-Takes keys w'.screen.keys takes due_still in
                  elim (Bool-cases (next_menu == minfo.mid)) [
                    | inl stays ↦ rw stays (
                        Returns-mono (Leaves (Leads w'.screen.keys) w')
                          (Leaves (Leads w.screen.keys) w) (key_loop rounds minfo w')
                          (λ id w2 (leads, kept). (
                            Leads-trans w.screen.keys w'.screen.keys w2.screen.keys id less leads,
                            KeepsMenus-trans w w' w2 keeps kept,
                          ))
                          (key_loop-Leaves rounds minfo w' (IsServed-KeepsMenus w w' keeps served)
                            is back due' (omega (arith, enough, less))))
                    | inr other ↦ rw other ((is_next, inr (due', less)), keeps)
                  ]
            ]))
]
