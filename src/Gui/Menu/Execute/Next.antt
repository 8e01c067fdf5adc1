-- ===== src/Gui/Menu/Execute/Next.antt =====
-- What an item can do to the next menu and to the keys.
use central_node.Common.{
  ℕ, ◌-◌, ◌≤◌, ◌<◌, ◌≡◌, ◌⊎◌, inl, inr, refl, sym, ap, ◌∙◌, Bool, true, false, some, List, [], ◌∷◌,
  arith, ◌==◌, if◌then◌else◌, length, Bool-cases, List-cases, drop,
}
use central_node.Common.Text.{Bytes}
use central_node.World.{lit, World, Os, Options, answer}
use central_node.World.Faults.{return, Returns, Returns-and_then, ◌>>=◌}
use central_node.World.Keeps.{KeepsProgram}
use central_node.Sys.Sysctl.Granted.{GrantsAll}
use central_node.Sys.Logging.{log_write, log_debug, log_reset}
use central_node.Sys.Config.File.{config_read_uuid}
use central_node.Sys.Config.File.Uuid.{config_read_uuid-KeepsProgram}
use central_node.Net.Curl.Deliver.{Answers}
use central_node.Net.Ops.{atoi, net_checkupdate}
use central_node.Net.Ops.Update.{update_url, version_out, Decides, net_checkupdate-Decides}
use central_node.Gui.Menu.{
  menu_id_main, menu_main_entry_update, menu_main_entry_resetlog, menu_tincdctl_entry_dstatus,
  menu_tincdctl_entry_showuuid, menu_id_networks, menu_id_nodewdctl, menu_id_configctl,
  menu_id_tincdctl, MenuInfo, read_key, get_char, get_char-keys, behind_line, menu_exit,
  menu_nmenus,
}
use central_node.Gui.Menu.Execute.{confirms, reset_log, exec_main, exec_tincd, menu_execoption}

-- A system that grants every request and answers the check for updates with a version, and options with
-- a proxy setting.
pub record IsServed (os : Os) (options : Options) : Type 0 where
  pub grants : GrantsAll os
  pub proxy : Bytes
  pub proxied : options.proxyaddr ≡ some proxy
  pub response : Bytes
  pub version : Bool × ℕ
  pub answers : Answers update_url response os
  pub long : 5 ≤ length response
  pub number : atoi (drop 1 (version_out response)) ≡ some version

-- What menus leave alone.
abbrev pub KeepsMenus : World → World → Type 0
KeepsMenus w w' =
    (w'.os ≡ w.os)
    × (w'.options ≡ w.options)
    × (w'.startup ≡ w.startup)
    × (w'.net ≡ w.net)
    × (w'.screen.colors ≡ w.screen.colors)

abbrev pub KeepsMenus-trans : (u v w : World) → KeepsMenus u v → KeepsMenus v w → KeepsMenus u w
KeepsMenus-trans u v w (a, b, c, d, e) (a', b', c', d', e') =
    (a' ∙ a, b' ∙ b, c' ∙ c, d' ∙ d, e' ∙ e)

pub IsServed-same :
    (os os' : Os) (o o' : Options) → os' ≡ os → o' ≡ o → IsServed os o → IsServed os' o'
IsServed-same os os' o o' same_os same served = rw (same_os, same) served

pub IsServed-KeepsMenus :
    (w w' : World) → KeepsMenus w w' → IsServed w.os w.options → IsServed w'.os w'.options
IsServed-KeepsMenus w w' keeps served =
    IsServed-same w.os w'.os w.options w'.options keeps.0 keeps.1 served

-- At most the first key is taken, or the first line of keys.
abbrev pub Takes : List ℕ → List ℕ → Type 0
Takes keys keys' =
    (keys' ≡ keys) ⊎ (((key : ℕ) × (keys ≡ key ∷ keys')) ⊎ (keys' ≡ behind_line keys))

-- The next menu is one of the menus, or the exit.
abbrev pub IsNext : ℕ → Type 0
IsNext id = (id < menu_nmenus) ⊎ (id ≡ menu_exit)

abbrev pub Executes : World → ℕ → World → Type 0
Executes w next_menu w' = IsNext next_menu × Takes w.screen.keys w'.screen.keys × KeepsMenus w w'

pub KeepsMenus-refl : (w : World) → KeepsMenus w w
KeepsMenus-refl w = (refl, refl, refl, refl, refl)

pub read_key-Takes :
    (w : World) → Takes w.screen.keys (read_key w).1.screen.keys × KeepsMenus w (read_key w).1
read_key-Takes w = elim (List-cases w.screen.keys) [
  | inl none_left ↦ rw none_left (inl refl, (refl, refl, refl, refl, refl))
  | inr (key, keys, there) ↦ rw there (inr (inl (key, refl)), (refl, refl, refl, refl, refl))
]

stays : (w : World) (id : ℕ) → IsNext id → Executes w id w
stays w id is = (is, inl refl, KeepsMenus-refl w)

stays-if :
    (w : World) (b : Bool) (id other : ℕ)
    → IsNext id
    → IsNext other
    → Executes w (if b then id else other) w
stays-if w true id other is is_other = stays w id is
stays-if w false id other is is_other = stays w other is_other

press : (w : World) (id : ℕ) → IsNext id → Executes w id (read_key w).1
press w id is = let taken = read_key-Takes w in (is, taken.0, taken.1)

-- Waiting for a line takes nothing or a line.
waits : (w : World) (id : ℕ) → IsNext id → Executes w id (get_char w).1
waits w id is =
    let (taken, keeps) = get_char-keys w in
    (is, elim taken [ inl same ↦ inl same | inr line ↦ inr (inr line) ], keeps)

log_reset-KeepsProgram : (w : World) → KeepsProgram w (log_reset w).1
unfolding log_reset answer
log_reset-KeepsProgram w = ground arith

-- What changes nothing of the program changes nothing of the menus.
Executes-KeepsProgram :
    (w w1 w2 : World) (id : ℕ) → Executes w id w1 → KeepsProgram w1 w2 → Executes w id w2
Executes-KeepsProgram w w1 w2 id (is, takes, keeps) (os, options, startup, screen, net, log) =
    let keys : w2.screen.keys ≡ w1.screen.keys = ap (λ s. s.keys) screen in
    (
      is,
      elim takes [
        | inl same ↦ inl (keys ∙ same)
        | inr (inl (key, first)) ↦ inr (inl (key, first ∙ ap (◌∷◌ key) (sym keys)))
        | inr (inr line) ↦ inr (inr (keys ∙ line))
      ],
      KeepsMenus-trans w w1 w2 keeps (os, options, startup, net, ap (λ s. s.colors) screen),
    )

reset_log-Executes :
    (next_menu : ℕ) (w : World) → IsNext next_menu → Returns (Executes w) (reset_log next_menu w)
unfolding reset_log
reset_log-Executes next_menu w is =
    let w1 = (read_key w).1 in
    let pressed = press w next_menu is in
    elim (Bool-cases (confirms (read_key w).0)) [
      | inl confirmed ↦
          rw (reset_log, ◌>>=◌, confirmed)
            (Executes-KeepsProgram w w1 (log_reset w1).1 next_menu pressed
              (log_reset-KeepsProgram w1))
      | inr refused ↦ rw (reset_log, ◌>>=◌, refused) pressed
    ]

exec_main-Executes :
    (minfo : MenuInfo) (next_menu item_id : ℕ) (w : World)
    → IsServed w.os w.options
    → IsNext next_menu
    → Returns (Executes w) (exec_main minfo next_menu item_id w)
unfolding exec_main
exec_main-Executes minfo next_menu item_id w served is =
    let update : Returns (Executes w) ((net_checkupdate >>= λ update. return next_menu) w) =
      Returns-and_then (Decides served.response served.version w) (Executes w) (net_checkupdate w) _
        (net_checkupdate-Decides served.proxy served.response served.version w served.grants
          served.answers served.proxied served.long served.number)
        (λ update w' (decided, (options, os, disk, log, net, process, startup, screen)). (
          is,
          inl (ap (λ s. s.keys) screen),
          (os, options, startup, net, ap (λ s. s.colors) screen),
        )) in
    elim (Bool-cases (item_id == minfo.nentries - 1)) [
      | inl last ↦ rw (exec_main, last) (stays w menu_exit (inr refl))
      | inr last ↦
          rw (exec_main, last)
            (elim (Bool-cases (item_id == menu_id_networks - 1)) [
              | inl networks ↦ rw networks (
                  stays-if w w.net.netrepo_status menu_id_networks next_menu (inl (omega arith)) is)
              | inr networks ↦ rw networks (elim (Bool-cases (item_id == menu_id_nodewdctl - 1)) [
                | inl nodewd ↦ rw nodewd (
                    stays-if w w.startup.is_sys_wsl next_menu menu_id_nodewdctl is
                      (inl (omega arith)))
                | inr nodewd ↦ rw nodewd (elim (Bool-cases (item_id == menu_id_configctl - 1)) [
                  | inl config ↦ rw config (stays w menu_id_configctl (inl (omega arith)))
                  | inr config ↦ rw config (elim (Bool-cases (item_id == menu_id_tincdctl - 1)) [
                    | inl tincd ↦ rw tincd (stays w menu_id_tincdctl (inl (omega arith)))
                    | inr tincd ↦ rw tincd (elim (Bool-cases (item_id == menu_main_entry_update)) [
                      | inl updates ↦ rw updates update
                      | inr updates ↦
                          rw updates (elim (Bool-cases (item_id == menu_main_entry_resetlog)) [
                            | inl resets ↦ rw resets (reset_log-Executes next_menu w is)
                            | inr resets ↦ rw resets (stays w next_menu is)
                          ])
                    ])
                  ])
                ])
              ])
            ])
    ]

exec_tincd-Executes :
    (minfo : MenuInfo) (next_menu item_id : ℕ) (w : World)
    → IsNext minfo.prev_mid
    → IsNext next_menu
    → Returns (Executes w) (exec_tincd minfo next_menu item_id w)
unfolding exec_tincd
exec_tincd-Executes minfo next_menu item_id w back is =
    let logged =
      (log_write log_debug "Reading UUID from '%s'.." (lit "/etc/cnode/.uuidauth" ∷ []) w).1 in
    elim (Bool-cases (item_id == minfo.nentries - 1)) [
      | inl last ↦ rw (exec_tincd, last) (stays w minfo.prev_mid back)
      | inr last ↦
          rw (exec_tincd, last)
            (elim (Bool-cases (item_id == menu_tincdctl_entry_dstatus)) [
              | inl status ↦ rw status (waits w next_menu is)
              | inr status ↦
                  rw status (elim (Bool-cases (item_id == menu_tincdctl_entry_showuuid)) [
                    | inl uuid ↦ rw uuid (
                        Executes-KeepsProgram w logged (config_read_uuid logged).1 next_menu
                          (is, inl refl, KeepsMenus-refl w) (config_read_uuid-KeepsProgram logged))
                    | inr uuid ↦ rw uuid (stays w next_menu is)
                  ])
            ])
    ]

-- Where the system grants every request and serves the check for updates, an item of a menu is
-- executed without undefined behaviour: the next menu is one of the five or the exit, at most one key
-- or one line of keys is taken, and the settings, the colours and the networks stay as they are. The menu it came from
-- and the next menu so far are menus or the exit.
pub menu_execoption-Executes :
    (minfo : MenuInfo) (next_menu item_id : ℕ) (w : World)
    → IsServed w.os w.options
    → IsNext minfo.prev_mid
    → IsNext next_menu
    → Returns (Executes w) (menu_execoption minfo next_menu item_id w)
unfolding menu_execoption
menu_execoption-Executes minfo next_menu item_id w served back is =
    elim (Bool-cases (minfo.mid == menu_id_main)) [
      | inl main ↦
          rw (menu_execoption, main) (exec_main-Executes minfo next_menu item_id w served is)
      | inr main ↦
          rw (menu_execoption, main)
            (elim (Bool-cases (minfo.mid == menu_id_nodewdctl)) [
              | inl nodewd ↦
                  rw nodewd
                    (stays-if w (item_id == minfo.nentries - 1) minfo.prev_mid next_menu back is)
              | inr nodewd ↦ rw nodewd (elim (Bool-cases (minfo.mid == menu_id_tincdctl)) [
                | inl tincd ↦ rw tincd (exec_tincd-Executes minfo next_menu item_id w back is)
                | inr tincd ↦ rw tincd (stays w next_menu is)
              ])
            ])
    ]
