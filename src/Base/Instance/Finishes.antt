-- ===== src/Base/Instance/Finishes.antt =====
-- The end of the start: the networks are logged, and WSL is looked for.
use central_node.Common.{
  ℕ, zero, suc, ◌+◌, ◌%◌, ◌^◌, ◌<◌, ◌≡◌, refl, ap, Bool, false, not, ◌&&◌, List, [], ◌∷◌, arith,
  ltb, ◌==◌, inl, inr, Bool-cases, if◌then◌else◌, length,
}
use central_node.World.{World, Startup, num, str, exit_success}
use central_node.World.Keeps.{KeepsProgram, KeepsProgram-trans}
use central_node.World.Networks.{Network}
use central_node.World.Faults.{Returns, Returns-and_then, ◌>>=◌}
use central_node.Sys.Logging.{log_write, log_debug, log_warning}
use central_node.Sys.Sysctl.{is_wsl}
use central_node.Sys.Sysctl.Granted.{is_wsl-KeepsProgram}
use central_node.Net.NetworkList.Chain.{Chain, nil, cons, Holds, length-Chain, load-here}
use central_node.Base.Instance.{log_if, log_networks, is_online, finish}

-- Logging the networks touches only the log.
log_networks-KeepsProgram :
    (rounds itr lo p : ℕ) (xs : List Network) (w : World)
    → Chain w.net.cells w.net.fresh lo p xs
    → length xs < rounds
    → Returns (λ _ w'. KeepsProgram w w') (log_networks rounds itr p w)
unfolding log_networks
log_networks-KeepsProgram zero itr lo p xs w chain enough = absurd (omega arith)
log_networks-KeepsProgram (suc rounds) itr lo p [] w nil enough =
    (refl, refl, refl, refl, refl, refl)
log_networks-KeepsProgram (suc rounds) itr lo p (x ∷ xs) w (cons {next} above below here rest)
      enough =
    let used : (p == 0) ≡ false = ground arith in
    let logged =
      (log_write log_debug "Network %hu: '%s'" (num itr ∷ str x.network_name ∷ []) w).1 in
    rw (used, ◌>>=◌, load-here p (record { info = x; next = next }) w here)
      (log_networks-KeepsProgram rounds
        (if is_online x.network_status then (itr + 1) % 2 ^ 16 else itr) p next xs logged rest
        (omega arith))

-- The end of the start: only the number of the networks and the mark of WSL are set.
abbrev pub Finishes : ℕ → World → ℕ → World → Type 0
Finishes n w code w' =
    (code ≡ exit_success)
    × (w'.os ≡ w.os)
    × (w'.options ≡ w.options)
    × (w'.startup ≡ record w.startup { is_sys_wsl = w'.startup.is_sys_wsl })
    × (w'.screen ≡ w.screen)
    × (w'.net ≡ record w.net { n_networks = n })

-- The state behind the warnings.
abbrev counted : ℕ → World → World
counted n w =
    let w1 : World = record w { net = record w.net { n_networks = n } } in
    let w2 =
      (log_if (not w1.net.netrepo_status) log_warning "Remote network repository is unavailable" []
        w1).1 in
    (log_if (w1.net.netrepo_status && ltb n 1) log_warning "Remote network repository is empty" []
      w2).1

-- What finding out about WSL makes of a state.
abbrev detected : Bool → World → World
detected wsl v =
    (log_if wsl log_debug "Windows Subsystem Linux detected" []
      (record v { startup = record v.startup { is_sys_wsl = wsl } })).1

detected-Finishes :
    (n : ℕ) (w v : World)
    → KeepsProgram (counted n w) v
    → Finishes n w exit_success (detected (is_wsl v).0 (is_wsl v).1)
detected-Finishes n w v kept =
    let (os, options, startup, screen, net, log) =
      KeepsProgram-trans (counted n w) v (is_wsl v).1 kept (is_wsl-KeepsProgram v) in
    (
      refl,
      os,
      options,
      ap {A = Startup} (λ s. record s { is_sys_wsl = (is_wsl v).0 }) startup,
      screen,
      net,
    )

pub finish-Finishes :
    (n : ℕ) (xs : List Network) (w : World) → Holds w.net xs → Returns (Finishes n w) (finish n w)
unfolding finish
finish-Finishes n xs w holds =
    let w2 = counted n w in
    elim (Bool-cases (w.log.log_level == log_debug)) [
      | inr quiet ↦ rw quiet (detected-Finishes n w w2 (refl, refl, refl, refl, refl, refl))
      | inl debug ↦
          let logged = (log_write log_debug "Number of networks: %zu" (num n ∷ []) w2).1 in
          rw debug (
            Returns-and_then (λ _ v. KeepsProgram logged v) (Finishes n w)
              (log_networks (suc w.net.fresh) 0 w.net.network_info logged) _
              (log_networks-KeepsProgram (suc w.net.fresh) 0 0 w.net.network_info xs logged holds.1
                (omega (arith, length-Chain holds.1 holds.0)))
              (λ _ v kept. detected-Finishes n w v kept))
    ]
