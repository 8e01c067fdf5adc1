-- ===== src/World/Keeps.antt =====
-- What a run leaves that touches only the files, the log file, the last error and the requests made.
use central_node.Common.{◌≡◌, ◌∙◌}
use central_node.World.{World, Startup}
use central_node.World.Networks.{Net}
use central_node.World.Terminal.{Screen}

abbrev pub KeepsProgram : World → World → Type 0
KeepsProgram w w' =
    (w'.os ≡ w.os)
    × (w'.options ≡ w.options)
    × (w'.startup ≡ w.startup)
    × (w'.screen ≡ w.screen)
    × (w'.net ≡ w.net)
    × (w'.log ≡ w.log)

abbrev pub KeepsProgram-trans :
    (u v w : World) → KeepsProgram u v → KeepsProgram v w → KeepsProgram u w
KeepsProgram-trans u v w (a, b, c, d, e, f) (a', b', c', d', e', f') =
    (a' ∙ a, b' ∙ b, c' ∙ c, d' ∙ d, e' ∙ e, f' ∙ f)

-- What neither the configuration nor the files touch: the start-up switches, the networks and the
-- terminal.
abbrev pub rest_of : World → Startup × Net × Screen
rest_of w = (w.startup, w.net, w.screen)
