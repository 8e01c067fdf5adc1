-- ===== src/Gui/Menu/Entries/Runs.antt =====
-- The entries at concrete states.
use central_node.Common.{◌≡◌, refl, Option, none, some, [], ◌∷◌, if◌then◌else◌, ◌==◌}
use central_node.Common.Text.{codes}
use central_node.World.{World, answer}
use central_node.World.Tests.{started}
use central_node.World.Networks.{status_online, Network}
use central_node.Sys.Config.Entry.{config_entry_to_str}
use central_node.Net.NetworkList.{load}
use central_node.Gui.Menu.Entries.{
  text_of, allocate_entries, format_entry, load_names, menu_config_formatentries,
  menu_entries_load_networks,
}

-- A value of a run, without its state.
abbrev result_of {ℓ} : {A : Type ℓ} → Option (A × World) → Option A
result_of none = none
result_of (some (a, w)) = some a

abbrev configured : World
configured = record started {
  options = record started.options {
    tincifnet = some (codes "tun0");
    proxyaddr = some (codes "NULL");
    netrepo = some (codes "repo.net");
    net_timeout = 15;
    longest_cfg_entry = 8;
  };
}

-- A line of the menu is cut to the longest entry and 11 bytes more.
cut_entry : format_entry 8 10 (codes "repo.net") ≡ codes "NETREPO = \"repo.net"
unfolding format_entry config_entry_to_str
cut_entry = refl

-- Where the network repository is `NULL`, its text is undefined.
formatted_null :
    menu_config_formatentries
      (record configured { options = record configured.options { netrepo = none } })
    ≡ none
unfolding menu_config_formatentries allocate_entries text_of answer
formatted_null = refl

abbrev mesh : Network
mesh = record {
  network_name = some (codes "mesh");
  network_logo = none;
  net_local_id = 0;
  net_uuid = 0;
  network_status = status_online;
}

abbrev with_network : World
with_network = record started {
  net = record started.net {
    network_info = 1;
    fresh = 2;
    cells = λ p. if p == 1 then some (record { info = mesh; next = 0 }) else none;
  };
}

loaded : result_of (menu_entries_load_networks with_network) ≡ some (codes "mesh" ∷ [])
unfolding menu_entries_load_networks load_names load answer
loaded = refl
