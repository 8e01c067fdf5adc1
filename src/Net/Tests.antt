-- ===== src/Net/Tests.antt =====
-- The theorems on networks at concrete inputs.
use central_node.Common.{◌≡◌, refl, none, some, [], ◌∷◌, arith, ◌==◌, if◌then◌else◌}
use central_node.Common.Text.{Bytes, codes}
use central_node.World.{World, Os}
use central_node.World.Tests.{started, granting, updating}
use central_node.World.Faults.{Returns}
use central_node.World.Networks.{Network}
use central_node.Sys.Config.File.Default.{joined}
use central_node.Net.Curl.{curl_sendrequest}
use central_node.Net.Curl.Request.{curl_sendrequest-Copies, curl_sendrequest_overflow}
use central_node.Net.Curl.Deliver.{Copies}
use central_node.Net.Ops.{atoi, net_checkupdate}
use central_node.Net.Ops.Update.{Decides, version_out, net_checkupdate-Decides}
use central_node.Net.Ifs.{if_get_ifnet_names}
use central_node.Net.Ifs.Fetch.{if_get_ifnet_names-Lists}
use central_node.Net.Ifs.Fetch
use central_node.Common.{false, drop}
use central_node.Net.NetworkList.{new_network, network_info_entry_add, network_info_final}
use central_node.Net.NetworkList.Chain.{Chain, nil, cons}
use central_node.Net.NetworkList.Add.{Added, network_info_entry_add-append}
use central_node.Net.NetworkList.Final.{Frees, network_info_final-Frees}
use central_node.Common.Text.{is_alnum}
use central_node.Net.Ops.{isspecial, is_one_of, read_networks, net_get_networks}
use central_node.Net.Ops.Names.{Lists, read_networks-Lists}
use central_node.Net.Ops.Fetch.{Fetches, net_get_networks-Fetches}

-- The list of two names, in two pieces.
abbrev served : Bytes
served = codes "node\nmesh_2\n"

abbrev serving : Os
serving = record granting {
  transfer = λ n t. record {
    pieces = codes "node\nme" ∷ codes "sh_2\n" ∷ [];
    result = 0;
    response_code = 200;
  };
}

abbrev online : World
online = record started {
  os = serving;
  options = record started.options {
    netrepo = some (codes "repo.net");
    proxyaddr = some (codes "NULL");
  };
}

abbrev listed : Network
listed = new_network 0 (some (codes "node"))

-- The state of a program that knows one network.
abbrev with_network : World
with_network = record online {
  net = record online.net {
    network_info = 1;
    fresh = 2;
    cells = λ p. if p == 1 then some (record { info = listed; next = 0 }) else none;
  };
}

abbrev with_network-Chain : Chain with_network.net.cells 2 0 1 (listed ∷ [])
with_network-Chain = cons (omega arith) (omega arith) refl nil

network_info_entry_add-append_example :
    Returns
      (Added 1 (codes "mesh_2") (listed ∷ []) with_network)
      (network_info_entry_add 1 (codes "mesh_2") with_network)
network_info_entry_add-append_example =
    network_info_entry_add-append 1 (codes "mesh_2") (listed ∷ []) with_network
      (omega arith, with_network-Chain) (λ n. refl)

network_info_final-Frees_example :
    Returns (λ _. Frees with_network with_network-Chain) (network_info_final with_network)
network_info_final-Frees_example =
    network_info_final-Frees with_network (omega arith) with_network-Chain

read_networks-Lists_example :
    Returns
      (Lists 1 (listed ∷ []) with_network)
      (read_networks 20 (codes "a\n\nb b") 1 with_network)
read_networks-Lists_example =
    read_networks-Lists 20 1 (codes "a\n\nb b") (listed ∷ []) with_network (omega arith)
      (omega arith, with_network-Chain) (λ n. refl)

net_get_networks-Fetches_example :
    Returns
      (Fetches (codes "node" ∷ codes "mesh_2" ∷ []) (listed ∷ []) with_network)
      (net_get_networks with_network)
unfolding joined isspecial is_one_of is_alnum
net_get_networks-Fetches_example =
    net_get_networks-Fetches (codes "repo.net") (codes "NULL") (codes "node") (codes "mesh_2" ∷ [])
      (listed ∷ []) with_network
      (
        (
          (refl, (refl, (refl, (refl, tt)))),
          (refl, (refl, (refl, (refl, tt)))),
          omega arith,
          omega arith,
        ),
        (
          (
            (refl, (refl, (refl, (refl, (refl, (refl, tt)))))),
            (refl, (refl, (refl, (refl, (refl, (refl, tt)))))),
            omega arith,
            omega arith,
          ),
          tt,
        ),
      )
      (
        refl,
        (refl, (refl, (refl, (refl, (refl, (refl, (refl, (refl, (refl, (refl, (refl, tt))))))))))),
      )
      (omega arith) refl refl (λ n t same. (refl, refl)) (omega arith, with_network-Chain)
      (λ n r. refl)

curl_sendrequest-Copies_example :
    Returns (Copies served 6 online) (curl_sendrequest (some (codes "http://repo.net")) 6 6 online)
curl_sendrequest-Copies_example =
    curl_sendrequest-Copies (codes "http://repo.net") (codes "NULL") served 6 6 online (λ n r. refl)
      (λ n t same. (refl, refl)) refl (omega arith) (omega arith) (omega arith)

curl_sendrequest_overflow_example :
    curl_sendrequest (some (codes "http://repo.net")) 8 0 online ≡ none
curl_sendrequest_overflow_example =
    curl_sendrequest_overflow (codes "http://repo.net") (codes "NULL") served 8 online (λ n r. refl)
      (λ n t same. (refl, refl)) refl (omega arith)

abbrev with_updates : World
with_updates = record online { os = updating }

pub newer_version : atoi (drop 1 (version_out (codes "X9999"))) ≡ some (false, 9999)
unfolding atoi
newer_version = refl

net_checkupdate-Decides_example :
    Returns (Decides (codes "X9999") (false, 9999) with_updates) (net_checkupdate with_updates)
net_checkupdate-Decides_example =
    net_checkupdate-Decides (codes "NULL") (codes "X9999") (false, 9999) with_updates (λ n r. refl)
      (λ n t same. (refl, refl)) refl (omega arith) newer_version

-- A system with two interfaces, and an entry that ends the list.
abbrev connected : World
connected = record started {
  os = record granting {
    interfaces = (1, some (codes "lo")) ∷ (2, some (codes "eth0")) ∷ (0, none) ∷ [];
  };
}

if_get_ifnet_names-Lists_example : Returns (Fetch.Lists connected) (if_get_ifnet_names connected)
if_get_ifnet_names-Lists_example = if_get_ifnet_names-Lists connected (λ n r. refl)
