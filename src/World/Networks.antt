-- ===== src/World/Networks.antt =====
-- What the program keeps of networks and interfaces (src/net/networks.h, src/net/ifs.h, and "network
-- stuff" of src/base/cnode.h), and what libcurl is asked and answers.
use central_node.Common.{ℕ, Bool, Option, List}
use central_node.Common.Text.{Bytes}

-- `NODE_NETWORK_STATUS`; OFFLINE has the number of UNINITIALIZED.
pub data NetworkStatus : Type 0 where
  status_error : NetworkStatus
  status_uninitialized : NetworkStatus
  status_online : NetworkStatus

-- `struct node_network_info`, less its link
pub record Network : Type 0 where
  pub network_name : Option Bytes
  pub network_logo : Option Bytes
  pub net_local_id : ℕ
  pub net_uuid : ℕ
  pub network_status : NetworkStatus

-- An address of the heap; 0 is `NULL`.
abbrev pub Ptr : Type 0
Ptr = ℕ

-- `struct node_network_info`, with its link
pub record Node : Type 0 where
  pub info : Network
  pub next : Ptr

-- The nodes that are allocated, by their addresses.
abbrev pub Heap : Type 0
Heap = Ptr → Option Node

pub record Ifnet : Type 0 where
  pub if_name : Bytes
  pub if_addr : Bytes
  pub if_mask : Bytes

-- `fresh` is the address that the next node is given: addresses are not used again.
pub record Net : Type 0 where
  pub netrepo_status : Bool
  pub n_networks : ℕ
  pub longest_net_entry : ℕ
  pub network_info : Ptr
  pub cells : Heap
  pub fresh : Ptr
  pub ifnets : Option (List Ifnet)

-- The options that a transfer is set up with. Each is set once.
pub record Transfer : Type 0 where
  pub url : Bytes
  pub verify : Bool
  pub proxy : Option Bytes
  pub timeout : ℕ

-- What a transfer brings: the data in the pieces that libcurl passes to the write callback, its result
-- code, 0 for CURLE_OK, and the response code of HTTP.
pub record Transferred : Type 0 where
  pub pieces : List Bytes
  pub result : ℕ
  pub response_code : ℕ
