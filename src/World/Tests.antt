-- ===== src/World/Tests.antt =====
-- A system that grants every request, and the state of a program that starts there.
use central_node.Common.{true, false, none, some, [], ◌∷◌}
use central_node.Common.Text.{Bytes, codes}
use central_node.World.{Os, World}

abbrev pub uuid_example : Bytes
uuid_example = codes "f81d4fae-7dec-11d0-a765-00a0c91e6bf6"

abbrev pub granting : Os
granting = record {
  refuse = λ n r. 0;
  stack_addr = λ n. 0x7ffe;
  strerror = λ e. codes "error";
  uuid_text = λ n. uuid_example;
  env = λ name. none;
  transfer = λ n t. record { pieces = []; result = 0; response_code = 200 };
  interfaces = [];
  ipaddr = λ name mask. codes "127.0.0.1";
  terminal = (120, 40);
  selected = λ n. 0;
  cooked = λ keys. keys;
  contents = λ path. codes "text";
  md5 = λ text. codes "0123456789abcdef";
}

-- A system with one interface, whose update server has version 9999.
abbrev pub updating : Os
updating = record granting {
  transfer =
      λ n t. record { pieces = codes "X9" ∷ codes "999" ∷ []; result = 0; response_code = 200 };
  interfaces = (1, some (codes "eth0")) ∷ [];
}

abbrev pub started : World
started = record {
  os = granting;
  io = record { log_written = false; log_file = []; errno = 0; calls = 0 };
  log = record {
    logfile_available = true;
    log_level_force_set = false;
    log_path = none;
    log_level = 1;
  };
  options = record {
    autofix = false;
    godmode = false;
    nodewd_required = false;
    netlogos = false;
    allow_root_execution = false;
    net_nohttps = false;
    net_timeout = 0;
    tincifnet = none;
    proxyaddr = none;
    netrepo = none;
    first_time_launch = false;
    longest_cfg_entry = 0;
  };
  error = record { rsp64 = 0; exit_status = 0; last_errno = 0 };
  startup = record {
    nc_color_test = false;
    version = 0;
    winrunning = false;
    is_sys_wsl = false;
    execname = none;
  };
  disk = record { cfg_folder = true; cfg = none; uuid = none; osrelease = none };
  process = record { uid = 0; gid = 0 };
  net = record {
    netrepo_status = false;
    n_networks = 0;
    longest_net_entry = 0;
    network_info = 0;
    cells = λ p. none;
    fresh = 1;
    ifnets = none;
  };
  screen = record {
    mainwin = false;
    colors = λ c. record { red = 0; green = 0; blue = 0 };
    pairs = λ p. none;
    keys = [];
    stdin = [];
    echo = true;
    cursor = true;
  };
}
