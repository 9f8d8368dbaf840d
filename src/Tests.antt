-- ===== src/Tests.antt =====
-- A small system, on which the theorems are applied: a root with one directory and one file.
mod WindowsRequests
mod Requests
mod Parts
mod Logs
mod Windows
mod Runner
mod Texts
mod Single
mod Sessions
mod Stuck
mod Process
use gopher_server_cross_plat.Base.{
  ℕ, Bool, true, false, List, [], ◌∷◌, Option, none, some, if◌then◌else◌, Bytes, beq, codes, length,
  ℤ, pos,
}
use gopher_server_cross_plat.World.{Os, Recv, World}
use gopher_server_cross_plat.Utils.{Configs, ThreadArgs, m_thread}
use gopher_server_cross_plat.Handler.{Globals}

abbrev pub test_stat : Bytes → Option ℕ
test_stat path =
    if beq path (codes "/g/d")
    then some 0x41ed
    else if beq path (codes "/g/f")
    then some 0x81a4
    else none

abbrev pub test_os : Os
test_os = record {
  calloc_ok = λ _. true;
  sprintf_ok = λ _. true;
  send = λ _ m. some (length m);
  stat = test_stat;
  realpath = λ path. some path;
  readdir = λ _. some (codes "f" ∷ codes ".h" ∷ []);
  popen = λ _. some (some (codes "text/plain\n"));
  open_rw = λ _. true;
  fstat_size = λ _. some 2;
  mmap = λ _. some (codes "hi");
  thread_ok = true;
}

abbrev pub test_configs : Configs
test_configs = record {
  port_number = 70;
  mode_concurrency = m_thread;
  root_dir = codes "/g";
  used_optarg = false;
  reset_config = false;
  hostname = some (codes "host");
}

abbrev pub test_args : ThreadArgs
test_args = record { configs = test_configs; ip_client = codes "client" }

abbrev pub test_globals : Globals
test_globals = record { ip_buffer = codes "host"; cwd = codes "/s/build"; dos_protection = true }

abbrev pub world : List Recv → World
world l = record {
  incoming = l;
  sent = [];
  closes = 0;
  type_request = 0;
  mutex_held = false;
  file_locked = false;
  files_open = 0;
  log = [];
  handles = record { files = 0; mappings = 0; views = 0; threads = 0 };
  pipes = record { std_out = 0; pipe_read = 0; pipe = []; event_set = false; commands = [] };
}
