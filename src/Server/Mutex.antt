-- ===== src/Server/Mutex.antt =====
-- linux/lib/socket/linux_socket.c `start_mutex` and `close_mutex`, which main calls around its loop.
use gopher_server_cross_plat.Base.{Bool, false, Option, none, some, ◌==◌, if◌then◌else◌}
use gopher_server_cross_plat.Utils.{Configs, m_thread}

-- `p_mutex`: none when it is not initialised, else whether a thread has it. What pthread answers is reported
-- and changes nothing else.
abbrev pub Mutex : Type 0
Mutex = Option Bool

unfoldable pub start_mutex : Configs → Bool → Mutex → Mutex
start_mutex configs init_ok m =
    if configs.mode_concurrency == m_thread then (if init_ok then some false else m) else m

unfoldable pub close_mutex : Configs → Bool → Mutex → Mutex
close_mutex configs destroy_ok m =
    if configs.mode_concurrency == m_thread then (if destroy_ok then none else m) else m
