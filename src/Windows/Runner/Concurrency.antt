-- ===== src/Windows/Runner/Concurrency.antt =====
-- windows/lib/socket/windows_socket.c `run_concurrency`, which nothing calls.
use gopher_server_cross_plat.Base.{ℕ, Bool, false, Option, ◌==◌, if◌then◌else◌, Bytes, negsuc}
use gopher_server_cross_plat.Outcome.{Result, ok, stop, exited}
use gopher_server_cross_plat.Utils.{m_process, m_thread}
use gopher_server_cross_plat.Windows.Runner.{SharedArgs}

-- The arguments behind the pointer, and whether a thread has been started. That thread is given the address
-- of the pointer itself, where no ThreadArgs stands. In process mode nothing is started.
unfoldable pub run_concurrency : Bool → Bytes → Option ℕ → SharedArgs → Result (SharedArgs × Bool)
run_concurrency spawned ip client args =
    let set = record args { fd = client; ip_client = ip } in
    if args.configs.mode_concurrency == m_thread
    then ok (set, spawned)
    else if args.configs.mode_concurrency == m_process
    then ok (set, false)
    else stop (exited (negsuc 0))
