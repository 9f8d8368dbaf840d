-- ===== src/Windows/Serve.antt =====
-- general/lib/socket/socket.c, the Windows part: a file is sent and logged, and the request ends.
pub mod Logged
use gopher_server_cross_plat.Base.{
  ℕ, zero, suc, ◌+◌, Bool, true, false, List, [], ◌∷◌, Option, none, some, ◌==◌, if◌then◌else◌,
  Bytes, ℤ, pos, negsuc, of_u32,
}
use gopher_server_cross_plat.Outcome.{Stop, Result, ok, stop, exited, thread_exit, fault, ◌>>=◌}
use gopher_server_cross_plat.World.{Os}
use gopher_server_cross_plat.Utils.{ThreadArgs, m_thread}
use gopher_server_cross_plat.Windows.Transfer.{Kernel, Turn, windows_memory_mapping}
use gopher_server_cross_plat.World.{Pipes}
use gopher_server_cross_plat.Windows.Pipe.{PipeArgs, pipe_run_process, pipe_simple_write_to_pipe}

-- In mode thread a log process is started first, with the mode of the global configuration. No result is
-- looked at. The wait for the process is told the address of its handle, and so it does not wait.
unfoldable pub log_file :
    Os
    → gopher_server_cross_plat.Windows.Pipe.Answers
    → gopher_server_cross_plat.Windows.Pipe.Answers
    → ℕ
    → ℕ
    → PipeArgs
    → Pipes
    → Result Pipes
unfolding pipe_run_process pipe_simple_write_to_pipe
log_file os run write global_mode mode args p =
    if mode == m_thread
    then (do
      r ← pipe_run_process os run global_mode p
      s ← pipe_simple_write_to_pipe os write args r.1
      ok s.1)
    else (do s ← pipe_simple_write_to_pipe os write args p; ok s.1)

-- The part for a regular file. A size of -1 is reported, and logged all the same.
unfoldable pub serve_file :
    Os
    → gopher_server_cross_plat.Windows.Transfer.Answers
    → Turn
    → gopher_server_cross_plat.Windows.Pipe.Answers
    → gopher_server_cross_plat.Windows.Pipe.Answers
    → ℕ
    → ThreadArgs
    → Bytes
    → Kernel
    → Pipes
    → Result (Kernel × Pipes)
unfolding log_file windows_memory_mapping
serve_file os a turn run write global_mode args path k p = do
  r ← windows_memory_mapping a turn path k
  q ←
      log_file os run write global_mode args.configs.mode_concurrency
        (record {
          ip_client = args.ip_client;
          dim_file = r.0;
          path = path;
          port = of_u32 args.configs.port_number;
        })
        p
  ok (r.1, q)

-- The end of a request: whether the client's socket is closed, and how the thread or process ends. The
-- arguments are freed: where they were not allocated, that is an access outside the heap.
unfoldable pub clean_request : ThreadArgs → Bool → Bool × Stop
clean_request args allocated =
    if args.configs.mode_concurrency == m_thread
    then (true, if allocated then thread_exit else fault)
    else (false, if allocated then exited (pos 0) else fault)
