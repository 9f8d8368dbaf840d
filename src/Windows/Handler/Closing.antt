-- ===== src/Windows/Handler/Closing.antt =====
-- How a request ends on Windows, and how often the client's socket is closed there.
use gopher_server_cross_plat.Base.{ℕ, ◌==◌, if◌then◌else◌, arith}
use gopher_server_cross_plat.Outcome.{Result, ok, stop}
use gopher_server_cross_plat.World.{Os, World, Pipes}
use gopher_server_cross_plat.Utils.{ThreadArgs, m_thread}
use gopher_server_cross_plat.Platform.{IsLawful, ServedOn}
use gopher_server_cross_plat.Windows.Transfer.{Kernel}
use gopher_server_cross_plat.Windows.Serve.{clean_request}
use gopher_server_cross_plat.Windows.Handler.{
  Answers, windows, handle_request, after_file, end_request, serve_path,
}
use gopher_server_cross_plat.Handler.{Globals}
use gopher_server_cross_plat.Handler.Ending.{Ends}
use gopher_server_cross_plat.Handler.Closing.{handle_request-Closes}

-- The times that a request closes the client's socket at most.
abbrev pub closes_of : ThreadArgs → ℕ
closes_of args = if args.configs.mode_concurrency == m_thread then 1 else 0

after_file-Served :
    (a : Answers) (args : ThreadArgs) (w : World) (r : Result (Kernel × Pipes))
    → ServedOn (windows a) args (closes_of args) w.closes (after_file w r)
unfolding end_request clean_request
after_file-Served a args w (ok r) = ground arith
after_file-Served a args w (stop s) = ground arith

pub windows-IsLawful :
    (a : Answers) (args : ThreadArgs) → IsLawful (windows a) args (closes_of args)
unfolding end_request clean_request serve_path
windows-IsLawful a args = record {
  end_stops = λ w. ground arith;
  end_once = λ w. ground arith;
  serve_once = λ os path w typed. after_file-Served a args w _;
}

-- No call of the handler on Windows returns, whatever the client sends and the system answers; and up to its
-- end it has closed the client's socket at most once in thread mode, and not at all in any other.
pub windows_request-Ends :
    (a : Answers) (os : Os) (globals : Globals) (args : ThreadArgs) (w : World)
    → Ends (closes_of args) w.closes (handle_request a os globals args w)
unfolding handle_request
windows_request-Ends a os globals args w =
    handle_request-Closes ⦃platform = windows a⦄ args (closes_of args) (windows-IsLawful a args) os
      globals w
