-- ===== src/Windows/Handler.antt =====
-- windows/lib/socket/windows_socket.c `handle_request`: the shared code of a request, on the platform
-- Windows.
pub mod Closing
pub mod Replies
pub mod Files
use gopher_server_cross_plat.Base.{
  ℕ, ◌+◌, Bool, true, false, List, [], ◌∷◌, Option, none, some, ◌==◌, if◌then◌else◌, Bytes, ℤ, pos,
}
use gopher_server_cross_plat.Outcome.{Stop, Result, ok, stop}
use gopher_server_cross_plat.World.{Os, World, M, Out, done, halt, Pipes, Handles}
use gopher_server_cross_plat.Platform.{Platform}
use gopher_server_cross_plat.Utils.{ThreadArgs}
use gopher_server_cross_plat.Codes.Windows.{get_gopher_code}
use gopher_server_cross_plat.Windows.BlackList.{Paths, black_list_file, is_refused}
use gopher_server_cross_plat.Windows.Transfer.{Kernel, Turn}
use gopher_server_cross_plat.Windows.Serve.{serve_file, clean_request}
use gopher_server_cross_plat.Handler
use gopher_server_cross_plat.Handler.{Globals}

-- Answers of the system, besides those of `Os`; the mode of the global configuration; and whether the
-- arguments of the request were allocated.
pub record Answers : Type 0 where
  pub transfer : gopher_server_cross_plat.Windows.Transfer.Answers
  pub turn : Turn
  pub run : gopher_server_cross_plat.Windows.Pipe.Answers
  pub write : gopher_server_cross_plat.Windows.Pipe.Answers
  pub paths : Paths
  pub global_mode : ℕ
  pub allocated : Bool

abbrev pub os_separator : ℕ
os_separator = b'\\'

-- The client's socket is the same for the transfer and for the replies.
abbrev pub transfer_answers : Answers → Os → gopher_server_cross_plat.Windows.Transfer.Answers
transfer_answers a os = record a.transfer { send = os.send }

abbrev pub kernel_of : World → Kernel
kernel_of w = record {
  files = w.handles.files;
  mappings = w.handles.mappings;
  views = w.handles.views;
  threads = w.handles.threads;
  sent = w.sent;
}

-- The world after a transfer and its record.
abbrev pub with_kernel : Kernel → Pipes → World → World
with_kernel k p w = record w {
  handles = record { files = k.files; mappings = k.mappings; views = k.views; threads = k.threads };
  sent = k.sent;
  pipes = p;
}

abbrev pub after_file : World → Result (Kernel × Pipes) → Out (Unit {0})
after_file w (ok r) = done tt (with_kernel r.0 r.1 w)
after_file w (stop s) = halt s w

unfoldable pub serve_path : Answers → Os → ThreadArgs → Bytes → M (Unit {0})
unfolding serve_file
serve_path a os args path w = after_file w (
    serve_file os (transfer_answers a os) a.turn a.run a.write a.global_mode args path (kernel_of w)
      w.pipes)

-- How the thread or the process ends, and the client's socket.
abbrev close_if : Bool → World → World
close_if closed w = if closed then record w { closes = w.closes + 1 } else w

unfoldable pub end_request : Answers → ThreadArgs → World → Stop × World
unfolding clean_request
end_request a args w =
    ((clean_request args a.allocated).1, close_if (clean_request args a.allocated).0 w)

abbrev pub windows : Answers → Platform
windows a = record {
  separator = os_separator;
  get_gopher_code = λ _ path. ok (pos (get_gopher_code path));
  black_list_file = λ _ base path name. is_refused (black_list_file a.paths base path name);
  end_request = end_request a;
  serve_file = serve_path a;
}

unfoldable pub handle_request : Answers → Os → Globals → ThreadArgs → M (Unit {0})
handle_request a os globals args =
    gopher_server_cross_plat.Handler.handle_request ⦃platform = windows a⦄ os globals args
