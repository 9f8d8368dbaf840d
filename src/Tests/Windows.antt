-- ===== src/Tests/Windows.antt =====
-- A file that the server sends and logs on Windows: the theorems on Windows/Transfer, Windows/Pipe and
-- Windows/Serve, applied.
use gopher_server_cross_plat.Base.{
  ◌<◌, ◌≤◌, ◌≡◌, ◌⊎◌, true, false, [], ◌∷◌, ◌++◌, some, refl, length, codes, ℤ, pos,
}
use gopher_server_cross_plat.Outcome.{ok, stop, fault}
use gopher_server_cross_plat.Windows.Transfer
use gopher_server_cross_plat.Windows.Transfer.{
  Kernel, before_unmap, windows_memory_mapping, pointer_size,
}
use gopher_server_cross_plat.Windows.Transfer.Handles.{Balanced, windows_memory_mapping-Balanced}
use gopher_server_cross_plat.Windows.Transfer.Turns.{Sends, windows_memory_mapping-Sends}
use gopher_server_cross_plat.World.{Pipes}
use gopher_server_cross_plat.Windows.Pipe.{
  PipeArgs, LogAnswers, pipe_run_process, pipe_simple_write_to_pipe, simple_text, message_size,
  main_log_process,
}
use gopher_server_cross_plat.Windows.Pipe
use gopher_server_cross_plat.Windows.Pipe.Output.{Written, pipe_simple_write_to_pipe-Written}
use gopher_server_cross_plat.Tests.{test_os}
use gopher_server_cross_plat.Windows.Pipe.Records.{Working, Granted}

abbrev pub granting : gopher_server_cross_plat.Windows.Transfer.Answers
granting = record {
  create_file = λ _. true;
  attributes = λ _. some (0, 3);
  create_mapping = λ _. true;
  map_view = λ _. some (codes "hi" ++ 0 ∷ codes "x");
  create_thread = true;
  unmaps = true;
  closes_mapping = true;
  closes_file = true;
  send = λ _ m. some (length m);
}

abbrev nothing_open : Kernel
nothing_open = record { files = 0; mappings = 0; views = 0; threads = 0; sent = [] }

windows_memory_mapping-Balanced_example :
    Balanced nothing_open (windows_memory_mapping granting before_unmap (codes "f") nothing_open)
windows_memory_mapping-Balanced_example =
    windows_memory_mapping-Balanced granting refl refl refl before_unmap (codes "f") nothing_open

windows_memory_mapping-Sends_example :
    Sends before_unmap
      (codes "hi")
      nothing_open
      (windows_memory_mapping granting before_unmap (codes "f") nothing_open)
windows_memory_mapping-Sends_example =
    windows_memory_mapping-Sends granting (codes "f") (codes "hi") (codes "x") 3 2 refl refl refl
      refl refl (refl, (refl, tt)) refl refl refl refl (λ _ _. refl) before_unmap nothing_open

abbrev pub working : gopher_server_cross_plat.Windows.Pipe.Answers
working = record {
  create_pipe = some 96;
  sets_out = true;
  restores_out = true;
  create_process = true;
  duplicates = true;
  pipe_write_valid = true;
  writes = true;
  create_event = true;
}

abbrev pub no_pipe : Pipes
no_pipe = record { std_out = 7; pipe_read = 0; pipe = []; event_set = false; commands = [] }

abbrev one_file : PipeArgs
one_file = record { ip_client = codes "client"; dim_file = pos 8; path = codes "f"; port = pos 70 }

pipe_simple_write_to_pipe-Written_example :
    ((length (simple_text one_file) < message_size)
      × (r : ℤ × Pipes) × (pipe_simple_write_to_pipe test_os working one_file no_pipe ≡ ok r)
      × Written working (simple_text one_file) no_pipe r)
    ⊎ ((message_size ≤ length (simple_text one_file))
        × (pipe_simple_write_to_pipe test_os working one_file no_pipe ≡ stop fault))
pipe_simple_write_to_pipe-Written_example =
    pipe_simple_write_to_pipe-Written test_os working one_file no_pipe refl refl

abbrev pub granted : LogAnswers
granted = record { signalled = true; reads = true; opens = true; argument = true }

pub working-Working : Working working
working-Working = record {
  sets = refl;
  restores = refl;
  valid = refl;
  writing = refl;
  event = refl;
  starting = refl;
  duplicating = refl;
}

pub granted-Granted : Granted granted
granted-Granted = record {
  is_signalled = refl;
  is_read = refl;
  is_open = refl;
  has_argument = refl;
}
