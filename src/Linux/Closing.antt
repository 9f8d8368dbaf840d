-- ===== src/Linux/Closing.antt =====
-- The end of a request on Linux, and how often the client's descriptor is closed there.
use gopher_server_cross_plat.Base.{
  ℕ, ◌+◌, Option, none, some, ◌≡◌, ◌≢◌, arith, if◌then◌else◌, Bytes, ℤ, Bool, Bool-cases, ◌⊎◌, inl,
  inr, is_negative,
}
use gopher_server_cross_plat.Outcome.{no_fuel}
use gopher_server_cross_plat.World.{Os, World, Out, done, halt, Served}
use gopher_server_cross_plat.Utils.{ThreadArgs}
use gopher_server_cross_plat.Platform.{IsLawful, ServedOn}
use gopher_server_cross_plat.Mapping.{linux_memory_mapping}
use gopher_server_cross_plat.Mapping.Keeps.{linux_memory_mapping-Served}
use gopher_server_cross_plat.Linux.{
  log_with, socket_pipe_log_server_single_process, serve_file, linux,
}
use gopher_server_cross_plat.Handler.{Globals, handle_request}
use gopher_server_cross_plat.Handler.Ending.{Ends}
use gopher_server_cross_plat.Handler.Closing.{handle_request-Closes}
use gopher_server_cross_plat.Request.{socket_read_request}
use gopher_server_cross_plat.Request.Total.{socket_read_request-stops}

log_with-Served :
    (path : Bytes) (n : ℤ) (args : ThreadArgs) (h : Option Bytes) (c : ℕ) (w : World)
    → (w.closes ≡ c) ⊎ ((w.closes ≡ c + 1) × (w.type_request ≡ 0))
    → Served c (log_with path n args h w)
unfolding log_with
log_with-Served path n args none c w k = ground arith
log_with-Served path n args (some hostname) c w k = k

serve_file-Served :
    (os : Os) (args : ThreadArgs) (path : Bytes) (w : World)
    → w.type_request ≡ 0
    → Served w.closes (serve_file os args path w)
unfolding serve_file socket_pipe_log_server_single_process
serve_file-Served os args path w typed =
    go (linux_memory_mapping os args.configs.mode_concurrency path w)
      (linux_memory_mapping-Served os args.configs.mode_concurrency path w typed)
  where
    go :
        (o : Out ℤ)
        → Served w.closes o
        → Served w.closes (elim o as (λ _. Out (Unit {0})) [
          | done n v ↦
              (if is_negative n
                  then (λ u. done tt u)
                  else log_with path n args args.configs.hostname)
                v
          | halt s v ↦ halt s v
        ])
    go (halt s v) k = k
    go (done n v) k = elim (Bool-cases (is_negative n)) [
      | inl failed ↦ rw failed k
      | inr mapped ↦ rw mapped (log_with-Served path n args args.configs.hostname w.closes v k)
    ]

-- With type 0 the descriptor that a thread has closed is not closed again.
Served-ServedOn :
    {A : Type 0} (args : ThreadArgs) (c : ℕ) (o : Out A) → Served c o → ServedOn linux args 1 c o
Served-ServedOn args c (done a v) k = ground (arith, k)
Served-ServedOn args c (halt s v) k = k

pub linux-IsLawful : (args : ThreadArgs) → IsLawful linux args 1
linux-IsLawful args = record {
  end_stops = λ w. ground arith;
  end_once = λ w. ground arith;
  serve_once = λ os path w typed.
      Served-ServedOn args w.closes (serve_file os args path w)
        (serve_file-Served os args path w typed);
}

-- No call of the handler on Linux returns, whatever the client sends and the system answers: its thread or
-- process exits, waits for ever or faults, and up to then it has closed the client's descriptor at most once.
pub handle_request-Ends :
    (os : Os) (globals : Globals) (args : ThreadArgs) (w : World)
    → Ends 1 w.closes (handle_request os globals args w)
handle_request-Ends os globals args w =
    handle_request-Closes args 1 (linux-IsLawful args) os globals w

-- Reading a request on Linux always ends by the code's own tests, whatever recv answers.
socket_read_request-ne-no_fuel :
    (os : Os) (args : ThreadArgs) (dos : Bool) (w v : World)
    → socket_read_request os args dos w ≢ halt no_fuel v
socket_read_request-ne-no_fuel os args dos w v =
    socket_read_request-stops args 1 (linux-IsLawful args) os dos w v
