-- ===== src/Windows/HandleRequest/Closed.antt =====
-- The handles that the process for a connection leaves open.
use gopher_server_cross_plat.Base.{
  ℕ, ◌≤◌, List, Option, none, some, ◌≡◌, refl, arith, Bytes, ℤ, negsuc,
}
use gopher_server_cross_plat.Outcome.{Result, ok, stop, fault, ◌>>=◌}
use gopher_server_cross_plat.World.{Os}
use gopher_server_cross_plat.World.{Pipes}
use gopher_server_cross_plat.Windows.Pipe.{Answers, pipe_run_process}
use gopher_server_cross_plat.Windows.Pipe.Output.{OnlyFaults, pipe_run_process-OnlyFaults}
use gopher_server_cross_plat.Windows.HandleRequest.{
  Request, Offer, Stage, left, handling, Reached, take_socket, make_socket, read_arguments,
  copy_root, with_request, main_handle_request, opened_handles,
}

-- Where it ends without a request it returns -1, and no handle is open; where it handles one, at most the
-- two of the log process are.
abbrev pub ClosedAt : Reached → Stage → Type 0
ClosedAt r (left code) = (code ≡ negsuc 0) × (r.process_handles ≡ 0) × (r.pipe_handles ≡ 0)
ClosedAt r (handling fd q) = (r.process_handles ≤ 2) × (r.pipe_handles ≡ 0)

-- The only way to stop is an access outside an object.
abbrev pub Closed : Result Reached → Type 0
Closed (ok r) = ClosedAt r r.stage
Closed (stop s) = s ≡ fault

take_socket-Closed :
    (o : Offer) (q : Request) (p : Pipes) (n : ℕ)
    → n ≤ 2
    → Closed (
        ok (
          take_socket o q
            (record { stage = left (negsuc 0); pipes = p; process_handles = n; pipe_handles = 0 })))
unfolding take_socket make_socket
take_socket-Closed o q p n h = ground arith

started-Closed :
    (o : Offer) (q : Request) (n : ℤ → ℕ) (r : Result (ℤ × Pipes))
    → OnlyFaults r
    → ((code : ℤ) → n code ≤ 2)
    → Closed (
        r >>= λ s. ok (
          take_socket o q (record {
            stage = left (negsuc 0);
            pipes = s.1;
            process_handles = n s.0;
            pipe_handles = 0;
          })))
started-Closed o q n (ok (code, s)) h k = take_socket-Closed o q s (n code) (k code)
started-Closed o q n (stop s) h k = h

with_request-Closed :
    (os : Os) (a : Answers) (o : Offer) (p : Pipes) (q : Option Request)
    → Closed (with_request os a o p q)
unfolding with_request
with_request-Closed os a o p none = (refl, refl, refl)
with_request-Closed os a o p (some q) =
    started-Closed o q (opened_handles a) (pipe_run_process os a q.mode_concurrency p)
      (pipe_run_process-OnlyFaults os a q.mode_concurrency p) (λ code. ground arith)

abbrev ArgumentFaults : Result (Option Request) → Type 0
ArgumentFaults (ok q) = Unit
ArgumentFaults (stop s) = s ≡ fault

read_arguments-faults :
    (ip_buffer : Bytes) (argv : List Bytes) → ArgumentFaults (read_arguments ip_buffer argv)
unfolding read_arguments copy_root
read_arguments-faults ip_buffer argv = ground arith

arguments-Closed :
    (os : Os) (a : Answers) (o : Offer) (p : Pipes) (q : Result (Option Request))
    → ArgumentFaults q
    → Closed (q >>= with_request os a o p)
arguments-Closed os a o p (ok q) h = with_request-Closed os a o p q
arguments-Closed os a o p (stop s) h = h

-- However the system answers and whatever the arguments are: the process for a connection ends with -1 and
-- has closed every handle of the log process and of the named pipe, or it comes to handle its request with
-- the named pipe closed, or it makes an access outside an object.
pub main_handle_request-Closed :
    (os : Os) (a : Answers) (o : Offer) (ip_buffer : Bytes) (argv : List Bytes) (p : Pipes)
    → Closed (main_handle_request os a o ip_buffer argv p)
unfolding main_handle_request
main_handle_request-Closed os a o ip_buffer argv p =
    arguments-Closed os a o p (read_arguments ip_buffer argv) (read_arguments-faults ip_buffer argv)
