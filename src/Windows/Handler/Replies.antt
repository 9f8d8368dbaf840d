-- ===== src/Windows/Handler/Replies.antt =====
-- What a client receives on Windows for its request, and what is logged for it.
use gopher_server_cross_plat.Base.{
  ℕ, ◌+◌, ◌≤◌, true, List, [], ◌∷◌, some, ◌≡◌, refl, ◌∙◌, Bytes, length, pos, All, ◌==◌,
  if◌then◌else◌, Bool-cases, inl, inr, ap,
}
use gopher_server_cross_plat.Outcome.{Stop, exited, thread_exit, fault}
use gopher_server_cross_plat.World.{Os, Recv, World, Out, halt}
use gopher_server_cross_plat.Utils.{ThreadArgs, port_of, m_thread}
use gopher_server_cross_plat.Cstring.{c_string}
use gopher_server_cross_plat.Cstring.Decimal.{print_int}
use gopher_server_cross_plat.Codes.Windows.{get_gopher_code, get_gopher_code-no_error}
use gopher_server_cross_plat.Protocol.Selector.{joined}
use gopher_server_cross_plat.Protocol.Listing.{Coded}
use gopher_server_cross_plat.Request.{clean_request}
use gopher_server_cross_plat.Request.Chunks.{pieces}
use gopher_server_cross_plat.Files.{is_directory, file_type}
use gopher_server_cross_plat.Handler.{Globals, is_refused}
use gopher_server_cross_plat.Handler.Serving.{Works, Asks, CleansUp}
use gopher_server_cross_plat.Handler.Answers.{
  refused_line, directory_line, refused_world, listed_world,
}
use gopher_server_cross_plat.Windows.Serve
use gopher_server_cross_plat.Windows.Handler.{Answers, windows, handle_request, end_request}

-- How the thread or the process ends.
abbrev pub end_of : Answers → ThreadArgs → Stop
end_of a args =
    if a.allocated
    then (if args.configs.mode_concurrency == m_thread then thread_exit else exited (pos 0))
    else fault

-- A thread closes the client's socket, a process leaves it to the server.
abbrev pub closed_by : ThreadArgs → World → World
closed_by args w =
    if args.configs.mode_concurrency == m_thread then record w { closes = w.closes + 1 } else w

-- The request ends in a world that is `w` but for what is left to receive.
abbrev pub EndsIn : Answers → ThreadArgs → World → Out (Unit {0}) → Type 0
EndsIn a args w out =
    (rest : List Recv) × (out
      ≡ halt (end_of a args) (closed_by args (record w { incoming = rest })))

end_request_lem :
    (a : Answers) (args : ThreadArgs) (w : World)
    → end_request a args w ≡ (end_of a args, closed_by args w)
unfolding end_request gopher_server_cross_plat.Windows.Serve.clean_request
end_request_lem a args w = elim (Bool-cases (args.configs.mode_concurrency == m_thread)) [
  | inl thread ↦ rw thread
  | inr process ↦ rw process
]

pub CleansUp-EndsIn :
    (a : Answers) (args : ThreadArgs) (w : World) (out : Out (Unit {0}))
    → CleansUp ⦃platform = windows a⦄ args w out
    → EndsIn a args w out
unfolding clean_request
CleansUp-EndsIn a args w out (rest, e) =
    (rest, e ∙ ap (λ r. halt r.0 r.1) (end_request_lem a args (record w { incoming = rest })))

-- A request line for a path that does not exist, or for the log file, is answered on Windows with
-- one error line that names the selector, in whatever non-empty pieces the line arrives; in thread
-- mode the client's socket is closed once more, in process mode it is left as it is. This takes
-- that the line with its newline and what follows has fewer than 2048 bytes, that the socket is
-- open, that the root is not empty, that allocations, prints and sends succeed and that the printed
-- port has at most ten characters.
pub handle_request-refused_line :
    (a : Answers) (os : Os) (globals : Globals) (args : ThreadArgs) (c : ℕ) (root : Bytes)
    (gs : List Bytes) (line : Bytes) (rest : List Recv) (w : World)
    → Works os
    → args.configs.root_dir ≡ c ∷ root
    → Asks gs line
    → w.closes ≡ 0
    → is_refused (
        file_type ⦃platform = windows a⦄ os globals.cwd
          (joined ⦃platform = windows a⦄ (c ∷ root) (c_string line)))
      ≡ true
    → length (print_int (port_of args)) ≤ 10
    → EndsIn a args
        (refused_world args (c_string line) w)
        (handle_request a os globals args (record w { incoming = pieces gs rest }))
unfolding handle_request
handle_request-refused_line a os globals args c root gs line rest w works e asks open_ refused
      room =
    CleansUp-EndsIn a args (refused_world args (c_string line) w) _ (
      refused_line ⦃platform = windows a⦄ os globals args c root gs line rest w works e asks open_
        refused room)

-- A request line for a directory is answered on Windows with a line for each visible entry, whose
-- type is that of its extension, or that of a directory for a path without a dot, in whatever
-- non-empty pieces the line arrives; in thread mode the client's socket is closed once more, in
-- process mode it is left as it is. This takes that the line with its newline and what follows has
-- fewer than 2048 bytes, that the socket is open, that the root is not empty, that allocations,
-- prints and sends succeed, that the directory opens and that the printed port has at most nine
-- characters.
pub handle_request-listed :
    (a : Answers) (os : Os) (globals : Globals) (args : ThreadArgs) (c : ℕ) (root : Bytes)
    (gs : List Bytes) (line : Bytes) (rest : List Recv) (w : World) (names : List Bytes)
    → Works os
    → args.configs.root_dir ≡ c ∷ root
    → Asks gs line
    → w.closes ≡ 0
    → file_type ⦃platform = windows a⦄ os globals.cwd
        (joined ⦃platform = windows a⦄ (c ∷ root) (c_string line))
      ≡ is_directory
    → os.readdir (joined ⦃platform = windows a⦄ (c ∷ root) (c_string line)) ≡ some names
    → length (print_int (port_of args)) ≤ 9
    → EndsIn a args
        (listed_world globals args get_gopher_code
          (joined ⦃platform = windows a⦄ (c ∷ root) (c_string line))
          names
          w)
        (handle_request a os globals args (record w { incoming = pieces gs rest }))
unfolding handle_request
handle_request-listed a os globals args c root gs line rest w names works e asks open_ kind opened
      room =
    CleansUp-EndsIn a args
      (listed_world globals args get_gopher_code
        (joined ⦃platform = windows a⦄ (c ∷ root) (c_string line)) names w)
      _
      (directory_line ⦃platform = windows a⦄ os globals args c root gs line rest w works e asks
        open_ get_gopher_code names _ kind refl opened (all_coded names) room)
  where
    all_coded :
        (ns : List Bytes)
        → All
            (Coded ⦃platform = windows a⦄ os get_gopher_code
              (joined ⦃platform = windows a⦄ (c ∷ root) (c_string line)))
            ns
    all_coded [] = tt
    all_coded (n ∷ ns) = ((λ visible. (refl, get_gopher_code-no_error _)), all_coded ns)
