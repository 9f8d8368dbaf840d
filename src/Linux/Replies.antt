-- ===== src/Linux/Replies.antt =====
-- What a client receives for its request, from the bytes that it sends to the end of the connection.
use gopher_server_cross_plat.Base.{
  ℕ, ◌≤◌, ◌<◌, ◌^◌, true, false, List, [], ◌∷◌, ◌++◌, some, ◌≡◌, ◌∙◌, Bytes, length, pos, All, take,
  if◌then◌else◌, is_negative,
}
use gopher_server_cross_plat.Outcome.{ok}
use gopher_server_cross_plat.World.{Os, Recv, World, halt, Out, done, >>=-done}
use gopher_server_cross_plat.Utils.{ThreadArgs, port_of}
use gopher_server_cross_plat.Cstring.{c_string}
use gopher_server_cross_plat.Cstring.Decimal.{print_int}
use gopher_server_cross_plat.Codes.{get_gopher_code}
use gopher_server_cross_plat.Protocol.{error_line}
use gopher_server_cross_plat.Protocol.Selector.{joined}
use gopher_server_cross_plat.Protocol.Listing.{listing, Coded}
use gopher_server_cross_plat.Request.{clean_request}
use gopher_server_cross_plat.Request.Chunks.{pieces}
use gopher_server_cross_plat.Files.{is_directory, is_reg_file, file_type}
use gopher_server_cross_plat.Handler.{Globals, handle_request, is_refused}
use gopher_server_cross_plat.Handler.Serving.{Works, Asks, CleansUp}
use gopher_server_cross_plat.Linux.{
  log_record, linux, end_of, serve_file, log_with, socket_pipe_log_server_single_process,
}
use gopher_server_cross_plat.Mapping.{linux_memory_mapping}
use gopher_server_cross_plat.Mapping.Serve.{linux_memory_mapping-serves}
use gopher_server_cross_plat.Handler.Answers.{refused_line, directory_line, served_line}

-- The worlds in which the requests below end, but for what is left to receive.
abbrev pub refused_end : ThreadArgs → Bytes → World → World
refused_end args selector w = record w {
  sent = w.sent ++ error_line selector (port_of args);
  closes = 1;
  type_request = 1;
}

abbrev pub listed_end : Globals → ThreadArgs → (Bytes → ℕ) → Bytes → List Bytes → World → World
listed_end globals args code path names w = record w {
  sent = w.sent ++ listing code path globals.ip_buffer (port_of args) names;
  closes = 1;
  type_request = 1;
}

abbrev pub file_end : ThreadArgs → Bytes → Bytes → Bytes → World → World
file_end args path content hostname w = record w {
  sent = w.sent ++ content;
  closes = 1;
  type_request = 0;
  log =
      w.log
      ++ take 4095 (log_record path (pos (length content)) args.ip_client hostname (port_of args))
        ∷ [];
}

-- The request ends in a world that is `w` but for what is left to receive.
abbrev pub EndsIn : ThreadArgs → World → Out (Unit {0}) → Type 0
EndsIn args w out = (rest : List Recv) × (out ≡ halt (end_of args) (record w { incoming = rest }))

-- An open descriptor is closed with a request of type 1.
pub CleansUp-EndsIn :
    (args : ThreadArgs) (w : World) (out : Out (Unit {0}))
    → w.closes ≡ 0
    → CleansUp args (record w { type_request = 1 }) out
    → EndsIn args (record w { closes = 1; type_request = 1 }) out
unfolding clean_request
CleansUp-EndsIn args w out open_ (rest, e) = (rest, e ∙ rw open_)

-- On Linux a request line for a path that does not exist, or for the log file, is answered with one error
-- line that names the selector, and the client's descriptor is closed once, in whatever non-empty
-- pieces the line arrives. This takes that the line with its newline and what follows has fewer
-- than 2048 bytes, that the descriptor is open, that the root is not empty, that allocations,
-- prints and sends succeed and that the printed port has at most ten characters.
pub handle_request-refused :
    (os : Os) (globals : Globals) (args : ThreadArgs) (c : ℕ) (root : Bytes) (gs : List Bytes)
    (line : Bytes) (rest : List Recv) (w : World)
    → Works os
    → args.configs.root_dir ≡ c ∷ root
    → Asks gs line
    → w.closes ≡ 0
    → is_refused (file_type os globals.cwd (joined (c ∷ root) (c_string line))) ≡ true
    → length (print_int (port_of args)) ≤ 10
    → EndsIn args
        (refused_end args (c_string line) w)
        (handle_request os globals args (record w { incoming = pieces gs rest }))
handle_request-refused os globals args c root gs line rest w works e asks open_ refused room =
    CleansUp-EndsIn args (record w { sent = w.sent ++ error_line (c_string line) (port_of args) }) _
      open_ (refused_line os globals args c root gs line rest w works e asks open_ refused room)

-- On Linux a request line for a directory is answered with the listing of the directory, and the client's
-- descriptor is closed once, in whatever non-empty pieces the line arrives. This takes that the
-- line with its newline and what follows has fewer than 2048 bytes, that the descriptor is open,
-- that the root is not empty, that allocations, prints and sends succeed, that the directory
-- opens, that it has an item type, and its visible entries have one that is not 3, and that the
-- printed port has at most nine characters.
pub handle_request-directory :
    (os : Os) (globals : Globals) (args : ThreadArgs) (c : ℕ) (root : Bytes) (gs : List Bytes)
    (line : Bytes) (rest : List Recv) (w : World) (code : Bytes → ℕ) (names : List Bytes) (n : ℕ)
    → Works os
    → args.configs.root_dir ≡ c ∷ root
    → Asks gs line
    → w.closes ≡ 0
    → file_type os globals.cwd (joined (c ∷ root) (c_string line)) ≡ is_directory
    → get_gopher_code os (joined (c ∷ root) (c_string line)) ≡ ok (pos n)
    → os.readdir (joined (c ∷ root) (c_string line)) ≡ some names
    → All (Coded os code (joined (c ∷ root) (c_string line))) names
    → length (print_int (port_of args)) ≤ 9
    → EndsIn args
        (listed_end globals args code (joined (c ∷ root) (c_string line)) names w)
        (handle_request os globals args (record w { incoming = pieces gs rest }))
handle_request-directory os globals args c root gs line rest w code names n works e asks open_ kind
      item opened coded room =
    let reply =
      listing code (joined (c ∷ root) (c_string line)) globals.ip_buffer (port_of args) names in
    CleansUp-EndsIn args (record w { sent = w.sent ++ reply }) _ open_
      (directory_line os globals args c root gs line rest w works e asks open_ code names n kind
        item opened coded room)

serve_file_lem :
    (os : Os) (args : ThreadArgs) (works : Works os) (path : Bytes) (w : World)
    (open_ : w.closes ≡ 0) (x : ℕ) (content hostname : Bytes)
    → os.thread_ok ≡ true
    → os.open_rw path ≡ true
    → os.fstat_size path ≡ some (length (x ∷ content))
    → os.mmap path ≡ some (x ∷ content)
    → length (x ∷ content) < 2 ^ 31
    → w.mutex_held ≡ false
    → w.file_locked ≡ false
    → args.configs.hostname ≡ some hostname
    → serve_file os args path (record w { type_request = 0 })
      ≡ done tt (record w {
        sent = w.sent ++ x ∷ content;
        closes = 1;
        type_request = 0;
        log =
            w.log
            ++ take 4095 (
                log_record path (pos (length (x ∷ content))) args.ip_client hostname (port_of args))
              ∷ [];
      })
unfolding serve_file socket_pipe_log_server_single_process log_with
serve_file_lem os args works path w open_ x content hostname thread opened size mapped bound free
      unlocked named =
    >>=-done (linux_memory_mapping os args.configs.mode_concurrency path)
      (λ n. if is_negative n then (λ u. done tt u) else log_with path n args args.configs.hostname)
      (record w { type_request = 0 }) _ (pos (length (x ∷ content)))
      (linux_memory_mapping-serves os args.configs.mode_concurrency path x content
        (record w { type_request = 0 }) works.sends thread opened size mapped bound open_ free
        unlocked)
    ∙ rw named

-- A request line for a regular file on Linux: the client receives the file's bytes and no others, its
-- descriptor is closed once, neither a lock nor a descriptor of the file is left, and one record
-- that names the path and the size, cut at 4095 bytes, goes to the log, in whatever non-empty
-- pieces the line arrives. This takes that the line with its newline and what follows has fewer
-- than 2048 bytes, that the descriptor is open and no lock is held, that the root is not empty,
-- that allocations, prints, sends and a new thread succeed, that the file has an item type, opens
-- and is mapped whole, that its size is not 0 and is below 2^31, and that the server's address is
-- set.
pub handle_request-file :
    (os : Os) (globals : Globals) (args : ThreadArgs) (c : ℕ) (root : Bytes) (gs : List Bytes)
    (line : Bytes) (rest : List Recv) (w : World) (x : ℕ) (content hostname : Bytes) (n : ℕ)
    → Works os
    → args.configs.root_dir ≡ c ∷ root
    → Asks gs line
    → w.closes ≡ 0
    → file_type os globals.cwd (joined (c ∷ root) (c_string line)) ≡ is_reg_file
    → get_gopher_code os (joined (c ∷ root) (c_string line)) ≡ ok (pos n)
    → os.thread_ok ≡ true
    → os.open_rw (joined (c ∷ root) (c_string line)) ≡ true
    → os.fstat_size (joined (c ∷ root) (c_string line)) ≡ some (length (x ∷ content))
    → os.mmap (joined (c ∷ root) (c_string line)) ≡ some (x ∷ content)
    → length (x ∷ content) < 2 ^ 31
    → w.mutex_held ≡ false
    → w.file_locked ≡ false
    → args.configs.hostname ≡ some hostname
    → EndsIn args
        (file_end args (joined (c ∷ root) (c_string line)) (x ∷ content) hostname w)
        (handle_request os globals args (record w { incoming = pieces gs rest }))
unfolding clean_request
handle_request-file os globals args c root gs line rest w x content hostname n works e asks open_
      kind item thread opened size mapped bound free unlocked named =
    served_line os globals args c root gs line rest w works e asks open_ n
      (file_end args (joined (c ∷ root) (c_string line)) (x ∷ content) hostname w) kind item
      (λ more.
        serve_file_lem os args works (joined (c ∷ root) (c_string line))
          (record w { incoming = more }) open_ x content hostname thread opened size mapped bound
          free unlocked named)
