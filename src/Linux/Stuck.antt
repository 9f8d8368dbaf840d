-- ===== src/Linux/Stuck.antt =====
-- A request for an empty file in thread mode, and what it does to the requests behind it.
use gopher_server_cross_plat.Base.{
  ℕ, ◌+◌, true, false, List, [], ◌∷◌, ◌++◌, some, ◌≡◌, refl, ◌∙◌, Bytes, pos, take, is_negative,
  if◌then◌else◌,
}
use gopher_server_cross_plat.Outcome.{ok, thread_exit, blocked}
use gopher_server_cross_plat.World.{Os, Recv, World, done, halt, >>=-done, >>=-halt}
use gopher_server_cross_plat.Utils.{ThreadArgs, m_thread, port_of}
use gopher_server_cross_plat.Cstring.{c_string}
use gopher_server_cross_plat.Codes.{get_gopher_code}
use gopher_server_cross_plat.Protocol.Selector.{joined}
use gopher_server_cross_plat.Request.{clean_request}
use gopher_server_cross_plat.Request.Chunks.{pieces}
use gopher_server_cross_plat.Files.{is_reg_file, file_type}
use gopher_server_cross_plat.Mapping.{linux_memory_mapping, lock_file}
use gopher_server_cross_plat.Handler.{Globals, handle_request}
use gopher_server_cross_plat.Handler.Serving.{Works, Asks, EndsBy}
use gopher_server_cross_plat.Handler.Answers.{served_line, stopped_line}
use gopher_server_cross_plat.Linux.{
  linux, log_record, serve_file, log_with, socket_pipe_log_server_single_process,
}

-- The next client of the process: what is not of one client stays as it is.
abbrev pub next_client : List Recv → World → World
next_client l w = record w { incoming = l; sent = []; closes = 0; type_request = 0 }

-- A client's request line for a regular file with an item type, which can be opened.
pub record AsksFile (os : Os) (globals : Globals) (args : ThreadArgs) (gs : List Bytes)
    : Type 0 where
  pub first : ℕ
  pub root : Bytes
  pub line : Bytes
  pub item : ℕ
  pub rooted : args.configs.root_dir ≡ first ∷ root
  pub asks : Asks gs line
  pub kind : file_type os globals.cwd (joined (first ∷ root) (c_string line)) ≡ is_reg_file
  pub coded : get_gopher_code os (joined (first ∷ root) (c_string line)) ≡ ok (pos item)
  pub opens : os.open_rw (joined (first ∷ root) (c_string line)) ≡ true

abbrev pub path_of :
    {os : Os} {globals : Globals} {args : ThreadArgs} {gs : List Bytes}
    → AsksFile os globals args gs
    → Bytes
path_of q = joined (q.first ∷ q.root) (c_string q.line)

mapping_empty :
    (os : Os) (mode : ℕ) (path : Bytes) (w : World)
    → mode ≡ m_thread
    → os.open_rw path ≡ true
    → os.fstat_size path ≡ some 0
    → w.mutex_held ≡ false
    → linux_memory_mapping os mode path w
      ≡ done (pos 0) (record w { files_open = w.files_open + 1; mutex_held = true })
unfolding linux_memory_mapping lock_file
mapping_empty os mode path w thread opens size free = rw (thread, opens, free, size)

mapping_stuck :
    (os : Os) (mode : ℕ) (path : Bytes) (w : World)
    → mode ≡ m_thread
    → os.open_rw path ≡ true
    → w.mutex_held ≡ true
    → linux_memory_mapping os mode path w
      ≡ halt blocked (record w { files_open = w.files_open + 1 })
unfolding linux_memory_mapping lock_file
mapping_stuck os mode path w thread opens held = rw (thread, opens, held)

serve_empty :
    (os : Os) (args : ThreadArgs) (path hostname : Bytes) (w : World)
    → args.configs.mode_concurrency ≡ m_thread
    → args.configs.hostname ≡ some hostname
    → os.open_rw path ≡ true
    → os.fstat_size path ≡ some 0
    → w.mutex_held ≡ false
    → serve_file os args path w
      ≡ done tt (record w {
        files_open = w.files_open + 1;
        mutex_held = true;
        log =
            w.log
            ++ take 4095 (log_record path (pos 0) args.ip_client hostname (port_of args)) ∷ [];
      })
unfolding serve_file socket_pipe_log_server_single_process log_with
serve_empty os args path hostname w thread named opens size free =
    >>=-done (linux_memory_mapping os args.configs.mode_concurrency path)
      (λ n. if is_negative n then (λ u. done tt u) else log_with path n args args.configs.hostname)
      w _ (pos 0) (mapping_empty os args.configs.mode_concurrency path w thread opens size free)
    ∙ rw named

serve_stuck :
    (os : Os) (args : ThreadArgs) (path : Bytes) (w : World)
    → args.configs.mode_concurrency ≡ m_thread
    → os.open_rw path ≡ true
    → w.mutex_held ≡ true
    → serve_file os args path w ≡ halt blocked (record w { files_open = w.files_open + 1 })
unfolding serve_file socket_pipe_log_server_single_process
serve_stuck os args path w thread opens held =
    >>=-halt (linux_memory_mapping os args.configs.mode_concurrency path)
      (λ n. if is_negative n then (λ u. done tt u) else log_with path n args args.configs.hostname)
      w _ blocked (mapping_stuck os args.configs.mode_concurrency path w thread opens held)

-- The world in which a request for an empty file ends, but for what is left to receive.
abbrev pub emptied : ThreadArgs → Bytes → Bytes → World → World
emptied args path hostname w = record w {
  type_request = 0;
  files_open = w.files_open + 1;
  mutex_held = true;
  log = w.log ++ take 4095 (log_record path (pos 0) args.ip_client hostname (port_of args)) ∷ [];
}

-- In thread mode, when allocations, prints and sends succeed, the server's address is set and the mutex is
-- free: the thread that is asked for an empty file ends having sent nothing, with its client's descriptor
-- and the file still open and the mutex still held; and then every thread that is asked for a regular file,
-- whatever it holds, waits for ever, and has sent nothing. The request lines arrive in non-empty pieces,
-- with fewer than 2048 bytes; the files have an item type and can be opened.
pub handle_request-stuck :
    (os : Os) (globals : Globals) (args args' : ThreadArgs) (gs gs' : List Bytes) (hostname : Bytes)
    (rest rest' : List Recv) (w : World)
    → Works os
    → args.configs.mode_concurrency ≡ m_thread
    → args'.configs.mode_concurrency ≡ m_thread
    → args.configs.hostname ≡ some hostname
    → (q : AsksFile os globals args gs) → os.fstat_size (path_of q) ≡ some 0
    → AsksFile os globals args' gs'
    → w.closes ≡ 0
    → w.mutex_held ≡ false
    → (u : World) × (handle_request os globals args (record w { incoming = pieces gs rest })
        ≡ halt thread_exit u)
      × (u.closes ≡ 0)
      × (u.sent ≡ w.sent)
      × (u.files_open ≡ w.files_open + 1)
      × EndsBy
          (halt blocked)
          (record u { sent = []; closes = 0; type_request = 0; files_open = u.files_open + 1 })
          (handle_request os globals args' (next_client (pieces gs' rest') u))
unfolding clean_request
handle_request-stuck os globals args args' gs gs' hostname rest rest' w works thread thread' named q
      size q' open_ free =
    let v = emptied args (path_of q) hostname w in
    let (more, e) =
      served_line os globals args q.first q.root gs q.line rest w works q.rooted q.asks open_ q.item
        v q.kind q.coded
        (λ more.
          serve_empty os args (path_of q) hostname (record w { incoming = more; type_request = 0 })
            thread named q.opens size free) in
    (
      record v { incoming = more },
      e ∙ rw thread,
      open_,
      refl,
      refl,
      stopped_line os globals args' q'.first q'.root gs' q'.line rest' (next_client [] v) works
          q'.rooted q'.asks refl q'.item blocked
          (record (next_client [] v) { files_open = v.files_open + 1 }) q'.kind q'.coded
          (λ more'. serve_stuck os args' (path_of q') (next_client more' v) thread' q'.opens refl),
    )
