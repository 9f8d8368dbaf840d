-- ===== src/Windows/Handler/Files.antt =====
-- A file that a thread serves on Windows, from the request line to the log.
use gopher_server_cross_plat.Base.{
  ℕ, ◌<◌, ◌^◌, true, List, [], ◌∷◌, ◌++◌, some, ◌≡◌, refl, Bytes, length, pos, Without, of_u32, suc,
  ap,
}
use gopher_server_cross_plat.Outcome.{ok, exited}
use gopher_server_cross_plat.World.{Os, Recv, World, Pipes}
use gopher_server_cross_plat.Utils.{ThreadArgs, m_thread}
use gopher_server_cross_plat.Cstring.{c_string}
use gopher_server_cross_plat.Protocol.Selector.{joined}
use gopher_server_cross_plat.Request.Chunks.{pieces}
use gopher_server_cross_plat.Files.{is_reg_file, file_type}
use gopher_server_cross_plat.Handler.{Globals}
use gopher_server_cross_plat.Handler.Serving.{Works, Asks}
use gopher_server_cross_plat.Handler.Answers.{served_line}
use gopher_server_cross_plat.Windows.Transfer.{Kernel, before_unmap, pointer_size}
use gopher_server_cross_plat.Windows.Serve.{serve_file}
use gopher_server_cross_plat.Windows.Transfer
use gopher_server_cross_plat.Windows.Transfer.Turns.{windows_memory_mapping-Sends}
use gopher_server_cross_plat.Windows.Pipe.{LogAnswers, simple_text, message_size, main_log_process}
use gopher_server_cross_plat.Windows.Pipe.Records.{Working, Granted}
use gopher_server_cross_plat.Windows.Serve.Logged.{serve_file-logged, logged_args}
use gopher_server_cross_plat.Windows.Handler.{
  Answers, windows, handle_request, serve_path, transfer_answers, kernel_of, after_file,
}
use gopher_server_cross_plat.Windows.Handler.Replies.{EndsIn, CleansUp-EndsIn}

-- A file that can be opened, sized, mapped and closed, with `text` in front of its first NUL.
pub record Maps (t : gopher_server_cross_plat.Windows.Transfer.Answers) (path text : Bytes)
    : Type 0 where
  pub behind : Bytes
  pub low : ℕ
  pub size : ℕ
  pub opens : t.create_file path ≡ true
  pub sized : t.attributes path ≡ some (0, low)
  pub not_empty : of_u32 low ≡ pos (suc size)
  pub mapping : t.create_mapping path ≡ true
  pub viewed : t.map_view path ≡ some (text ++ 0 ∷ behind)
  pub no_nul : Without 0 text
  pub thread : t.create_thread ≡ true
  pub unmapped : t.unmaps ≡ true
  pub mapping_closed : t.closes_mapping ≡ true
  pub file_closed : t.closes_file ≡ true

-- What the log needs: the calls of the pipe and of the log process succeed, the handle fits 64 bits and the
-- mode a char.
pub record Logs (a : Answers) (l : LogAnswers) : Type 0 where
  pub handle : ℕ
  pub running : Working a.run
  pub writing : Working a.write
  pub granted : Granted l
  pub created : a.run.create_pipe ≡ some handle
  pub small : handle < 2 ^ 64
  pub mode : a.global_mode < 128

abbrev pub file_world : Bytes → Pipes → World → World
file_world text q w = record w { sent = w.sent ++ text; type_request = 0; pipes = q }

module _ (a : Answers) (os : Os) (l : LogAnswers) (args : ThreadArgs) (works : Works os)
    (logs : Logs a l) (thread : args.configs.mode_concurrency ≡ m_thread)
    (early : a.turn ≡ before_unmap) (path text file : Bytes) (maps : Maps a.transfer path text)
    (clean : Without 0 path) (clean_ip : Without 0 args.ip_client)
    (fits : length (simple_text (logged_args args path (pos pointer_size))) < message_size) where
  served_file :
      (k : Kernel) (p : Pipes)
      → (q : Pipes) × (serve_file os
            (transfer_answers a os)
            a.turn
            a.run
            a.write
            a.global_mode
            args
            path
            k
            p
          ≡ ok (record k { sent = k.sent ++ text }, q))
        × (main_log_process l q.pipe file
            ≡ (exited (pos 0), [], file ++ simple_text (logged_args args path (pos pointer_size))))
  served_file k p =
      let sends =
        windows_memory_mapping-Sends (transfer_answers a os) path text maps.behind maps.low
          maps.size maps.opens maps.sized maps.not_empty maps.mapping maps.viewed maps.no_nul
          maps.thread maps.unmapped maps.mapping_closed maps.file_closed works.sends before_unmap
          k in
      let (known, q, served, appended) =
        serve_file-logged os (transfer_answers a os) a.run a.write l works.prints logs.running
          logs.writing logs.granted before_unmap logs.handle a.global_mode args path file
          (pos pointer_size) k (record k { sent = k.sent ++ text }) p maps.unmapped
          maps.mapping_closed maps.file_closed sends thread logs.created logs.small logs.mode clean
          clean_ip fits in
      (q, rw early served, appended)

-- A request line for a regular file, in thread mode on Windows, when the thread that sends the file runs
-- before the view is unmapped: the client receives the file's bytes in front of its first NUL, its socket is
-- closed once, and what the handler has written to the pipe makes the log process append one record that
-- names the path, with 8 for the size, in whatever non-empty pieces the line arrives. This takes that the
-- line with its newline and what follows has fewer than 2048 bytes, that the socket is open, that the root
-- is not empty, that allocations, prints and sends succeed, that the file is one that is mapped and the log
-- can be written, that the path and the client's address have no NUL and that the record has at most 4095
-- bytes.
pub handle_request-mapped :
    (a : Answers) (os : Os) (l : LogAnswers) (globals : Globals) (args : ThreadArgs) (c : ℕ)
    (root : Bytes) (gs : List Bytes) (line text file : Bytes) (rest : List Recv) (w : World)
    → Works os
    → Logs a l
    → args.configs.mode_concurrency ≡ m_thread
    → a.turn ≡ before_unmap
    → args.configs.root_dir ≡ c ∷ root
    → Asks gs line
    → w.closes ≡ 0
    → file_type ⦃platform = windows a⦄ os globals.cwd
        (joined ⦃platform = windows a⦄ (c ∷ root) (c_string line))
      ≡ is_reg_file
    → Maps a.transfer (joined ⦃platform = windows a⦄ (c ∷ root) (c_string line)) text
    → Without 0 (joined ⦃platform = windows a⦄ (c ∷ root) (c_string line))
    → Without 0 args.ip_client
    → length (
        simple_text (
          logged_args args
            (joined ⦃platform = windows a⦄ (c ∷ root) (c_string line))
            (pos pointer_size)))
      < message_size
    → (q : Pipes) × EndsIn a args
        (file_world text q w)
        (handle_request a os globals args (record w { incoming = pieces gs rest }))
      × (main_log_process l q.pipe file ≡ (
        exited (pos 0),
        [],
        file
            ++ simple_text (
                logged_args args
                  (joined ⦃platform = windows a⦄ (c ∷ root) (c_string line))
                  (pos pointer_size)),
      ))
unfolding handle_request serve_path
handle_request-mapped a os l globals args c root gs line text file rest w works logs thread early e
      asks open_ kind maps clean clean_ip fits =
    let (q, served, appended) =
      served_file a os l args works logs thread early
        (joined ⦃platform = windows a⦄ (c ∷ root) (c_string line)) text file maps clean clean_ip
        fits (kernel_of w) w.pipes in
    (
      q,
      CleansUp-EndsIn a args (file_world text q w) _ (
          served_line ⦃platform = windows a⦄ os globals args c root gs line rest w works e asks
            open_ _ (file_world text q w) kind refl
            (λ more. ap (after_file (record w { incoming = more; type_request = 0 })) served)),
      appended,
    )
