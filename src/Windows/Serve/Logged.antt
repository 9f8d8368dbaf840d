-- ===== src/Windows/Serve/Logged.antt =====
-- What a served file leaves in the log.
use gopher_server_cross_plat.Base.{
  ℕ, ◌^◌, ◌<◌, true, some, ◌≡◌, ◌⊎◌, refl, ap, ◌∙◌, subst, Bytes, ℤ, pos, negsuc, length, ◌++◌, ◌∷◌,
  [], Without, Without-append, without_lem, of_u32, codes,
}
use gopher_server_cross_plat.Outcome.{ok, exited, >>=-returned}
use gopher_server_cross_plat.World.{Os}
use gopher_server_cross_plat.Utils.{ThreadArgs, m_thread}
use gopher_server_cross_plat.Cstring.Decimal.{print_int, print_int-Without_zero}
use gopher_server_cross_plat.Windows.Transfer.{Kernel, Turn, windows_memory_mapping, pointer_size}
use gopher_server_cross_plat.Windows.Transfer.Handles.{Balanced, windows_memory_mapping-Balanced}
use gopher_server_cross_plat.World.{Pipes}
use gopher_server_cross_plat.Windows.Pipe.{
  PipeArgs, LogAnswers, pipe_run_process, pipe_simple_write_to_pipe, simple_text, message_of,
  message_size, main_log_process, child_command,
}
use gopher_server_cross_plat.Windows.Pipe.Records.{
  Working, Granted, main_log_process_record, pipe_simple_write_to_pipe_record,
  pipe_run_process_pipe,
}
use gopher_server_cross_plat.Windows.Serve.{serve_file, log_file}

pub simple_text-Without :
    (args : PipeArgs)
    → Without 0 args.path
    → Without 0 args.ip_client
    → Without 0 (simple_text args)
unfolding simple_text
simple_text-Without args p i =
    let named : Bytes = codes "W -> FileName: " ++ args.path in
    let sized : Bytes = named ++ b'\t' ∷ print_int args.dim_file in
    let client : Bytes = sized ++ codes " KByte \t IP Client: " ++ args.ip_client in
    let whole : Bytes = client ++ codes "\t Port: " ++ print_int args.port in
    let sized-Without : Without 0 sized =
      Without-append 0 named (b'\t' ∷ print_int args.dim_file)
        (Without-append 0 (codes "W -> FileName: ") args.path
          (without_lem 0 (codes "W -> FileName: ") refl) p)
        (refl, print_int-Without_zero args.dim_file) in
    let client-Without : Without 0 client =
      Without-append 0 (sized ++ codes " KByte \t IP Client: ") args.ip_client
        (Without-append 0 sized (codes " KByte \t IP Client: ") sized-Without
          (without_lem 0 (codes " KByte \t IP Client: ") refl))
        i in
    Without-append 0 whole (codes " \n")
      (Without-append 0 (client ++ codes "\t Port: ") (print_int args.port)
        (Without-append 0 client (codes "\t Port: ") client-Without
          (without_lem 0 (codes "\t Port: ") refl))
        (print_int-Without_zero args.port))
      (without_lem 0 (codes " \n") refl)

-- The record of a file that a thread has served.
abbrev pub logged_args : ThreadArgs → Bytes → ℤ → PipeArgs
logged_args args path size = record {
  ip_client = args.ip_client;
  dim_file = size;
  path = path;
  port = of_u32 args.configs.port_number;
}

module _ (os : Os) (a : gopher_server_cross_plat.Windows.Transfer.Answers)
    (run write : gopher_server_cross_plat.Windows.Pipe.Answers) (l : LogAnswers)
    (printed : (text : Bytes) → os.sprintf_ok text ≡ true) (running : Working run)
    (writing : Working write) (granted : Granted l) where
  log_file_record :
      (handle global_mode : ℕ) (args : PipeArgs) (p : Pipes) (file : Bytes)
      → run.create_pipe ≡ some handle
      → handle < 2 ^ 64
      → global_mode < 128
      → Without 0 (simple_text args)
      → length (simple_text args) < message_size
      → (q : Pipes) × (log_file os run write global_mode m_thread args p ≡ ok q)
        × (main_log_process l q.pipe file ≡ (exited (pos 0), [], file ++ simple_text args))
  unfolding log_file
  log_file_record handle global_mode args p file h small mode clean fits =
      let started : Pipes = record p {
        pipe_read = handle;
        pipe = [];
        commands = p.commands ++ child_command handle global_mode ∷ [];
      } in
      (
        record started { pipe = message_of (simple_text args); event_set = true },
        >>=-returned _ _
              (pipe_run_process_pipe os run handle global_mode p running printed h small mode)
            ∙ >>=-returned _ _ (
                pipe_simple_write_to_pipe_record os write args started writing
                  (printed (simple_text args)) fits),
        main_log_process_record l (simple_text args) file granted clean fits,
      )

  -- A file that a thread has served, once its transfer has returned, stands in the log as one
  -- record, appended by the log process that was started for it; and the record's size is -1 or 8,
  -- whatever the size of the file. The conditions: the handles and the view of the transfer can be
  -- closed, the system grants the calls of the log, the handle of the pipe fits 64 bits and the
  -- mode a char, the path and the client's address have no NUL, and the record has at most 4095
  -- bytes.
  pub serve_file-logged :
      (turn : Turn) (handle global_mode : ℕ) (args : ThreadArgs) (path file : Bytes) (code : ℤ)
      (k k' : Kernel) (p : Pipes)
      → a.unmaps ≡ true
      → a.closes_mapping ≡ true
      → a.closes_file ≡ true
      → windows_memory_mapping a turn path k ≡ ok (code, k')
      → args.configs.mode_concurrency ≡ m_thread
      → run.create_pipe ≡ some handle
      → handle < 2 ^ 64
      → global_mode < 128
      → Without 0 path
      → Without 0 args.ip_client
      → length (simple_text (logged_args args path code)) < message_size
      → ((code ≡ negsuc 0) ⊎ (code ≡ pos pointer_size))
        × (q : Pipes) × (serve_file os a turn run write global_mode args path k p ≡ ok (k', q))
        × (main_log_process l q.pipe file
            ≡ (exited (pos 0), [], file ++ simple_text (logged_args args path code)))
  unfolding serve_file
  serve_file-logged turn handle global_mode args path file code k k' p unmapped mapping_closed
        file_closed sent thread created small mode clean clean_ip fits =
      let (q, logs, appended) =
        log_file_record handle global_mode (logged_args args path code) p file created small mode
          (simple_text-Without (logged_args args path code) clean clean_ip) fits in
      (
        (subst (Balanced k) sent
            (windows_memory_mapping-Balanced a unmapped mapping_closed file_closed turn path k)).0,
        q,
        >>=-returned _ _ sent
            ∙ >>=-returned _ _ (
                ap (λ m. log_file os run write global_mode m (logged_args args path code) p) thread
                ∙ logs),
        appended,
      )
