-- ===== src/Windows/HandleRequest/Process/Files.antt =====
-- A file that the process for a connection serves, from the command line to the log.
use gopher_server_cross_plat.Base.{
  ℕ, ◌<◌, List, [], ◌∷◌, ◌++◌, ◌≡◌, refl, ◌∙◌, ap, Bool, true, false, Bytes, length, pos, Without,
}
use gopher_server_cross_plat.Outcome.{ok, exited, fault, >>=-returned}
use gopher_server_cross_plat.World.{Os, Recv, World, halt, done, Pipes}
use gopher_server_cross_plat.Utils.{Configs}
use gopher_server_cross_plat.Cstring.{c_string}
use gopher_server_cross_plat.Protocol.Selector.{joined}
use gopher_server_cross_plat.Request.Chunks.{pieces}
use gopher_server_cross_plat.Files.{is_reg_file, file_type}
use gopher_server_cross_plat.Handler.Serving.{Works, Asks}
use gopher_server_cross_plat.Handler.Answers.{served_line}
use gopher_server_cross_plat.Windows.Transfer.{before_unmap, pointer_size, windows_memory_mapping}
use gopher_server_cross_plat.Windows.Transfer.Turns.{windows_memory_mapping-Sends}
use gopher_server_cross_plat.Windows.Pipe.{
  LogAnswers, simple_text, message_of, message_size, main_log_process,
}
use gopher_server_cross_plat.Windows.Pipe.Records.{
  pipe_simple_write_to_pipe_record, main_log_process_record,
}
use gopher_server_cross_plat.Windows.Runner.{command_line}
use gopher_server_cross_plat.Windows.Serve.{serve_file, log_file}
use gopher_server_cross_plat.Windows.Serve.Logged.{logged_args, simple_text-Without}
use gopher_server_cross_plat.Windows.Handler.{
  Answers, windows, handle_request, serve_path, transfer_answers, kernel_of, after_file,
  end_request,
}
use gopher_server_cross_plat.Windows.Handler.Replies.{CleansUp-EndsIn}
use gopher_server_cross_plat.Windows.Handler.Files.{Maps, Logs}
use gopher_server_cross_plat.Windows.HandleRequest.{Offer}
use gopher_server_cross_plat.Windows.HandleRequest.CommandLine.{Splits}
use gopher_server_cross_plat.Windows.HandleRequest.Process.{after_request, process}
use gopher_server_cross_plat.Windows.HandleRequest.Process.Handed.{
  Grants, Sayable, handed_args, handed_globals, logging_world, process-command_line,
}

-- The pipe to the process's own log process, with one record in it.
abbrev pub recorded : ℕ → Bytes → World → Pipes
recorded handle text w = record (logging_world handle w).pipes {
  pipe = message_of text;
  event_set = true;
}

module _ (a : Answers) (os : Os) (l : LogAnswers) (ip : Bytes) (configs : Configs)
    (works : Works os) (logs : Logs a l) (early : a.turn ≡ before_unmap) (path text : Bytes)
    (maps : Maps a.transfer path text)
    (fits : length (simple_text (logged_args (handed_args ip configs) path (pos pointer_size)))
      < message_size) where
  serve_path-recorded :
      (w : World)
      → w.pipes.pipe ≡ []
      → serve_path a os (handed_args ip configs) path w
        ≡ done tt (record w {
          sent = w.sent ++ text;
          pipes = record w.pipes {
            pipe =
                message_of
                  (simple_text (logged_args (handed_args ip configs) path (pos pointer_size)));
            event_set = true;
          };
        })
  unfolding serve_path serve_file log_file
  serve_path-recorded w empty =
      let sends =
        windows_memory_mapping-Sends (transfer_answers a os) path text maps.behind maps.low
          maps.size maps.opens maps.sized maps.not_empty maps.mapping maps.viewed maps.no_nul
          maps.thread maps.unmapped maps.mapping_closed maps.file_closed works.sends before_unmap
          (kernel_of w) in
      let mapped : windows_memory_mapping (transfer_answers a os) a.turn path (kernel_of w)
          ≡ ok (pos pointer_size, record (kernel_of w) { sent = w.sent ++ text }) =
        rw early sends in
      ap (after_file w) (
        >>=-returned _ _ mapped
        ∙ >>=-returned _ _ (
            >>=-returned _ _ (
              pipe_simple_write_to_pipe_record os a.write
                (logged_args (handed_args ip configs) path (pos pointer_size)) w.pipes logs.writing
                (works.prints _) fits)))
      ∙ rw empty

-- With the C runtime's division of a command line as a parameter: the process that the accept loop starts for
-- a connection in process mode, when the client asks for a regular file and the thread that sends the file
-- runs before the view is unmapped. The client receives the file's bytes in front of its first NUL, the
-- process's own log process appends one record that names the path, with 8 for the size, and the process ends
-- as it frees its arguments, with the socket not closed, in whatever non-empty pieces the request line arrives.
-- The conditions: the command line is one that says the configuration (the port is below 2^31, the line fits
-- its 4096 bytes, the two addresses are words, the root can stand in quotes, it and the server's address fit
-- their arrays), the request line with its newline and what follows has fewer than 2048 bytes, the socket is
-- open, the root is not empty, allocations, prints and sends succeed, the system grants the process what it
-- asks for, the file is one that is mapped and the log can be written, the path and the client's address have
-- no NUL, and the record has at most 4095 bytes.
pub process-mapped :
    (split : Bytes → List Bytes) (a : Answers) (os : Os) (o : Offer) (l : LogAnswers)
    (ip before ip_buffer : Bytes) (configs : Configs) (dos_protection : Bool) (c : ℕ) (root : Bytes)
    (gs : List Bytes) (line text file : Bytes) (rest : List Recv) (w : World)
    → Splits split
    → Sayable ip ip_buffer configs dos_protection
    → Grants o
    → Works os
    → (logs : Logs a l) → a.turn ≡ before_unmap
    → configs.root_dir ≡ c ∷ root
    → Asks gs line
    → w.closes ≡ 0
    → file_type ⦃platform = windows a⦄ os []
        (joined ⦃platform = windows a⦄ (c ∷ root) (c_string line))
      ≡ is_reg_file
    → Maps a.transfer (joined ⦃platform = windows a⦄ (c ∷ root) (c_string line)) text
    → Without 0 (joined ⦃platform = windows a⦄ (c ∷ root) (c_string line))
    → Without 0 ip
    → length (
        simple_text (
          logged_args
            (handed_args ip configs)
            (joined ⦃platform = windows a⦄ (c ∷ root) (c_string line))
            (pos pointer_size)))
      < message_size
    → (q : Pipes) × (more : List Recv) × (process a os o before
          (split (command_line ip configs ip_buffer dos_protection))
          (record w { incoming = pieces gs rest })
        ≡ halt fault
            (record w { incoming = more; sent = w.sent ++ text; type_request = 0; pipes = q }))
      × (main_log_process l q.pipe file ≡ (
        exited (pos 0),
        [],
        file
            ++ simple_text (
                logged_args
                  (handed_args ip configs)
                  (joined ⦃platform = windows a⦄ (c ∷ root) (c_string line))
                  (pos pointer_size)),
      ))
unfolding handle_request end_request serve_path c_string file_type
process-mapped split a os o l ip before ip_buffer configs dos_protection c root gs line text file
      rest w splits says grants works logs early e asks open_ kind maps clean clean_ip fits =
    let alone : Answers = record a { allocated = false } in
    let path = joined ⦃platform = windows a⦄ (c ∷ root) (c_string line) in
    let record_text = simple_text (logged_args (handed_args ip configs) path (pos pointer_size)) in
    let u = logging_world logs.handle w in
    let v = record u {
      sent = w.sent ++ text;
      type_request = 0;
      pipes = recorded logs.handle record_text w;
    } in
    let (more, ends) = CleansUp-EndsIn alone (handed_args ip configs) v _ (
      served_line ⦃platform = windows alone⦄ os (handed_globals ip_buffer dos_protection)
        (handed_args ip configs) c root gs line rest u works e asks open_ _ v kind refl
        (λ more.
          serve_path-recorded alone os l ip configs works logs' early path text maps fits
            (record u { incoming = more; type_request = 0 }) refl)) in
    (
      recorded logs.handle record_text w,
      more,
      process-command_line split a os o logs.handle ip before ip_buffer configs dos_protection
            (record w { incoming = pieces gs rest }) splits says grants logs.running works.prints
            logs.created logs.small
          ∙ ap after_request ends,
      main_log_process_record l record_text file logs.granted
          (simple_text-Without (logged_args (handed_args ip configs) path (pos pointer_size)) clean
            clean_ip)
          fits,
    )
  where
    logs' : Logs (record a { allocated = false }) l
    logs' = record {
      handle = logs.handle;
      running = logs.running;
      writing = logs.writing;
      granted = logs.granted;
      created = logs.created;
      small = logs.small;
      mode = logs.mode;
    }
