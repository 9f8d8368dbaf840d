-- ===== src/Handler/Answers.antt =====
-- The reply to a request line that is read whole, on any platform, up to the end of the request.
use gopher_server_cross_plat.Base.{
  ℕ, ◌≤◌, true, List, ◌∷◌, ◌++◌, some, ◌≡◌, refl, Bytes, length, pos, All,
}
use gopher_server_cross_plat.Outcome.{ok, Stop}
use gopher_server_cross_plat.World.{Os, Recv, World, done, halt}
use gopher_server_cross_plat.Utils.{ThreadArgs, port_of}
use gopher_server_cross_plat.Cstring.{c_string}
use gopher_server_cross_plat.Cstring.Decimal.{print_int}
use gopher_server_cross_plat.Protocol.{error_line}
use gopher_server_cross_plat.Protocol.Selector.{joined}
use gopher_server_cross_plat.Protocol.Listing.{listing, Coded}
use gopher_server_cross_plat.Request.Chunks.{pieces}
use gopher_server_cross_plat.Files.{is_directory, is_reg_file, file_type}
use gopher_server_cross_plat.Handler.{Globals, handle_request, is_refused, serve_kind}
use gopher_server_cross_plat.Handler.Serving.{
  Works, Asks, CleansUp, handle_line, manage_refused, manage_directory, manage_served, EndsBy,
  manage_stopped,
}
use gopher_server_cross_plat.Platform.{Platform}
use gopher_server_cross_plat.Request.{clean_request}

-- The worlds in which the requests below are cleaned up, but for what is left to receive.
abbrev pub refused_world : ThreadArgs → Bytes → World → World
refused_world args selector w = record w {
  sent = w.sent ++ error_line selector (port_of args);
  type_request = 1;
}

abbrev pub listed_world : Globals → ThreadArgs → (Bytes → ℕ) → Bytes → List Bytes → World → World
listed_world globals args code path names w = record w {
  sent = w.sent ++ listing code path globals.ip_buffer (port_of args) names;
  type_request = 1;
}

module _ ⦃platform : Platform⦄ (os : Os) (globals : Globals) (args : ThreadArgs) (c : ℕ)
    (root : Bytes) (gs : List Bytes) (line : Bytes) (rest : List Recv) (w : World)
    (works : Works os) (e : args.configs.root_dir ≡ c ∷ root) (asks : Asks gs line)
    (open_ : w.closes ≡ 0) where
  pub refused_line :
      is_refused (file_type os globals.cwd (joined (c ∷ root) (c_string line))) ≡ true
      → length (print_int (port_of args)) ≤ 10
      → CleansUp args
          (refused_world args (c_string line) w)
          (handle_request os globals args (record w { incoming = pieces gs rest }))
  refused_line refused room =
      handle_line os globals args c root gs line rest (clean_request args) w
        (refused_world args (c_string line) w) works e asks
        (λ more.
          manage_refused os globals args works (joined (c ∷ root) (c_string line)) (c_string line)
            (record w { incoming = more }) open_ refused room)

  pub directory_line :
      (code : Bytes → ℕ) (names : List Bytes) (n : ℕ)
      → file_type os globals.cwd (joined (c ∷ root) (c_string line)) ≡ is_directory
      → platform.get_gopher_code os (joined (c ∷ root) (c_string line)) ≡ ok (pos n)
      → os.readdir (joined (c ∷ root) (c_string line)) ≡ some names
      → All (Coded os code (joined (c ∷ root) (c_string line))) names
      → length (print_int (port_of args)) ≤ 9
      → CleansUp args
          (listed_world globals args code (joined (c ∷ root) (c_string line)) names w)
          (handle_request os globals args (record w { incoming = pieces gs rest }))
  directory_line code names n kind item opened coded room =
      handle_line os globals args c root gs line rest (clean_request args) w
        (listed_world globals args code (joined (c ∷ root) (c_string line)) names w) works e asks
        (λ more.
          manage_directory os globals args works (joined (c ∷ root) (c_string line)) (c_string line)
            (record w { incoming = more }) open_ code names n kind item opened coded room)

  -- A line whose file is served, by how the platform serves it.
  pub served_line :
      (n : ℕ) (v : World)
      → file_type os globals.cwd (joined (c ∷ root) (c_string line)) ≡ is_reg_file
      → platform.get_gopher_code os (joined (c ∷ root) (c_string line)) ≡ ok (pos n)
      → ((more : List Recv)
          → platform.serve_file os args
              (joined (c ∷ root) (c_string line))
              (record w { incoming = more; type_request = 0 })
            ≡ done tt (record v { incoming = more }))
      → CleansUp args v (handle_request os globals args (record w { incoming = pieces gs rest }))
  served_line n v kind item served =
      handle_line os globals args c root gs line rest (clean_request args) w v works e asks (λ more.
        manage_served os globals args works (joined (c ∷ root) (c_string line)) (c_string line)
          (record w { incoming = more }) open_ is_reg_file n (record v { incoming = more }) kind
          refl item (serve_kind_file more))
    where
      serve_kind_file :
          (more : List Recv)
          → serve_kind os globals args
              (joined (c ∷ root) (c_string line))
              is_reg_file
              (record w { incoming = more })
            ≡ done tt (record v { incoming = more })
      serve_kind_file more = unfold serve_kind in served more

  -- A line whose file is not served, as the platform stops there.
  pub stopped_line :
      (n : ℕ) (s : Stop) (v : World)
      → file_type os globals.cwd (joined (c ∷ root) (c_string line)) ≡ is_reg_file
      → platform.get_gopher_code os (joined (c ∷ root) (c_string line)) ≡ ok (pos n)
      → ((more : List Recv)
          → platform.serve_file os args
              (joined (c ∷ root) (c_string line))
              (record w { incoming = more; type_request = 0 })
            ≡ halt s (record v { incoming = more }))
      → EndsBy (halt s) v (handle_request os globals args (record w { incoming = pieces gs rest }))
  stopped_line n s v kind item stops =
      handle_line os globals args c root gs line rest (halt s) w v works e asks (λ more.
        manage_stopped os globals args works (joined (c ∷ root) (c_string line)) (c_string line)
          (record w { incoming = more }) open_ is_reg_file n s (record v { incoming = more }) kind
          refl item (serve_kind_stops more))
    where
      serve_kind_stops :
          (more : List Recv)
          → serve_kind os globals args
              (joined (c ∷ root) (c_string line))
              is_reg_file
              (record w { incoming = more })
            ≡ halt s (record v { incoming = more })
      serve_kind_stops more = unfold serve_kind in stops more
