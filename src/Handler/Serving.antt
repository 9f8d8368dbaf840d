-- ===== src/Handler/Serving.antt =====
-- The steps from a request line to the reply, each where no call fails.
use gopher_server_cross_plat.Base.{
  ℕ, ◌+◌, ◌≤◌, ◌<◌, true, false, List, [], ◌∷◌, ◌++◌, some, ◌≡◌, refl, ◌∙◌, arith, Bytes, length,
  pos, codes, Without, All, concat_all, leb,
}
use gopher_server_cross_plat.Outcome.{Stop, ok}
use gopher_server_cross_plat.World.{Os, Recv, World, M, Out, done, halt, ◌>>=◌, >>=-done, >>=-halt}
use gopher_server_cross_plat.Utils.{ThreadArgs, buffer_size, port_of}
use gopher_server_cross_plat.Cstring.{c_string}
use gopher_server_cross_plat.Cstring.Decimal.{print_int}
use gopher_server_cross_plat.Send.{SendsAll, socket_send_message, socket_send_message_all}
use gopher_server_cross_plat.Protocol.{error_line, print_directory}
use gopher_server_cross_plat.Protocol.Selector.{
  joined, AllocatesAll, PrintsAll, resolve_selector_lem,
}
use gopher_server_cross_plat.Protocol.Response.{protocol_response_lem}
use gopher_server_cross_plat.Protocol.Listing.{listing, Coded, print_directory-listing}
use gopher_server_cross_plat.Request.{clean_request, socket_read_request}
use gopher_server_cross_plat.Request.Chunks.{pieces, NonEmpty, socket_read_request-pieces}
use gopher_server_cross_plat.Files.{FileType, is_directory, file_type}
use gopher_server_cross_plat.Handler.{
  Globals, resolved, socket_resolve_selector, send_reply, socket_send_error_to_client,
  serve_directory, serve_kind, serve_coded, serve_type, socket_manage_files, answer, handle_request,
  is_refused,
}
use gopher_server_cross_plat.Platform.{Platform}

-- Allocations, prints and sends succeed.
pub record Works (os : Os) : Type 0 where
  pub allocates : AllocatesAll os
  pub prints : PrintsAll os
  pub sends : SendsAll os

-- The bytes of `line`, one more and a newline, and perhaps more, in pieces that are not empty.
pub record Asks (gs : List Bytes) (line : Bytes) : Type 0 where
  pub before_newline : ℕ
  pub post : Bytes
  pub non_empty : All NonEmpty gs
  pub no_newline : Without b'\n' (line ++ before_newline ∷ [])
  pub whole : concat_all gs ≡ line ++ before_newline ∷ b'\n' ∷ post
  pub short : length (line ++ before_newline ∷ b'\n' ∷ post) < buffer_size

-- What follows is the last part of the request, in a world that is `w` but for what is left to receive.
abbrev pub EndsBy : M (Unit {0}) → World → Out (Unit {0}) → Type 0
EndsBy last w out = (rest : List Recv) × (out ≡ last (record w { incoming = rest }))

module _ ⦃platform : Platform⦄ where
  -- The request is cleaned up in a world that is `w` but for what is left to receive.
  abbrev pub CleansUp : ThreadArgs → World → Out (Unit {0}) → Type 0
  CleansUp args w out = EndsBy (clean_request args) w out

  pub socket_resolve_selector_lem :
      (os : Os) (args : ThreadArgs) (c : ℕ) (root selector : Bytes) (w : World)
      → Works os
      → args.configs.root_dir ≡ c ∷ root
      → socket_resolve_selector os args selector w ≡ done (joined (c ∷ root) selector) w
  unfolding socket_resolve_selector resolved
  socket_resolve_selector_lem os args c root selector w works e =
      rw (e, resolve_selector_lem os c root selector, works.allocates, works.prints)

  pub read_then_answer :
      (os : Os) (globals : Globals) (args : ThreadArgs) (gs : List Bytes) (line : Bytes)
      (rest : List Recv) (last : M (Unit {0})) (w v : World)
      → Works os
      → Asks gs line
      → ((b : Bytes) (more : List Recv)
          → c_string b ≡ c_string line
          → answer os globals args (pos 0, b) (record w { incoming = more })
            ≡ last (record v { incoming = more }))
      → EndsBy last v (handle_request os globals args (record w { incoming = pieces gs rest }))
  unfolding handle_request
  read_then_answer os globals args gs line rest last w v works asks next =
      let (b, more, read, text) =
        socket_read_request-pieces os args globals.dos_protection gs line asks.post
          asks.before_newline rest w (works.allocates (buffer_size + 1)) asks.non_empty
          asks.no_newline asks.whole asks.short in
      (
        more,
        >>=-done (socket_read_request os args globals.dos_protection) (answer os globals args) _ _
              (pos 0, b) read
            ∙ next b more text,
      )

  send_reply_lem :
      (os : Os) (args : ThreadArgs) (m : Bytes) (w : World)
      → Works os
      → w.closes ≡ 0
      → send_reply os args (pos 0, some m) w ≡ clean_request args (record w { sent = w.sent ++ m })
  unfolding send_reply
  send_reply_lem os args m w works open_ =
      >>=-done (socket_send_message os m) (λ _. clean_request args) w
        (record w { sent = w.sent ++ m }) (pos 0) (socket_send_message_all os m w works.sends open_)

  pub answer_lem :
      (os : Os) (globals : Globals) (args : ThreadArgs) (c : ℕ) (root b line : Bytes) (w : World)
      → Works os
      → args.configs.root_dir ≡ c ∷ root
      → c_string b ≡ c_string line
      → answer os globals args (pos 0, b) w
        ≡ (socket_manage_files os globals args (joined (c ∷ root) (c_string line)) (c_string line)
              >>= λ _. clean_request args)
            w
  unfolding answer
  answer_lem os globals args c root b line w works e text =
      >>=-done (socket_resolve_selector os args (c_string b))
        (λ path. socket_manage_files os globals args path (c_string b) >>= λ _. clean_request args)
        w w (joined (c ∷ root) (c_string b))
        (socket_resolve_selector_lem os args c root (c_string b) w works e)
      ∙ rw text

  -- What the handler does with a path.
  abbrev pub managed_at : Os → Globals → ThreadArgs → Bytes → Bytes → M (Unit {0})
  managed_at os globals args path selector =
      socket_manage_files os globals args path selector >>= λ _. clean_request args

  module _ (os : Os) (globals : Globals) (args : ThreadArgs) (works : Works os)
      (path selector : Bytes) (w : World) (open_ : w.closes ≡ 0) where
    pub manage_refused :
        is_refused (file_type os globals.cwd path) ≡ true
        → length (print_int (port_of args)) ≤ 10
        → managed_at os globals args path selector w
          ≡ clean_request args
              (record w { sent = w.sent ++ error_line selector (port_of args); type_request = 1 })
    unfolding clean_request socket_manage_files serve_type socket_send_error_to_client
    manage_refused refused room =
        let fits : leb (length (print_int (port_of args))) 10 ≡ true = ground arith in
        rw
          (
            refused,
            protocol_response_lem os (pos b'3') selector path (codes "localhost") (port_of args)
                works.allocates works.prints refl,
            fits,
          )
          (>>=-halt (send_reply os args (pos 0, some (error_line selector (port_of args))))
            (λ _. clean_request args) (record w { type_request = 1 }) _ _
            (send_reply_lem os args (error_line selector (port_of args))
              (record w { type_request = 1 }) works open_))

    serve_directory_lem :
        (code : Bytes → ℕ) (names : List Bytes)
        → os.readdir path ≡ some names
        → All (Coded os code path) names
        → length (print_int (port_of args)) ≤ 9
        → serve_kind os globals args path is_directory w
          ≡ done tt (record w {
            sent = w.sent ++ listing code path globals.ip_buffer (port_of args) names;
            type_request = 1;
          })
    unfolding serve_kind serve_directory
    serve_directory_lem code names opened coded room =
        >>=-done (print_directory os path globals.ip_buffer (port_of args)) (λ _ v. done tt v)
          (record w { type_request = 1 }) _ _
          (print_directory-listing os code path globals.ip_buffer (port_of args) names
            (record w { type_request = 1 }) works.allocates works.prints works.sends room opened
            coded open_)

    -- A path with an item type, of a kind that is served.
    pub manage_served :
        (kind : FileType) (n : ℕ) (v : World)
        → file_type os globals.cwd path ≡ kind
        → is_refused kind ≡ false
        → platform.get_gopher_code os path ≡ ok (pos n)
        → serve_kind os globals args path kind w ≡ done tt v
        → managed_at os globals args path selector w ≡ clean_request args v
    unfolding socket_manage_files serve_type serve_coded
    manage_served kind n v kinds admitted item served =
        rw (kinds, admitted, item)
          (>>=-done (serve_kind os globals args path kind) (λ _. clean_request args) w v tt served)

    -- The same, where serving it stops.
    pub manage_stopped :
        (kind : FileType) (n : ℕ) (s : Stop) (v : World)
        → file_type os globals.cwd path ≡ kind
        → is_refused kind ≡ false
        → platform.get_gopher_code os path ≡ ok (pos n)
        → serve_kind os globals args path kind w ≡ halt s v
        → managed_at os globals args path selector w ≡ halt s v
    unfolding socket_manage_files serve_type serve_coded
    manage_stopped kind n s v kinds admitted item served =
        rw (kinds, admitted, item)
          (>>=-halt (serve_kind os globals args path kind) (λ _. clean_request args) w v s served)

    pub manage_directory :
        (code : Bytes → ℕ) (names : List Bytes) (n : ℕ)
        → file_type os globals.cwd path ≡ is_directory
        → platform.get_gopher_code os path ≡ ok (pos n)
        → os.readdir path ≡ some names
        → All (Coded os code path) names
        → length (print_int (port_of args)) ≤ 9
        → managed_at os globals args path selector w
          ≡ clean_request args (record w {
            sent = w.sent ++ listing code path globals.ip_buffer (port_of args) names;
            type_request = 1;
          })
    manage_directory code names n kind item opened coded room =
        manage_served is_directory n
          (record w {
            sent = w.sent ++ listing code path globals.ip_buffer (port_of args) names;
            type_request = 1;
          })
          kind refl item (serve_directory_lem code names opened coded room)

  -- The bytes of a request line resolve to a path of the root; what is served there decides.
  pub handle_line :
      (os : Os) (globals : Globals) (args : ThreadArgs) (c : ℕ) (root : Bytes) (gs : List Bytes)
      (line : Bytes) (rest : List Recv) (last : M (Unit {0})) (w v : World)
      → Works os
      → args.configs.root_dir ≡ c ∷ root
      → Asks gs line
      → ((more : List Recv)
          → managed_at os globals args
              (joined (c ∷ root) (c_string line))
              (c_string line)
              (record w { incoming = more })
            ≡ last (record v { incoming = more }))
      → EndsBy last v (handle_request os globals args (record w { incoming = pieces gs rest }))
  handle_line os globals args c root gs line rest last w v works e asks next =
      read_then_answer os globals args gs line rest last w v works asks (λ b more text.
        answer_lem os globals args c root b line (record w { incoming = more }) works e text
        ∙ next more)
