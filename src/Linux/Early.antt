-- ===== src/Linux/Early.antt =====
-- Requests that end before they are read: one that is too long, and one of a client that leaves.
use gopher_server_cross_plat.Base.{
  ℕ, ◌+◌, ◌<◌, ◌≤◌, ◌^◌, true, List, ◌∷◌, ◌++◌, ◌≡◌, ◌∙◌, Bytes, length,
}
use gopher_server_cross_plat.World.{Os, Recv, got, World, halt, >>=-halt}
use gopher_server_cross_plat.Utils.{ThreadArgs, buffer_size, port_of}
use gopher_server_cross_plat.Linux.{linux, end_of}
use gopher_server_cross_plat.Linux.Replies.{EndsIn, CleansUp-EndsIn}
use gopher_server_cross_plat.Request.{clean_request, socket_read_request}
use gopher_server_cross_plat.Request.Early.{Gone, Gone-read}
use gopher_server_cross_plat.Handler.{Globals, answer, handle_request, too_long_line}
use gopher_server_cross_plat.Handler.Serving.{Works}
use gopher_server_cross_plat.Handler.TooLong.{long_line}

-- When the first bytes that arrive fill the buffer of 2048 and the protection against floods is
-- on, the client receives the line that says its request is too long, whatever the bytes are, and
-- its descriptor is closed once. This takes that the descriptor is open, that the root is not
-- empty, that allocations, prints and sends succeed and that the port is a 32-bit number; the
-- line then fits its buffer of 50 bytes.
pub handle_request-too_long :
    (os : Os) (globals : Globals) (args : ThreadArgs) (c : ℕ) (root : Bytes) (x : ℕ) (g : Bytes)
    (rest : List Recv) (w : World)
    → Works os
    → args.configs.root_dir ≡ c ∷ root
    → globals.dos_protection ≡ true
    → args.configs.port_number < 2 ^ 32
    → buffer_size ≤ length (x ∷ g)
    → w.closes ≡ 0
    → EndsIn args
        (record w { sent = w.sent ++ too_long_line (port_of args); closes = 1; type_request = 1 })
        (handle_request os globals args (record w { incoming = got (x ∷ g) ∷ rest }))
handle_request-too_long os globals args c root x g rest w works e dos port long open_ =
    CleansUp-EndsIn args (record w { sent = w.sent ++ too_long_line (port_of args) }) _ open_
      (long_line os globals args c root x g rest w works e dos port long open_)

-- When recv gives an error or the end of the stream before any byte, the buffer has been
-- allocated, and the request's type is still the 0 that it starts with, the request ends without
-- a reply and the client's descriptor is not closed.
pub handle_request-Gone :
    (os : Os) (globals : Globals) (args : ThreadArgs) (r : Recv) (rest : List Recv) (w : World)
    → Gone r
    → os.calloc_ok (buffer_size + 1) ≡ true
    → w.type_request ≡ 0
    → handle_request os globals args (record w { incoming = r ∷ rest })
      ≡ halt (end_of args) (record w { incoming = rest })
unfolding handle_request clean_request
handle_request-Gone os globals args r rest w gone room fresh =
    >>=-halt (socket_read_request os args globals.dos_protection) (answer os globals args) _ _ _
      (Gone-read os args globals.dos_protection r rest w gone room)
    ∙ rw fresh
