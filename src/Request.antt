-- ===== src/Request.antt =====
-- general/lib/socket/socket.c: the end of a request, and the loops that read the request line from
-- the client's socket.
pub mod Lines
pub mod Chunks
pub mod Total
pub mod Keeps
pub mod Early
pub mod Second
use gopher_server_cross_plat.Base.{
  ℕ, zero, suc, ◌+◌, ◌-◌, ◌≤◌, ◌<◌, Bool, true, false, not, ◌&&◌, List, [], ◌∷◌, ◌++◌, Option, none,
  some, ◌≡◌, refl, arith, leb, ◌==◌, if◌then◌else◌, Bytes, length, take, drop, ℤ, pos, negsuc,
}
use gopher_server_cross_plat.Outcome.{Result, ok, stop, exited, thread_exit, blocked, no_fuel}
use gopher_server_cross_plat.World.{Os, Recv, got, interrupted, failed, World, M, Out, done, halt}
use gopher_server_cross_plat.Platform.{Platform}
use gopher_server_cross_plat.Utils.{ThreadArgs, buffer_size, m_thread, ut_get_line}

-- recv of at most `room` bytes. What does not fit stays in the socket.
pub data Received : Type 0 where
  bytes : Bytes → Received
  eintr error : Received

recv_from : ℕ → List Recv → M Received
recv_from room [] w = halt blocked w
recv_from room (interrupted ∷ rest) w = done eintr (record w { incoming = rest })
recv_from room (failed ∷ rest) w = done error (record w { incoming = rest })
recv_from room (got g ∷ rest) w =
    if leb (length g) room
    then done (bytes g) (record w { incoming = rest })
    else done (bytes (take room g)) (record w { incoming = got (drop room g) ∷ rest })

unfoldable pub recv : ℕ → M Received
unfolding recv_from
recv room w = recv_from room w.incoming w

-- Rounds that are enough for every loop over what the socket has: one for each answer and byte.
unfoldable pub rounds : List Recv → ℕ
rounds [] = 1
rounds (got g ∷ rest) = 1 + length g + rounds rest
rounds (_ ∷ rest) = 1 + rounds rest

-- Reads up to a newline or to the end of the stream. The stack buffer is used anew in each round.
unfoldable pub drain : ℕ → M ℤ
drain zero w = halt no_fuel w
drain (suc f) w = elim (recv buffer_size w) [
  | halt s w' ↦ halt s w'
  | done eintr w' ↦ drain f w'
  | done error w' ↦ done (negsuc 0) w'
  | done (bytes []) w' ↦ done (pos 0) w'
  | done (bytes (x ∷ g)) w' ↦ elim (ut_get_line (x ∷ g)) [
    | stop s ↦ halt s w'
    | ok (b, true) ↦ done (pos 0) w'
    | ok (b, false) ↦ drain f w'
  ]
]

unfoldable pub socket_drain_tcp : M ℤ
unfolding drain rounds
socket_drain_tcp w = drain (rounds w.incoming) w

-- The buffer is full: the rest of the line is read, unless the protection is on.
too_long : Bool → Bytes → M (ℤ × Bytes)
unfolding socket_drain_tcp
too_long dos_protection buf w =
    elim (if dos_protection
      then done (pos 0) (record w { type_request = 1 })
      else socket_drain_tcp (record w { type_request = 1 })) [
        | done _ w' ↦ done (negsuc 1, buf) w'
        | halt s w' ↦ halt s w'
      ]

module _ ⦃platform : Platform⦄ where
  -- The thread or the process ends.
  unfoldable pub clean_request : {A : Type 0} → ThreadArgs → M A
  clean_request args w = halt (platform.end_request args w).0 (platform.end_request args w).1

  -- `buf` holds the bytes of the buffer below `ptr`; all behind them are zero.
  unfoldable pub read_loop : ThreadArgs → Bool → ℕ → Bytes → M (ℤ × Bytes)
  unfolding too_long clean_request
  read_loop args dos_protection zero buf w = halt no_fuel w
  read_loop args dos_protection (suc f) buf w = elim (recv (buffer_size - length buf) w) [
    | halt s w' ↦ halt s w'
    | done eintr w' ↦ read_loop args dos_protection f buf w'
    | done error w' ↦ clean_request args w'
    | done (bytes []) w' ↦ if length buf == 0 then clean_request args w' else done (pos 0, buf) w'
    | done (bytes (x ∷ g)) w' ↦ elim (leb buffer_size (length (buf ++ x ∷ g))) [
      | true ↦ too_long dos_protection (buf ++ x ∷ g) w'
      | false ↦ elim (ut_get_line (buf ++ x ∷ g)) [
        | stop s ↦ halt s w'
        | ok (b, true) ↦ done (pos 0, b) w'
        | ok (b, false) ↦ read_loop args dos_protection f b w'
      ]
    ]
  ]

  -- The return code and the buffer.
  unfoldable pub socket_read_request : Os → ThreadArgs → Bool → M (ℤ × Bytes)
  unfolding read_loop rounds
  socket_read_request os args dos_protection w =
      if os.calloc_ok (buffer_size + 1)
      then read_loop args dos_protection (rounds w.incoming) [] w
      else clean_request args w
