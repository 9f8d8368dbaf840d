-- ===== src/Send.antt =====
-- The calls that write: sprintf into an allocated buffer, and send on the client's socket
-- (general/lib/socket/socket.c `socket_send_message`).
use gopher_server_cross_plat.Base.{
  ℕ, ◌+◌, not, ◌++◌, Option, none, some, ◌≡◌, arith, leb, ◌==◌, if◌then◌else◌, Bytes, length, take,
  take-all, ℤ, pos, negsuc,
}
use gopher_server_cross_plat.Outcome.{Result, ok, stop, fault}
use gopher_server_cross_plat.World.{Os, World, M, done, halt, final, Keeps}

-- sprintf of `text` into `size` bytes, the terminator included.
unfoldable pub sprintf_into : Os → ℕ → Bytes → Result ℤ
sprintf_into os size text =
    if not (os.sprintf_ok text)
    then ok (negsuc 0)
    else if leb (length text + 1) size
    then ok (pos (length text))
    else stop fault

-- send on the client's descriptor; on a closed one it fails.
send_bytes : Os → Bytes → World → Option ℕ
send_bytes os m w = if w.closes == 0 then os.send w.sent m else none

send_result : Option ℕ → Bytes → M ℤ
send_result none m w = done (negsuc 0) w
send_result (some n) m w = done (pos n) (record w { sent = w.sent ++ take n m })

unfoldable pub send : Os → Bytes → M ℤ
unfolding send_bytes send_result
send os m w = send_result (send_bytes os m w) m w

-- A short count is no failure here.
message_result : ℤ → ℤ
message_result (pos n) = pos 0
message_result (negsuc n) = negsuc n

unfoldable pub socket_send_message : Os → Bytes → M ℤ
unfolding send message_result
socket_send_message os m w = elim (send os m w) [
  | done r w' ↦ done (message_result r) w'
  | halt s w' ↦ halt s w'
]

-- The socket takes every message whole.
abbrev pub SendsAll : Os → Type 0
SendsAll os = (s m : Bytes) → os.send s m ≡ some (length m)

pub socket_send_message_all :
    (os : Os) (m : Bytes) (w : World)
    → SendsAll os
    → w.closes ≡ 0
    → socket_send_message os m w ≡ done (pos 0) (record w { sent = w.sent ++ m })
unfolding socket_send_message
socket_send_message_all os m w all open_ = ground (arith, all w.sent m, take-all (length m) m)

pub socket_send_message-Keeps :
    (os : Os) (m : Bytes) (w : World) → Keeps w (final (socket_send_message os m w))
unfolding socket_send_message
socket_send_message-Keeps os m w = ground arith
