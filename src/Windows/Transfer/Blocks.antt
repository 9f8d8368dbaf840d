-- ===== src/Windows/Transfer/Blocks.antt =====
-- windows/lib/socket/windows_socket.c `w_sendFile`: the file in blocks of 512 bytes.
use gopher_server_cross_plat.Base.{
  ℕ, ◌≤◌, ◌∷◌, ◌++◌, Option, none, some, ◌≡◌, ap, ◌∙◌, Bytes, length, take, Without,
}
use gopher_server_cross_plat.Outcome.{Result, ok, stop, fault}
use gopher_server_cross_plat.Cstring.{strlen, strlen-append, take-prefix}
use gopher_server_cross_plat.Mapping.{send_blocks}
use gopher_server_cross_plat.Mapping.Chunked.{TakesSome, send_blocks_all}
use gopher_server_cross_plat.Windows.Transfer.{Answers, Kernel}

abbrev send_length : Answers → ℕ → Bytes → Option ℕ → Kernel → Result Kernel
send_length a f view none k = stop fault
send_length a f view (some n) k = ok (record k { sent = send_blocks a.send f k.sent (take n view) })

-- The loop is that of `l_sendFile`; the fuel counts its calls of send.
unfoldable pub w_send_file : Answers → ℕ → Bytes → Kernel → Result Kernel
unfolding strlen send_blocks
w_send_file a f view k = send_length a f view (strlen view) k

-- If every call of send takes at least one byte, as many calls as the text in front of the first NUL has
-- bytes deliver that text.
pub w_send_file-text :
    (a : Answers) (f : ℕ) (text rest : Bytes) (k : Kernel)
    → Without 0 text
    → TakesSome a.send
    → length text ≤ f
    → w_send_file a f (text ++ 0 ∷ rest) k ≡ ok (record k { sent = k.sent ++ text })
unfolding w_send_file
w_send_file-text a f text rest k h takes enough =
    ap (λ n. send_length a f (text ++ 0 ∷ rest) n k) (strlen-append text rest h)
    ∙ ap (λ m. ok (record k { sent = send_blocks a.send f k.sent m })) (take-prefix text (0 ∷ rest))
    ∙ ap (λ s. ok (record k { sent = s })) (send_blocks_all a.send f k.sent text takes enough)
