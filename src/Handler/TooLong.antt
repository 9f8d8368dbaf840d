-- ===== src/Handler/TooLong.antt =====
-- A request line that does not fit the buffer.
use gopher_server_cross_plat.Base.{
  ℕ, suc, ap, ltb, of_u32, Bool-cases, inl, inr, ◌^◌, ◌<◌, ◌+◌, ◌-◌, ◌≤◌, true, List, [], ◌∷◌, ◌++◌,
  ◌≡◌, arith, ◌∙◌, Bytes, ℤ, pos, negsuc, length, take, length-append, if◌then◌else◌, is_negative,
}
use gopher_server_cross_plat.Outcome.{ok}
use gopher_server_cross_plat.World.{lift, ◌>>=◌, Os, Recv, got, World, >>=-done}
use gopher_server_cross_plat.Utils.{ThreadArgs, buffer_size, port_of}
use gopher_server_cross_plat.Cstring.{c_string}
use gopher_server_cross_plat.Cstring.Decimal.{print_int, length-print_nat}
use gopher_server_cross_plat.Send.{sprintf_into, socket_send_message, socket_send_message_all}
use gopher_server_cross_plat.Request.{clean_request, socket_read_request}
use gopher_server_cross_plat.Request.Early.{left_over, read_full}
use gopher_server_cross_plat.Handler.{
  Globals, too_long_line, socket_send_too_long_error_to_client, answer, handle_request,
  socket_resolve_selector,
}
use gopher_server_cross_plat.Protocol.Selector.{joined}
use gopher_server_cross_plat.Handler.Serving.{Works, CleansUp, socket_resolve_selector_lem}
use gopher_server_cross_plat.Platform.{Platform}

sprintf_fits :
    (os : Os) (size : ℕ) (text : Bytes)
    → os.sprintf_ok text ≡ true
    → length text < size
    → sprintf_into os size text ≡ ok (pos (length text))
unfolding sprintf_into
sprintf_fits os size text printed fits = ground arith

-- A port prints in at most ten digits and a sign.
length-port : (n : ℕ) → n < 2 ^ 32 → length (print_int (of_u32 n)) ≤ 11
unfolding print_int
length-port n h = elim (Bool-cases (ltb n (2 ^ 31))) [
  | inl small ↦ rw small (omega (arith, length-print_nat 9 n (ground arith)))
  | inr large ↦ rw large (omega (arith, length-print_nat 9 (suc (2 ^ 32 - 1 - n)) (ground arith)))
]

length-too_long_line : (port : ℤ) → length (too_long_line port) ≡ 37 + length (print_int port)
length-too_long_line port = omega (arith, length-append (print_int port) (b'\n' ∷ []))

module _ ⦃platform : Platform⦄ where
  too_long_lem :
      (os : Os) (args : ThreadArgs) (w : World)
      → Works os
      → w.closes ≡ 0
      → args.configs.port_number < 2 ^ 32
      → socket_send_too_long_error_to_client os args w
        ≡ clean_request args (record w { sent = w.sent ++ too_long_line (port_of args) })
  unfolding socket_send_too_long_error_to_client
  too_long_lem os args w works open_ port =
      ap
        (λ r.
          (lift r >>= λ ret.
          if is_negative ret
          then clean_request args
          else (socket_send_message os (too_long_line (port_of args)) >>= λ _. clean_request args))
            w)
        (sprintf_fits os 50 (too_long_line (port_of args))
          (works.prints (too_long_line (port_of args)))
          (omega (
            arith,
            length-too_long_line (port_of args),
            length-port args.configs.port_number port,
          )))
      ∙ >>=-done (socket_send_message os (too_long_line (port_of args))) (λ _. clean_request args) w
          _ (pos 0) (socket_send_message_all os (too_long_line (port_of args)) w works.sends open_)

  pub long_line :
      (os : Os) (globals : Globals) (args : ThreadArgs) (c : ℕ) (root : Bytes) (x : ℕ) (g : Bytes)
      (rest : List Recv) (w : World)
      → Works os
      → args.configs.root_dir ≡ c ∷ root
      → globals.dos_protection ≡ true
      → args.configs.port_number < 2 ^ 32
      → buffer_size ≤ length (x ∷ g)
      → w.closes ≡ 0
      → CleansUp args
          (record w { sent = w.sent ++ too_long_line (port_of args); type_request = 1 })
          (handle_request os globals args (record w { incoming = got (x ∷ g) ∷ rest }))
  unfolding handle_request answer
  long_line os globals args c root x g rest w works e dos port long open_ =
      let full = record w { incoming = left_over (x ∷ g) rest; type_request = 1 } in
      let buf = take buffer_size (x ∷ g) in
      (
        left_over (x ∷ g) rest,
        rw dos (
            >>=-done (socket_read_request os args true) (answer os globals args) _ full
              (negsuc 1, buf)
              (read_full os args x g rest w (works.allocates (buffer_size + 1)) long)
            ∙ >>=-done (socket_resolve_selector os args (c_string buf))
                (λ _. socket_send_too_long_error_to_client os args) full full
                (joined (c ∷ root) (c_string buf))
                (socket_resolve_selector_lem os args c root (c_string buf) full works e)
            ∙ too_long_lem os args full works open_ port),
      )
