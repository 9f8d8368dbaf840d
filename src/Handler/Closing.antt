-- ===== src/Handler/Closing.antt =====
-- general/lib/socket/socket.c `socket_manage_files` and `handle_request`: how they end, and how often they
-- close the client's descriptor, on any platform that keeps to what it promises.
use gopher_server_cross_plat.Base.{
  ℕ, true, false, Option, none, some, ◌≡◌, refl, arith, not, if◌then◌else◌, Bytes, ℤ, pos, negsuc,
  Bool-cases, ◌⊎◌, inl, inr, eqb_ℤ, codes, is_negative,
}
use gopher_server_cross_plat.Outcome.{Result, ok, stop}
use gopher_server_cross_plat.World.{Os, World, Out, done, halt, lift, ◌>>=◌, ClosesAtMost}
use gopher_server_cross_plat.Utils.{ThreadArgs, port_of}
use gopher_server_cross_plat.Cstring.{c_string}
use gopher_server_cross_plat.Send.{sprintf_into, socket_send_message, socket_send_message-Keeps}
use gopher_server_cross_plat.Protocol.{
  resolve_selector, need_to_free, no_free, protocol_response, print_directory,
}
use gopher_server_cross_plat.Protocol.Keeps.{print_directory-Keeps}
use gopher_server_cross_plat.Request.{clean_request, socket_read_request}
use gopher_server_cross_plat.Request.Keeps.{
  clean_request-ClosesAtMost, socket_read_request-ClosesAtMost,
}
use gopher_server_cross_plat.Files.{
  FileType, not_exist, is_directory, is_reg_file, is_unmanaged_file, not_permitted, file_type,
}
use gopher_server_cross_plat.Handler.{
  Globals, resolved, socket_resolve_selector, send_reply, socket_send_error_to_client,
  too_long_line, socket_send_too_long_error_to_client, serve_directory, serve_kind, serve_coded,
  serve_type, is_refused, socket_manage_files, answer, handle_request,
}
use gopher_server_cross_plat.Handler.Ending.{
  Ends, clean_request-Ends, >>=-Ends, Keeps-ClosesAtMost, lift-ClosesAtMost, Ends-Served,
  >>=-Served, Served-clean_request, goes_on,
}
use gopher_server_cross_plat.Platform.{Platform, IsLawful, ServedOn}

module _ ⦃platform : Platform⦄ (args : ThreadArgs) (n : ℕ) (lawful : IsLawful platform args n)
    (os : Os) (globals : Globals) where
  serve_kind-Served :
      (path : Bytes) (kind : FileType) (w : World)
      → ServedOn platform args n w.closes (serve_kind os globals args path kind w)
  unfolding serve_kind serve_directory
  serve_kind-Served path is_directory w =
      >>=-Served args (print_directory os path globals.ip_buffer (port_of args)) (λ _ v. done tt v)
        (record w { type_request = 1 }) n w.closes
        (Keeps-ClosesAtMost _ n (record w { type_request = 1 })
          (print_directory-Keeps os path globals.ip_buffer (port_of args)
            (record w { type_request = 1 })))
        (λ _ v e. goes_on args n lawful w.closes v e)
  serve_kind-Served path is_reg_file w =
      lawful.serve_once os path (record w { type_request = 0 }) refl
  serve_kind-Served path not_exist w = goes_on args n lawful w.closes w refl
  serve_kind-Served path not_permitted w = goes_on args n lawful w.closes w refl
  serve_kind-Served path is_unmanaged_file w = goes_on args n lawful w.closes w refl

  serve_coded-Served :
      (path : Bytes) (kind : FileType) (w : World)
      → ServedOn platform args n w.closes (serve_coded os globals args path kind w)
  unfolding serve_coded
  serve_coded-Served path kind w =
      >>=-Served args (lift (platform.get_gopher_code os path))
        (λ code.
          if is_negative code then clean_request args else serve_kind os globals args path kind)
        w n w.closes (lift-ClosesAtMost _ n w)
        (λ code v e. rw (← e) (go code v (Bool-cases (is_negative code))))
    where
      go :
          (code : ℤ) (v : World)
          → (is_negative code ≡ true) ⊎ (is_negative code ≡ false)
          → ServedOn platform args n v.closes (
              (if is_negative code
                  then clean_request args
                  else serve_kind os globals args path kind)
                v)
      go code v (inl bad) =
          rw bad (
            Ends-Served args n v.closes (clean_request args v) (clean_request-Ends args n lawful v))
      go code v (inr good) = rw good (serve_kind-Served path kind v)

  send_then_clean-Ends :
      (m : Bytes) (w : World)
      → Ends n w.closes ((socket_send_message os m >>= λ _. clean_request args) w)
  send_then_clean-Ends m w =
      >>=-Ends (socket_send_message os m) (λ _. clean_request args) w n w.closes
        (Keeps-ClosesAtMost _ n w (socket_send_message-Keeps os m w))
        (λ r v e. rw (← e) (clean_request-Ends args n lawful v))

  send_reply-Ends : (r : ℤ × Option Bytes) (w : World) → Ends n w.closes (send_reply os args r w)
  unfolding send_reply
  send_reply-Ends (err, none) w = clean_request-Ends args n lawful w
  send_reply-Ends (err, some m) w = elim (Bool-cases (not (eqb_ℤ err (pos 0)))) [
    | inl bad ↦ rw bad (clean_request-Ends args n lawful w)
    | inr good ↦ rw good (send_then_clean-Ends m w)
  ]

  socket_send_error_to_client-Ends :
      (path buf : Bytes) (w : World)
      → Ends n w.closes (socket_send_error_to_client os args path buf w)
  unfolding socket_send_error_to_client
  socket_send_error_to_client-Ends path buf w =
      >>=-Ends (lift (protocol_response os (pos b'3') buf path (codes "localhost") (port_of args)))
        (send_reply os args) w n w.closes (lift-ClosesAtMost _ n w)
        (λ r v e. rw (← e) (send_reply-Ends r v))

  serve_type-Served :
      (path buf : Bytes) (kind : FileType) (w : World)
      → ServedOn platform args n w.closes (serve_type os globals args path buf kind w)
  unfolding serve_type
  serve_type-Served path buf kind w = elim (Bool-cases (is_refused kind)) [
    | inl refused ↦ rw refused (
        Ends-Served args n w.closes _
          (socket_send_error_to_client-Ends path buf (record w { type_request = 1 })))
    | inr admitted ↦ rw admitted (serve_coded-Served path kind w)
  ]

  socket_send_too_long_error_to_client-Ends :
      (w : World) → Ends n w.closes (socket_send_too_long_error_to_client os args w)
  unfolding socket_send_too_long_error_to_client
  socket_send_too_long_error_to_client-Ends w =
      >>=-Ends (lift (sprintf_into os 50 (too_long_line (port_of args))))
        (λ ret.
          if is_negative ret
          then clean_request args
          else (socket_send_message os (too_long_line (port_of args)) >>= λ _. clean_request args))
        w n w.closes (lift-ClosesAtMost _ n w)
        (λ ret v e. rw (← e) (go ret v (Bool-cases (is_negative ret))))
    where
      go :
          (ret : ℤ) (v : World)
          → (is_negative ret ≡ true) ⊎ (is_negative ret ≡ false)
          → Ends n v.closes (
              (if is_negative ret
                  then clean_request args
                  else (socket_send_message os (too_long_line (port_of args)) >>= λ _.
                      clean_request args))
                v)
      go ret v (inl bad) = rw bad (clean_request-Ends args n lawful v)
      go ret v (inr good) = rw good (send_then_clean-Ends (too_long_line (port_of args)) v)

  resolved-ClosesAtMost :
      (r : ℤ × Option Bytes) (w : World) → ClosesAtMost n w.closes (resolved args r w)
  unfolding resolved
  resolved-ClosesAtMost (code, none) w = clean_request-ClosesAtMost args n lawful Bytes w
  resolved-ClosesAtMost (code, some path) w = elim (Bool-cases (eqb_ℤ code no_free)) [
    | inl kept ↦ rw kept (clean_request-ClosesAtMost args n lawful Bytes w)
    | inr other ↦ elim (Bool-cases (eqb_ℤ code need_to_free)) [
      | inl freed ↦ rw (other, freed) (clean_request-ClosesAtMost args n lawful Bytes w)
      | inr fine ↦ rw (other, fine)
    ]
  ]

  socket_resolve_selector-ClosesAtMost :
      (buf : Bytes) (w : World) → ClosesAtMost n w.closes (socket_resolve_selector os args buf w)
  unfolding socket_resolve_selector
  socket_resolve_selector-ClosesAtMost buf w = go (resolve_selector os args.configs.root_dir buf)
    where
      go :
          (r : Result (ℤ × Option Bytes))
          → ClosesAtMost n w.closes (elim (lift r w) as (λ _. Out Bytes) [
            | done a v ↦ resolved args a v
            | halt s v ↦ halt s v
          ])
      go (ok r) = resolved-ClosesAtMost r w
      go (stop s) = omega arith

  answer-Ends : (r : ℤ × Bytes) (w : World) → Ends n w.closes (answer os globals args r w)
  unfolding answer socket_manage_files
  answer-Ends (ret, buf) w =
      >>=-Ends (socket_resolve_selector os args (c_string buf))
        (λ path.
          if eqb_ℤ ret (negsuc 1)
          then socket_send_too_long_error_to_client os args
          else (socket_manage_files os globals args path (c_string buf) >>= λ _.
              clean_request args))
        w n w.closes (socket_resolve_selector-ClosesAtMost (c_string buf) w)
        (λ path v e. rw (← e) (go path v (Bool-cases (eqb_ℤ ret (negsuc 1)))))
    where
      go :
          (path : Bytes) (v : World)
          → (eqb_ℤ ret (negsuc 1) ≡ true) ⊎ (eqb_ℤ ret (negsuc 1) ≡ false)
          → Ends n v.closes (
              (if eqb_ℤ ret (negsuc 1)
                  then socket_send_too_long_error_to_client os args
                  else (socket_manage_files os globals args path (c_string buf) >>= λ _.
                      clean_request args))
                v)
      go path v (inl long) = rw long (socket_send_too_long_error_to_client-Ends v)
      go path v (inr short) = rw short (
          Served-clean_request args (socket_manage_files os globals args path (c_string buf)) v n
            v.closes (serve_type-Served path (c_string buf) (file_type os globals.cwd path) v))

  pub handle_request-Closes : (w : World) → Ends n w.closes (handle_request os globals args w)
  unfolding handle_request
  handle_request-Closes w =
      >>=-Ends (socket_read_request os args globals.dos_protection) (answer os globals args) w n
        w.closes (socket_read_request-ClosesAtMost args n lawful os globals.dos_protection w)
        (λ r v e. rw (← e) (answer-Ends r v))
