-- ===== src/Config/Port.antt =====
-- The port, as text that is read back.
use gopher_server_cross_plat.Base.{
  ℕ, ◌^◌, ◌%◌, ◌<◌, ◌==◌, [], ◌∷◌, ◌≡◌, ◌≢◌, beq, refl, ap, ◌∙◌, arith, Bytes, length, pos,
  if◌then◌else◌,
}
use gopher_server_cross_plat.Outcome.{ok, >>=-returned}
use gopher_server_cross_plat.Utils.{ut_strtoint}
use gopher_server_cross_plat.Cstring.Decimal.{print_nat, strtol-print_nat}
use gopher_server_cross_plat.Config.{conf_opts_port_number, Options, opt_p, conf_read_opt, set_opt}

pub port_value : (n : ℕ) → n < 65536 → conf_opts_port_number (print_nat n) ≡ ok (pos n)
unfolding conf_opts_port_number ut_strtoint beq
port_value n h = ground (arith, strtol-print_nat n (omega arith))

small_u32 : (n : ℕ) → n < 65536 → n % 2 ^ 32 ≡ n
small_u32 n h = omega arith

-- The command line that gives the port alone.
not_empty : {A : Type 0} (s : Bytes) (x y : A) → s ≢ [] → (if length s == 0 then x else y) ≡ y
not_empty [] x y h = absurd (h refl)
not_empty (c ∷ s) x y h = ground arith

pub conf_read_opt-port :
    (port : ℕ) (o : Options)
    → port < 65536
    → o.ip_buffer ≢ []
    → conf_read_opt (opt_p (print_nat port) ∷ []) o ≡ ok (pos 0, record o { port_number = port })
unfolding conf_read_opt set_opt
conf_read_opt-port port o small h =
    >>=-returned _ _ (>>=-returned _ _ (port_value port small))
    ∙ not_empty o.ip_buffer _ _ h
    ∙ ap (λ n. ok (pos 0, record o { port_number = n })) (small_u32 port small)
