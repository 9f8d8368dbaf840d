-- ===== src/Config.antt =====
-- general/lib/io/config_file.c: the configuration file and the command line.
pub mod Valid
pub mod Lines
pub mod Port
pub mod RoundTrip
use gopher_server_cross_plat.Base.{
  ℕ, zero, suc, ◌+◌, ◌*◌, ◌-◌, Bool, true, false, not, ◌&&◌, List, [], ◌∷◌, ◌++◌, Option, none,
  some, ◌==◌, ltb, if◌then◌else◌, Bytes, length, take, beq, codes, ℤ, pos, negsuc, to_u32,
}
use gopher_server_cross_plat.Outcome.{Result, ok, stop, exited, fault, ◌>>=◌, ◌>>◌}
use gopher_server_cross_plat.World.{Os}
use gopher_server_cross_plat.Utils.{
  buffer_size, m_process, m_thread, assert, assert_nb, ut_strtoint, CharArray, strncpy,
}
use gopher_server_cross_plat.Cstring.{c_string, strtok_r}

-- `port <= 65535` as an int.
abbrev pub at_most_65535 : ℤ → Bool
at_most_65535 (pos n) = ltb n 65536
at_most_65535 (negsuc n) = true

unfoldable pub conf_opts_port_number : Bytes → Result ℤ
unfolding ut_strtoint
conf_opts_port_number opt = do port ← ut_strtoint opt; assert (at_most_65535 port); ok port

abbrev pub xor : Bool → Bool → Bool
xor true b = not b
xor false b = b

unfoldable pub conf_opts_mode_concurrency : Bytes → Result ℕ
conf_opts_mode_concurrency opt = do
  assert (xor (not (beq opt (codes "Thread"))) (not (beq opt (codes "Process"))))
  ok (if beq opt (codes "Thread") then m_thread else m_process)

-- What getopt finds, in order. `opt_other` is '?'.
pub data Opt : Type 0 where
  opt_p opt_m opt_i opt_d : Bytes → Opt
  opt_s opt_e opt_other : Opt

-- What the command line sets: the configuration, `DOS_PROTECTION`, `ip_buffer` and `deamon`.
pub record Options : Type 0 where
  pub port_number : ℕ
  pub mode_concurrency : ℕ
  pub root_dir : CharArray
  pub used_optarg : Bool
  pub dos_protection : Bool
  pub ip_buffer : Bytes
  pub daemon : Bool

-- One round of the loop, but for `opt_other`.
set_opt : Opt → Options → Result Options
unfolding conf_opts_port_number conf_opts_mode_concurrency strncpy
set_opt (opt_p a) o = do port ← conf_opts_port_number a; ok (record o { port_number = to_u32 port })
set_opt (opt_m a) o = do
  mode ← conf_opts_mode_concurrency a
  ok (record o { mode_concurrency = mode })
set_opt (opt_i a) o =
    ok (if ltb (buffer_size - 1) (length a) then o else record o { ip_buffer = a })
set_opt (opt_d a) o = ok (record o { used_optarg = true; root_dir = strncpy buffer_size a })
set_opt opt_s o = ok (record o { dos_protection = true })
set_opt opt_e o = ok (record o { daemon = true })
set_opt opt_other o = ok o

abbrev is_other : Opt → Bool
is_other opt_other = true
is_other _ = false

-- Without an address the server does not start.
abbrev end_opts : Options → Result (ℤ × Options)
end_opts o = if length o.ip_buffer == 0 then stop (exited (negsuc 0)) else ok (pos 0, o)

-- The return code and what has been set. Going into the background comes after it.
unfoldable pub conf_read_opt : List Opt → Options → Result (ℤ × Options)
unfolding set_opt
conf_read_opt [] o = end_opts o
conf_read_opt (a ∷ opts) o =
    if is_other a then ok (pos 1, o) else (do o' ← set_opt a o; conf_read_opt opts o')

-- getline: the lines of a file, each with its newline.
unfoldable pub get_lines : Bytes → List Bytes
get_lines [] = []
get_lines (c ∷ s) =
    let rest = get_lines s in
    if c == b'\n' then (c ∷ []) ∷ rest else elim rest [ [] ↦ (c ∷ []) ∷ [] | l ∷ ls ↦ (c ∷ l) ∷ ls ]

-- Without the newlines and carriage returns at its end.
unfoldable pub strip_line : Bytes → Bytes
strip_line [] = []
strip_line (c ∷ s) = elim (strip_line s) [
  | [] ↦ if c == b'\n' then [] else if c == b'\r' then [] else c ∷ []
  | d ∷ t ↦ c ∷ d ∷ t
]

-- strdup of each line, in an array of pointers that is doubled whenever it is full.
unfoldable pub store_lines : Os → ℕ → ℕ → List Bytes → Option (List Bytes)
unfolding strip_line c_string
store_lines os idx lmax [] = some []
store_lines os idx lmax (ln ∷ lines) =
    let kept = store_lines os (idx + 1) lmax lines in
    let grown = store_lines os (idx + 1) (lmax * 2) lines in
    let all =
      if (idx + 1) == lmax then (if os.calloc_ok (lmax * 2 * 8) then grown else none) else kept in
    elim all [ none ↦ none | some rest ↦ some (c_string (strip_line ln) ∷ rest) ]

-- The variables of the parser: the options, how often each was given, and `wrong`.
pub record Parse : Type 0 where
  pub port_number : ℕ
  pub mode_concurrency : ℕ
  pub root_dir : CharArray
  pub ip_buffer : Bytes
  pub count_port : ℕ
  pub count_mode : ℕ
  pub count_root_dir : ℕ
  pub count_ip : ℕ
  pub wrong : Bool

-- A missing value is reported, and then used all the same.
value_of : Option (Bytes × Bytes) → Result Bytes
value_of none = stop fault
value_of (some (value, save)) = ok value

abbrev pub blank : Bytes
blank = b' ' ∷ []

abbrev pub quote : Bytes
quote = b'"' ∷ []

unfoldable pub parse_option : Parse → Bytes → Bytes → Result Parse
unfolding value_of strtok_r conf_opts_port_number conf_opts_mode_concurrency strncpy
parse_option p word save =
    if beq (codes "port") word
    then (do
      value ← value_of (strtok_r save blank)
      port ← conf_opts_port_number value
      ok (record p { count_port = p.count_port + 1; port_number = to_u32 port }))
    else if beq (codes "mode_concurrency") word
    then (do
      value ← value_of (strtok_r save blank)
      mode ← conf_opts_mode_concurrency value
      ok (record p { count_mode = p.count_mode + 1; mode_concurrency = mode }))
    else if beq (codes "root_dir") word
    then (do
      value ← value_of (strtok_r save quote)
      ok (record p { count_root_dir = p.count_root_dir + 1; root_dir = strncpy buffer_size value }))
    else if beq (codes "external_ip") word
    then (do
      value ← value_of (strtok_r save quote)
      ok (
          if ltb (buffer_size - 1) (length value)
          then record p { count_ip = p.count_ip + 1; wrong = true }
          else record p { count_ip = p.count_ip + 1; ip_buffer = value }))
    else stop (exited (pos 3))

unfoldable pub parse_line : Parse → Bytes → Result Parse
unfolding parse_option strtok_r
parse_line p line = elim (strtok_r line blank) [
  | none ↦ ok p
  | some (word, save) ↦ parse_option p word save
]

unfoldable pub parse_lines : Parse → List Bytes → Result Parse
unfolding parse_line
parse_lines p [] = ok p
parse_lines p (line ∷ lines) = do p' ← parse_line p line; parse_lines p' lines

-- Each option once and nothing wrong, or the process ends.
abbrev pub once_each : Parse → Bool
once_each p =
    p.count_ip == 1
    && p.count_mode == 1
    && p.count_port == 1
    && p.count_root_dir == 1
    && not p.wrong

parse_stored : Parse → Option (List Bytes) → Result (ℤ × Parse)
unfolding parse_lines
parse_stored p none = ok (negsuc 0, p)
parse_stored p (some lines) = do
  q ← parse_lines p lines
  if once_each q then ok (pos 0, q) else stop (exited (pos 1))

-- The file's content, or that it cannot be opened; the return code and what has been set. The address
-- goes to the global `ip_buffer`.
unfoldable pub conf_parse_config_file : Os → Option Bytes → Parse → Result (ℤ × Parse)
unfolding parse_stored store_lines get_lines
conf_parse_config_file os none p = stop (exited (pos 3))
conf_parse_config_file os (some content) p =
    if os.calloc_ok (1024 * 8)
    then parse_stored
        (record p {
          count_port = 0;
          count_mode = 0;
          count_root_dir = 0;
          count_ip = 0;
          wrong = false;
        })
        (store_lines os 0 1024 (get_lines content))
    else stop (exited (pos 3))
