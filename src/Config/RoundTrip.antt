-- ===== src/Config/RoundTrip.antt =====
-- A configuration that is written down and read back.
use gopher_server_cross_plat.Base.{
  ℕ, ◌+◌, ◌<◌, true, false, List, [], ◌∷◌, ◌++◌, some, ◌≡◌, ◌≢◌, beq, refl, ap, ◌∙◌, arith, Bytes,
  length, codes, pos, Without, All, map, concat_all,
}
use gopher_server_cross_plat.Outcome.{ok, >>=-returned}
use gopher_server_cross_plat.World.{Os}
use gopher_server_cross_plat.Utils.{buffer_size, m_process, m_thread, strncpy, terminated}
use gopher_server_cross_plat.Cstring.{
  strtok_r, strtok_r-append, strtok_r-All, Without-contains_byte, skip_delims, contains_byte,
  contains_byte_self,
}
use gopher_server_cross_plat.Cstring.Decimal.{print_nat, print_nat-Without, print_nat-ne_nil}
use gopher_server_cross_plat.Config.{
  Parse, parse_line, parse_option, parse_lines, parse_stored, conf_parse_config_file,
  conf_opts_mode_concurrency, blank, quote, value_of, store_lines,
}
use gopher_server_cross_plat.Config.Port.{port_value}
use gopher_server_cross_plat.Config.Lines.{
  IsLine-append, literal-IsLine, IsLine, with_newline, get_lines-concat_all, store_lines-All,
}

-- The modes by their names.
pub data Mode : Type 0 where
  thread process : Mode

abbrev pub mode_name : Mode → Bytes
mode_name thread = codes "Thread"
mode_name process = codes "Process"

abbrev pub mode_code : Mode → ℕ
mode_code thread = m_thread
mode_code process = m_process

abbrev quoted : Bytes → Bytes
quoted s = b'"' ∷ s ++ b'"' ∷ []

-- The lines of the file, and the file.
abbrev pub config_lines : ℕ → Mode → Bytes → Bytes → List Bytes
config_lines port mode root ip =
    (codes "port" ++ b' ' ∷ print_nat port)
    ∷ (codes "mode_concurrency" ++ b' ' ∷ mode_name mode)
    ∷ (codes "root_dir" ++ b' ' ∷ quoted root)
    ∷ (codes "external_ip" ++ b' ' ∷ quoted ip)
    ∷ []

abbrev pub config_text : ℕ → Mode → Bytes → Bytes → Bytes
config_text port mode root ip = concat_all (map with_newline (config_lines port mode root ip))

second_word : (s : Bytes) → s ≢ [] → Without b' ' s → strtok_r s blank ≡ some (s, [])
second_word [] h k = absurd (h refl)
second_word (x ∷ s) h k = strtok_r-All blank x s (Without-contains_byte b' ' (x ∷ s) k)

in_quotes : (s : Bytes) → s ≢ [] → Without b'"' s → strtok_r (quoted s) quote ≡ some (s, [])
in_quotes [] h k = absurd (h refl)
in_quotes (x ∷ s) h k =
    skip_quote ((x ∷ s) ++ b'"' ∷ [])
    ∙ strtok_r-append quote x s [] b'"' (Without-contains_byte b'"' (x ∷ s) k)
        (contains_byte_self b'"')
  where
    skip_quote : (t : Bytes) → strtok_r (b'"' ∷ t) quote ≡ strtok_r t quote
    skip_quote t = unfold strtok_r skip_delims contains_byte in refl

module _ (p : Parse) where
  parse-port :
      (n : ℕ)
      → n < 65536
      → parse_line p (codes "port" ++ b' ' ∷ print_nat n)
        ≡ ok (record p { count_port = p.count_port + 1; port_number = n })
  unfolding parse_line parse_option beq value_of
  parse-port n h = ground (
    arith,
    second_word (print_nat n) (print_nat-ne_nil n) (print_nat-Without b' ' n (omega arith)),
    port_value n h,
  )

  parse-mode :
      (mode : Mode)
      → parse_line p (codes "mode_concurrency" ++ b' ' ∷ mode_name mode)
        ≡ ok (record p { count_mode = p.count_mode + 1; mode_concurrency = mode_code mode })
  unfolding parse_line parse_option beq value_of conf_opts_mode_concurrency
  parse-mode thread = refl
  parse-mode process = refl

  parse-root :
      (root : Bytes)
      → root ≢ []
      → Without b'"' root
      → parse_line p (codes "root_dir" ++ b' ' ∷ quoted root)
        ≡ ok (record p {
          count_root_dir = p.count_root_dir + 1;
          root_dir = strncpy buffer_size root;
        })
  unfolding parse_line parse_option beq value_of
  parse-root root h k = rw (in_quotes root h k) refl

  parse-ip :
      (ip : Bytes)
      → ip ≢ []
      → Without b'"' ip
      → length ip < buffer_size
      → parse_line p (codes "external_ip" ++ b' ' ∷ quoted ip)
        ≡ ok (record p { count_ip = p.count_ip + 1; ip_buffer = ip })
  unfolding parse_line parse_option beq value_of
  parse-ip ip h k fits = ground (arith, in_quotes ip h k)

print_nat-IsLine : (n : ℕ) → IsLine (print_nat n)
print_nat-IsLine n = (
  print_nat-Without b'\n' n (omega arith),
  print_nat-Without b'\r' n (omega arith),
  print_nat-Without 0 n (omega arith),
)

mode_name-IsLine : (mode : Mode) → IsLine (mode_name mode)
mode_name-IsLine thread = literal-IsLine (codes "Thread") refl refl refl
mode_name-IsLine process = literal-IsLine (codes "Process") refl refl refl

quoted-IsLine : (s : Bytes) → IsLine s → IsLine (quoted s)
quoted-IsLine s h =
    IsLine-append (b'"' ∷ s) (b'"' ∷ [])
      (IsLine-append (b'"' ∷ []) s (literal-IsLine (b'"' ∷ []) refl refl refl) h)
      (literal-IsLine (b'"' ∷ []) refl refl refl)

config_lines-IsLine :
    (port : ℕ) (mode : Mode) (root ip : Bytes)
    → IsLine root
    → IsLine ip
    → All IsLine (config_lines port mode root ip)
config_lines-IsLine port mode root ip r i = (
  IsLine-append (codes "port ") (print_nat port) (literal-IsLine (codes "port ") refl refl refl)
      (print_nat-IsLine port),
  (
    IsLine-append (codes "mode_concurrency ") (mode_name mode)
        (literal-IsLine (codes "mode_concurrency ") refl refl refl) (mode_name-IsLine mode),
    (
      IsLine-append (codes "root_dir ") (quoted root)
          (literal-IsLine (codes "root_dir ") refl refl refl) (quoted-IsLine root r),
      (
        IsLine-append (codes "external_ip ") (quoted ip)
            (literal-IsLine (codes "external_ip ") refl refl refl) (quoted-IsLine ip i),
        tt,
      ),
    ),
  ),
)

-- The variables at the start of the parser.
abbrev fresh : Parse → Parse
fresh p = record p {
  count_port = 0;
  count_mode = 0;
  count_root_dir = 0;
  count_ip = 0;
  wrong = false;
}

conf_parse_config_file-lines :
    (os : Os) (ls : List Bytes) (p : Parse)
    → os.calloc_ok 8192 ≡ true
    → All IsLine ls
    → length ls < 1024
    → conf_parse_config_file os (some (concat_all (map with_newline ls))) p
      ≡ parse_stored (fresh p) (some ls)
unfolding conf_parse_config_file
conf_parse_config_file-lines os ls p memory h k = rw memory (
    ap (λ m. parse_stored (fresh p) (store_lines os 0 1024 m)) (get_lines-concat_all ls h)
    ∙ ap (parse_stored (fresh p)) (store_lines-All os 0 1024 ls h (omega arith)))

-- A value that can stand in quotes on a line of its own.
abbrev pub IsValue : Bytes → Type 0
IsValue s = (s ≢ []) × Without b'"' s × IsLine s

strncpy-short : (s : Bytes) → length s < buffer_size → strncpy buffer_size s ≡ terminated s
unfolding strncpy
strncpy-short s h = ground arith

-- The variables of the parser with the values of a configuration.
abbrev pub parsed : ℕ → Mode → Bytes → Bytes → Parse
parsed port mode root ip = record {
  port_number = port;
  mode_concurrency = mode_code mode;
  root_dir = terminated root;
  ip_buffer = ip;
  count_port = 1;
  count_mode = 1;
  count_root_dir = 1;
  count_ip = 1;
  wrong = false;
}

config_lines-parsed :
    (port : ℕ) (mode : Mode) (root ip : Bytes) (p : Parse)
    → port < 65536
    → IsValue root
    → IsValue ip
    → length ip < buffer_size
    → parse_lines p (config_lines port mode root ip)
      ≡ ok (record (parsed port mode root ip) {
        root_dir = strncpy buffer_size root;
        count_port = p.count_port + 1;
        count_mode = p.count_mode + 1;
        count_root_dir = p.count_root_dir + 1;
        count_ip = p.count_ip + 1;
        wrong = p.wrong;
      })
unfolding parse_lines
config_lines-parsed port mode root ip p small r i ip_fits =
    >>=-returned _ _ (parse-port p port small)
    ∙ >>=-returned _ _ (parse-mode _ mode)
    ∙ >>=-returned _ _ (parse-root _ root r.0 r.1)
    ∙ >>=-returned _ _ (parse-ip _ ip i.0 i.1 ip_fits)

-- A port below 65536, a mode, a root directory and an address of at most 2047 bytes each,
-- neither empty nor with a quote, a newline, a carriage return or a NUL, are written to a file as `port N`,
-- `mode_concurrency Thread` or `Process`, `root_dir "R"` and `external_ip "I"`, a line each. Reading that
-- file gives 0 and exactly those values, whatever the configuration was before.
pub conf_parse_config_file-config_text :
    (os : Os) (port : ℕ) (mode : Mode) (root ip : Bytes) (p : Parse)
    → os.calloc_ok 8192 ≡ true
    → port < 65536
    → IsValue root
    → length root < buffer_size
    → IsValue ip
    → length ip < buffer_size
    → conf_parse_config_file os (some (config_text port mode root ip)) p
      ≡ ok (pos 0, parsed port mode root ip)
conf_parse_config_file-config_text os port mode root ip p memory small r root_fits i ip_fits =
    conf_parse_config_file-lines os (config_lines port mode root ip) p memory
      (config_lines-IsLine port mode root ip r.2 i.2) (omega arith)
    ∙ unfold parse_stored in
      (>>=-returned _ _ (config_lines-parsed port mode root ip (fresh p) small r i ip_fits)
        ∙ ap (λ s. ok (pos 0, record (parsed port mode root ip) { root_dir = s }))
            (strncpy-short root root_fits))
