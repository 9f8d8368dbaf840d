-- ===== src/Tests/Texts.antt =====
-- A configuration file and its words: the theorems on Config/RoundTrip and Utils/Tokens, applied.
use gopher_server_cross_plat.Base.{
  ◌≡◌, false, List, [], ◌∷◌, none, some, refl, arith, Bytes, without_lem, codes, pos,
}
use gopher_server_cross_plat.Outcome.{ok}
use gopher_server_cross_plat.Config.{Parse, conf_parse_config_file}
use gopher_server_cross_plat.Config.RoundTrip.{
  process, config_text, parsed, IsValue, conf_parse_config_file-config_text,
}
use gopher_server_cross_plat.Utils.Tokens.{win_calls, posix_calls, win_calls-posix_calls}
use gopher_server_cross_plat.Tests.{test_os}
use gopher_server_cross_plat.Utils.{terminated}

abbrev pub no_options : Parse
no_options = record {
  port_number = 0;
  mode_concurrency = 0;
  root_dir = terminated [];
  ip_buffer = [];
  count_port = 0;
  count_mode = 0;
  count_root_dir = 0;
  count_ip = 0;
  wrong = false;
}

pub root_IsValue : IsValue (codes "/g")
root_IsValue = (
  λ e. cc,
  without_lem b'"' (codes "/g") refl,
  (
    without_lem b'\n' (codes "/g") refl,
    without_lem b'\r' (codes "/g") refl,
    without_lem 0 (codes "/g") refl,
  ),
)

pub host_IsValue : IsValue (codes "host")
host_IsValue = (
  λ e. cc,
  without_lem b'"' (codes "host") refl,
  (
    without_lem b'\n' (codes "host") refl,
    without_lem b'\r' (codes "host") refl,
    without_lem 0 (codes "host") refl,
  ),
)

conf_parse_config_file-config_text_example :
    conf_parse_config_file test_os
      (some (config_text 7070 process (codes "/g") (codes "host")))
      no_options
    ≡ ok (pos 0, parsed 7070 process (codes "/g") (codes "host"))
conf_parse_config_file-config_text_example =
    conf_parse_config_file-config_text test_os 7070 process (codes "/g") (codes "host") no_options
      refl (omega arith) root_IsValue (omega arith) host_IsValue (omega arith)

abbrev delimiters : List Bytes
delimiters = codes " " ∷ codes "\"" ∷ codes " " ∷ []

win_calls-posix_calls_example :
    win_calls (some (codes "root_dir \"/g\"")) none delimiters
    ≡ posix_calls (codes "root_dir \"/g\"") delimiters
win_calls-posix_calls_example = win_calls-posix_calls (codes "root_dir \"/g\"") none delimiters
