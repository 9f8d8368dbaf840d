-- ===== src/Tests/Runner.antt =====
-- Connections of two clients on Windows: the theorems on Windows/Runner and Windows/HandleRequest, applied.
use gopher_server_cross_plat.Base.{
  ℕ, ◌≡◌, true, false, List, [], ◌∷◌, ◌++◌, none, some, refl, arith, Bytes, Without, without_lem,
  codes, pos, map, append_assoc,
}
use gopher_server_cross_plat.Outcome.{ok}
use gopher_server_cross_plat.Utils.{Configs, m_process}
use gopher_server_cross_plat.Cstring.{
  split_token, split_token-append, Without-contains_byte, contains_byte_self,
}
use gopher_server_cross_plat.Cstring.Decimal.{print_int, print_nat, digits_onto}
use gopher_server_cross_plat.Windows.Runner.{
  Launch, Runner, Client, load, accept_loop, command_text, command_line,
}
use gopher_server_cross_plat.Windows.Runner.Sharing.{
  accepted, saw, in_turn, own, accept_loop-last, accept_loop-in_turn,
}
use gopher_server_cross_plat.Windows.Runner.Children.{
  Arrival, arrives, children_of, left_open, accept_loop-children,
}
use gopher_server_cross_plat.Windows.HandleRequest.{Offer, main_handle_request, read_arguments}
use gopher_server_cross_plat.Windows.HandleRequest.Closed.{Closed, main_handle_request-Closed}
use gopher_server_cross_plat.Windows.HandleRequest.CommandLine.{
  IsWord, six, Splits, flag, read_arguments-command_line,
}
use gopher_server_cross_plat.Tests.{test_os, test_globals, test_configs}
use gopher_server_cross_plat.Tests.Windows.{working, no_pipe}

abbrev launching : Launch
launching = record {
  creates = true;
  duplicates = true;
  connects = true;
  writes = true;
  ends = true;
  closes = true;
}

abbrev runner_of : Configs → Runner
runner_of configs = record {
  args = record { fd = none; ip_client = []; configs = configs };
  reset_config = false;
  server_open = true;
  timeout = 1;
  sockets = [];
  threads = 0;
  loads = [];
  children = [];
}

abbrev one : Client
one = (some 4, codes "1")

abbrev two : Client
two = (some 5, codes "2")

accept_loop-last_example :
    (s : Runner) × (accept_loop test_globals test_configs
        (map (accepted launching) (one ∷ []) ++ accepted launching two ∷ map load (0 ∷ 1 ∷ []))
        (runner_of test_configs)
      ≡ ok (none, s))
    × (s.loads ≡ [] ++ saw two (0 ∷ 1 ∷ []))
accept_loop-last_example =
    accept_loop-last test_globals test_configs launching (one ∷ []) two (0 ∷ 1 ∷ [])
      (runner_of test_configs) refl (omega arith, (omega arith, tt))

accept_loop-in_turn_example :
    (s : Runner) × (accept_loop test_globals test_configs
        (in_turn launching 0 (one ∷ two ∷ []))
        (runner_of test_configs)
      ≡ ok (none, s))
    × (s.loads ≡ [] ++ own 0 (one ∷ two ∷ []))
accept_loop-in_turn_example =
    accept_loop-in_turn test_globals test_configs launching (one ∷ two ∷ [])
      (runner_of test_configs) refl

abbrev pub process_configs : Configs
process_configs = record test_configs { mode_concurrency = m_process }

abbrev arrivals : List Arrival
arrivals =
    record { fd = 4; ip = codes "1"; launch = launching }
    ∷ record { fd = 5; ip = codes "2"; launch = record launching { creates = false } }
    ∷ []

accept_loop-children_example :
    (s : Runner) × (accept_loop test_globals process_configs
        (map arrives arrivals)
        (runner_of process_configs)
      ≡ ok (none, s))
    × (s.children ≡ [] ++ children_of test_globals process_configs arrivals)
    × (s.sockets ≡ left_open arrivals [])
accept_loop-children_example =
    accept_loop-children test_globals process_configs arrivals (runner_of process_configs) refl
      ((refl, refl), ((refl, refl), tt))

abbrev offering : Offer
offering = record { startup_ok = true; opens_pipe = true; reads_info = true; socket = some 9 }

abbrev arguments : List Bytes
arguments = codes "1" ∷ codes "70" ∷ codes "/g" ∷ codes "0" ∷ codes "host" ∷ codes "1" ∷ []

main_handle_request-Closed_example :
    Closed (main_handle_request test_os working offering [] arguments no_pipe)
main_handle_request-Closed_example =
    main_handle_request-Closed test_os working offering [] arguments no_pipe

-- A division of command lines of that form.
abbrev pub split_words : Bytes → List Bytes
split_words s =
    let (a, s1) = split_token (b' ' ∷ []) s in
    let (b, s2) = split_token (b' ' ∷ []) s1 in
    let (_, s3) = split_token (b'"' ∷ []) s2 in
    let (r, s4) = split_token (b'"' ∷ []) s3 in
    let (_, s5) = split_token (b' ' ∷ []) s4 in
    let (m, s6) = split_token (b' ' ∷ []) s5 in
    let (i, d) = split_token (b' ' ∷ []) s6 in a ∷ b ∷ r ∷ m ∷ i ∷ d ∷ []

six-right :
    (a b r m i d : Bytes)
    → six a b r m i d
      ≡ a ++ b' ' ∷ (b ++ b' ' ∷ b'"' ∷ (r ++ b'"' ∷ b' ' ∷ (m ++ b' ' ∷ (i ++ b' ' ∷ d))))
six-right a b r m i d = simp append_assoc

split_at : (c : ℕ) (t rest : Bytes) → Without c t → split_token (c ∷ []) (t ++ c ∷ rest) ≡ (t, rest)
split_at c t rest h =
    split_token-append (c ∷ []) t rest c (Without-contains_byte c t h) (contains_byte_self c)

pub split_words-Splits : Splits split_words
split_words-Splits a b r m i d a_word b_word quotable m_word i_word d_word =
    rw
      (
        six-right a b r m i d,
        split_at b' ' a _ a_word.1,
        split_at b' ' b _ b_word.1,
        split_at b'"' [] _ tt,
        split_at b'"' r _ quotable.0,
        split_at b' ' [] _ tt,
        split_at b' ' m _ m_word.1,
        split_at b' ' i _ i_word.1,
      )
      refl

pub host-IsWord : IsWord (codes "host")
host-IsWord = (
  λ e. cc,
  without_lem b' ' (codes "host") refl,
  without_lem b'\t' (codes "host") refl,
  without_lem b'"' (codes "host") refl,
)

pub client-IsWord : IsWord (codes "1")
client-IsWord = (
  λ e. cc,
  without_lem b' ' (codes "1") refl,
  without_lem b'\t' (codes "1") refl,
  without_lem b'"' (codes "1") refl,
)

read_arguments-command_line_example :
    read_arguments [] (split_words (command_line (codes "1") process_configs (codes "host") true))
    ≡ ok (
        some (record {
          port_number = 70;
          mode_concurrency = 48;
          root_dir = codes "/g";
          dos_protection = pos (flag true);
          ip_client = codes "1";
          hostname = codes "host";
          ip_buffer = codes "host";
        }))
read_arguments-command_line_example =
    read_arguments-command_line split_words (codes "1") [] (codes "host") process_configs true
      split_words-Splits client-IsWord host-IsWord (without_lem b'"' (codes "/g") refl, refl)
      (omega arith) refl (omega arith) (omega arith)
      (unfold command_text print_int print_nat digits_onto in (omega arith))
