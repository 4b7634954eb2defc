-- ===== src/Tests/Files.antt =====
-- A configuration file that loads, and a line of it.
use sys_amneziawg.Common.{
  ℕ, ◌≡◌, refl, true, false, some, List, [], ◌∷◌, ◌++◌, replicate, pos, arith,
}
use sys_amneziawg.Types.{Config}
use sys_amneziawg.Obfuscation.Base64.{b64_decode, decode_from, b64_val, is_skipped, next_acc}
use sys_amneziawg.Obfuscation.Parse.{cut_at}
use sys_amneziawg.Proxy.Host.{c_string}
use sys_amneziawg.Settings.Text.{
  trim, trim_start, trim_end, gets, cut_last, strtol, skip_space, sign, number, starts_with_digit,
  to_int, atoi,
}
use sys_amneziawg.Settings.Names.{
  private_key_name, public_key_name, endpoint_name, jc_name, peer_mark,
}
use sys_amneziawg.Settings.Values.{parse_key, ip_str, parse_ipv4}
use sys_amneziawg.Settings.Keys.{setting, interface_setting, peer_setting, with_key, set_endpoint}
use sys_amneziawg.Settings.Load.{
  loaded, config_load, read_lines, read_line, read_named, read_setting, proceed, check_required,
  demand, defaults,
}
use sys_amneziawg.Settings.Loaded.{IsComplete, config_load-IsComplete}
use sys_amneziawg.Settings.Lines.{read_line-setting}
use sys_amneziawg.Settings.Addresses.{parse_ipv4-ip_str}

-- 1.1.1.1 is printed and parsed.
parse_ipv4_example : parse_ipv4 (ip_str 16843009 16) ≡ some 16843009
parse_ipv4_example = parse_ipv4-ip_str 16843009 16 (omega arith) (omega arith)

-- 32 zero bytes.
abbrev key_text : List ℕ
key_text = replicate 43 b'A' ++ b'=' ∷ b'\n' ∷ []

abbrev file : List ℕ
file =
    private_key_name
    ++ b'=' ∷ key_text
    ++ (peer_mark
        ++ b']' ∷ b'\n' ∷ public_key_name
        ++ (b' ' ∷ b'=' ∷ b' ' ∷ key_text
            ++ (endpoint_name ++ b'=' ∷ b'h' ∷ b':' ∷ b'5' ∷ b'1' ∷ b'\n' ∷ [])))

abbrev cfg : Config
cfg = record defaults {
  have_private_key = true;
  have_peer_public_key = true;
  endpoint_host = b'h' ∷ [];
  endpoint_port = pos 51;
}

file_loads : config_load (some file) ≡ loaded cfg
unfolding config_load read_lines read_line read_named read_setting proceed check_required demand
    defaults setting interface_setting peer_setting with_key set_endpoint parse_key b64_decode
    decode_from b64_val is_skipped next_acc cut_at c_string trim trim_start trim_end gets cut_last
    atoi strtol skip_space sign number starts_with_digit to_int
file_loads = refl

config_load_example : IsComplete cfg
config_load_example = config_load-IsComplete (some file) cfg file_loads

-- "\tJc = 4 # four\n"
abbrev line : List ℕ
line =
    b'\t' ∷ b'J' ∷ b'c' ∷ b' ' ∷ b'=' ∷ b' ' ∷ b'4' ∷ b' ' ∷ b'#' ∷ b' ' ∷ b'f' ∷ b'o' ∷ b'u' ∷ b'r'
    ∷ b'\n' ∷ []

line_before_comment :
    (cut_at b'#' (c_string line)).0
    ≡ b'\t' ∷ [] ++ (jc_name ++ (b' ' ∷ [] ++ (b'=' ∷ (b' ' ∷ [] ++ (b'4' ∷ [] ++ b' ' ∷ [])))))
unfolding cut_at c_string
line_before_comment = refl

read_line_example :
    read_line false 3 defaults line ≡ proceed false 3 (setting false defaults jc_name (b'4' ∷ []))
unfolding trim_start trim_end
read_line_example =
    read_line-setting false 3 defaults line (b'\t' ∷ []) (b'c' ∷ []) (b' ' ∷ []) (b' ' ∷ [])
      (b'4' ∷ []) (b' ' ∷ []) b'J' line_before_comment (refl, tt) (refl, tt) (refl, tt) (refl, tt)
      (refl, refl) (refl, (refl, tt)) refl (refl, refl)
