-- ===== src/Settings/Load.antt =====
-- The lines of a configuration file, source/awg_config.c: awg_config_load. The file is the list of
-- its bytes; a file that cannot be opened is none.
use sys_amneziawg.Common.{
  ℕ, zero, suc, ◌-◌, Bool, true, false, Option, none, some, List, [], ◌∷◌, length, take, replicate,
  get_or, ◌==◌, if◌then◌else◌, pos,
}
use sys_amneziawg.Types.{Config, Range}
use sys_amneziawg.Obfuscation.Parse.{same, cut_at, is_nil}
use sys_amneziawg.Proxy.Host.{c_string}
use sys_amneziawg.Settings.Names.{peer_mark}
use sys_amneziawg.Settings.Text.{trim, gets}
use sys_amneziawg.Settings.Keys.{Reason, Outcome, kept, bad, setting}

abbrev line_max : ℕ
line_max = 8192

abbrev exactly : ℕ → Range
exactly n = record { min = pos n; max = pos n }

abbrev zeros : List ℕ
zeros = replicate 32 0

-- memset, and the defaults of plain WireGuard.
unfoldable pub defaults : Config
defaults = record {
  private_key = zeros;
  have_private_key = false;
  address = 0;
  address_cidr = pos 0;
  dns = [];
  jc = pos 0;
  jmin = pos 0;
  jmax = pos 0;
  s1 = pos 0;
  s2 = pos 0;
  s3 = pos 0;
  s4 = pos 0;
  h1 = 1;
  h2 = 2;
  h3 = 3;
  h4 = 4;
  header_protection_key = zeros;
  have_header_protection = false;
  rekey_after_time = exactly 120;
  rekey_timeout = exactly 5;
  reject_after_time = exactly 180;
  keepalive_timeout = exactly 10;
  max_handshake_attempts = exactly 18;
  content_padding_addition = exactly 0;
  i = replicate 5 none;
  peer_public_key = zeros;
  have_peer_public_key = false;
  preshared_key = zeros;
  have_preshared_key = false;
  endpoint_host = [];
  endpoint_port = pos 0;
  persistent_keepalive = exactly 0;
}

-- What the lines so far have left: the section and the configuration, or the number of the line
-- that was refused.
pub data Reading : Type 0 where
  reading : Bool → Config → Reading
  refused : ℕ → Reason → Reading

unfoldable pub proceed : Bool → ℕ → Outcome → Reading
proceed in_peer lineno (kept cfg) = reading in_peer cfg
proceed in_peer lineno (bad why) = refused lineno why

-- A line that holds "name = value".
unfoldable pub read_setting : Bool → ℕ → Config → List ℕ → List ℕ → Reading
read_setting in_peer lineno cfg k v =
    if is_nil k then reading in_peer cfg else proceed in_peer lineno (setting in_peer cfg k v)

-- A line split at its first '=', if it has one.
unfoldable pub read_named : Bool → ℕ → Config → List ℕ → Option (List ℕ) → Reading
read_named in_peer lineno cfg name none = reading in_peer cfg
read_named in_peer lineno cfg name (some value) =
    read_setting in_peer lineno cfg (trim name) (trim value)

-- One turn of the loop, on the line that fgets gives.
unfoldable pub read_line : Bool → ℕ → Config → List ℕ → Reading
read_line in_peer lineno cfg raw =
    let line = trim (cut_at b'#' (c_string raw)).0 in
    let (name, value) = cut_at b'=' line in
    if is_nil line
    then reading in_peer cfg
    else if get_or line 0 0 == b'['
    then reading (same (take 5 line) peer_mark) cfg
    else read_named in_peer lineno cfg name value

-- while (fgets(line, LINE_MAX, f)); each turn takes a byte or more.
unfoldable pub read_lines : ℕ → ℕ → Reading → List ℕ → Reading
read_lines fuel lineno (refused n why) file = refused n why
read_lines zero lineno (reading in_peer cfg) file = reading in_peer cfg
read_lines (suc fuel) lineno (reading in_peer cfg) [] = reading in_peer cfg
read_lines (suc fuel) lineno (reading in_peer cfg) (x ∷ xs) =
    let (line, rest) = gets (line_max - 1) (x ∷ xs) in
    read_lines fuel (suc lineno) (read_line in_peer (suc lineno) cfg line) rest

-- The return value 0 with *cfg, or the reason in `err`. A refused configuration is dropped.
pub data Load : Type 0 where
  loaded : Config → Load
  line_refused : ℕ → Reason → Load
  no_file no_private_key no_public_key no_endpoint : Load

-- The tests behind the loop: on have_private_key, have_peer_public_key and !endpoint_host[0].
unfoldable pub demand : Bool → Bool → Bool → Config → Load
demand false public empty cfg = no_private_key
demand true false empty cfg = no_public_key
demand true true true cfg = no_endpoint
demand true true false cfg = loaded cfg

unfoldable pub check_required : Reading → Load
check_required (refused n why) = line_refused n why
check_required (reading in_peer cfg) =
    demand cfg.have_private_key cfg.have_peer_public_key (is_nil cfg.endpoint_host) cfg

unfoldable pub config_load : Option (List ℕ) → Load
config_load none = no_file
config_load (some file) =
    check_required (read_lines (suc (length file)) 0 (reading false defaults) file)
