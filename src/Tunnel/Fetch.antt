-- ===== src/Tunnel/Fetch.antt =====
-- The HTTP probe, source/main_switch.c: the callbacks of lwIP, http_start and http_reset. What lwIP
-- answers is an argument; a status line is what stands before its end.
pub mod Sound
use sys_amneziawg.Common.{
  ℕ, ◌+◌, ◌-◌, Bool, true, false, ◌||◌, Option, none, some, List, [], ◌∷◌, length, take, ltb, ◌==◌,
  if◌then◌else◌, u32, sub64,
}

-- http_state.
pub data HttpState : Type 0 where
  http_idle http_connecting http_sent http_got_data http_done http_failed : HttpState

-- g_http, whether g_pcb is set, and the other static variables. An error of lwIP is its number.
pub record Fetch : Type 0 where
  pub http : HttpState
  pub pcb : Bool
  pub bytes : ℕ
  pub started : ℕ
  pub ms : ℕ
  pub line : List ℕ
  pub err : ℕ

abbrev pub initial_fetch : Fetch
initial_fetch = record {
  http = http_idle;
  pcb = false;
  bytes = 0;
  started = 0;
  ms = 0;
  line = [];
  err = 0;
}

-- http_reset; tcp_abort is lwIP's.
unfoldable pub http_reset : Fetch → Fetch
http_reset f = record f { pcb = false }

-- The status line: what stands before a zero, a carriage return or a newline.
unfoldable pub status_line : List ℕ → List ℕ
status_line [] = []
status_line (x ∷ xs) =
    let rest = status_line xs in if x == 0 || (x == b'\r' || x == b'\n') then [] else x ∷ rest

abbrev line_size : ℕ
line_size = 64

-- A chunk of a chain's bytes, at the time `now`.
unfoldable pub take_chunk : Fetch → List ℕ → ℕ → Fetch
take_chunk f chunk now = record f {
  line = if f.bytes == 0 then status_line (take (line_size - 1) chunk) else f.line;
  bytes = u32 (f.bytes + length chunk);
  http = http_got_data;
  ms = u32 (sub64 now f.started);
}

-- http_on_recv: none where the peer closed; `ok` is err == ERR_OK.
unfoldable pub http_on_recv : Fetch → Option (List ℕ) → Bool → ℕ → Fetch
http_on_recv f none ok now = record f {
  http = if ltb 0 f.bytes then http_done else http_failed;
  ms = u32 (sub64 now f.started);
}
http_on_recv f (some chunk) ok now =
    if ok then take_chunk f chunk now else record f { http = http_failed }

-- http_on_err.
unfoldable pub http_on_err : Fetch → ℕ → Fetch
http_on_err f err = record f { pcb = false; err = err; http = http_failed }

-- http_on_connected: an error of lwIP, or what tcp_write answers.
unfoldable pub http_on_connected : Fetch → Option ℕ → Bool → Fetch
http_on_connected f (some err) written = record f { http = http_failed; err = err }
http_on_connected f none written = record f { http = if written then http_sent else http_failed }

-- http_start, with the answers of tcp_new and tcp_connect.
unfoldable pub http_start : Fetch → ℕ → Bool → Bool → Fetch
http_start f now made dialled =
    let fresh : Fetch = record (http_reset f) { bytes = 0; err = 0; line = []; started = now } in
    if made
    then record fresh { pcb = true; http = if dialled then http_connecting else http_failed }
    else record fresh { pcb = false; http = http_failed }

-- `busy` of the main loop.
abbrev pub is_busy : HttpState → Bool
is_busy http_connecting = true
is_busy http_sent = true
is_busy http_got_data = true
is_busy http_idle = false
is_busy http_done = false
is_busy http_failed = false

abbrev pub is_done : HttpState → Bool
is_done http_done = true
is_done http_idle = false
is_done http_connecting = false
is_done http_sent = false
is_done http_got_data = false
is_done http_failed = false

abbrev pub is_failed : HttpState → Bool
is_failed http_failed = true
is_failed http_idle = false
is_failed http_connecting = false
is_failed http_sent = false
is_failed http_got_data = false
is_failed http_done = false

-- What happens to a fetch: http_start, the three callbacks, and the reset of the main loop.
pub data Callback : Type 0 where
  started : ℕ → Bool → Bool → Callback
  connected : Option ℕ → Bool → Callback
  received : Option (List ℕ) → Bool → ℕ → Callback
  errored : ℕ → Callback
  abandoned : Callback

unfoldable pub on_callback : Fetch → Callback → Fetch
on_callback f (started now made dialled) = http_start f now made dialled
on_callback f (connected err written) = http_on_connected f err written
on_callback f (received chunk ok now) = http_on_recv f chunk ok now
on_callback f (errored err) = http_on_err f err
on_callback f abandoned = record (http_reset f) { http = http_idle }

unfoldable pub fetch_run : Fetch → List Callback → Fetch
fetch_run f [] = f
fetch_run f (x ∷ xs) = fetch_run (on_callback f x) xs
