-- ===== src/Tests/Fetches.antt =====
-- The HTTP probe over the callbacks of one fetch.
use sys_amneziawg.Common.{ℕ, ◌≡◌, refl, true, none, some, List, [], ◌∷◌, replicate, length, arith}
use sys_amneziawg.Tunnel.Fetch.{
  http_done, http_failed, initial_fetch, http_reset, status_line, take_chunk, http_on_recv,
  http_on_connected, http_start, Callback, started, connected, received, on_callback, fetch_run,
}
use sys_amneziawg.Tunnel.Fetch.Sound.{Sound, fetch_run-Sound}

-- "HTTP/1.1 301" with its end of line, and a body that stands for the rest.
abbrev reply : List ℕ
reply = 72 ∷ 84 ∷ 84 ∷ 80 ∷ 47 ∷ 49 ∷ 46 ∷ 49 ∷ 32 ∷ 51 ∷ 48 ∷ 49 ∷ 13 ∷ 10 ∷ replicate 80 65

abbrev fetch : List Callback
fetch =
    started 1000 true true
    ∷ connected none true
    ∷ received (some reply) true 1050
    ∷ received (some (replicate 100 66)) true 1060
    ∷ received none true 1070
    ∷ []

fetch_run_example : Sound (fetch_run initial_fetch fetch)
fetch_run_example =
    fetch_run-Sound initial_fetch fetch (record { fits = omega arith; plain = tt; got = λ e. cc })

fetch_run_line :
    ((fetch_run initial_fetch fetch).http ≡ http_done)
    × (length (fetch_run initial_fetch fetch).line ≡ 12)
    × ((fetch_run initial_fetch fetch).ms ≡ 70)
unfolding fetch_run on_callback http_start http_reset http_on_connected http_on_recv take_chunk
    status_line
fetch_run_line = (refl, refl, refl)

fetch_run_empty :
    (fetch_run initial_fetch (started 0 true true ∷ received none true 5 ∷ [])).http ≡ http_failed
unfolding fetch_run on_callback http_start http_reset http_on_recv
fetch_run_empty = refl
