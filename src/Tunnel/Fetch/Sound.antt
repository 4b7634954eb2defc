-- ===== src/Tunnel/Fetch/Sound.antt =====
-- The HTTP probe over any sequence of lwIP's callbacks: its buffer and its verdict.
use sys_amneziawg.Common.{
  ℕ, ◌≤◌, ◌<◌, ◌≡◌, Bool, true, false, ◌||◌, Option, none, some, List, [], ◌∷◌, length, take, ltb,
  ◌==◌, arith, All, Bool-cases, inl, inr, length-take,
}
use sys_amneziawg.Tunnel.Fetch.{
  Fetch, http_reset, Callback, started, connected, received, errored, abandoned, on_callback,
  fetch_run, status_line, take_chunk, http_on_recv, http_on_err, http_on_connected, http_start,
  is_done,
}

-- A byte of a status line.
abbrev pub IsPlain : ℕ → Type 0
IsPlain x = (x == 0 || (x == b'\r' || x == b'\n')) ≡ false

-- The line leaves room for its zero, holds no end of a line, and a fetch that is done got bytes.
pub record Sound (f : Fetch) : Type 0 where
  pub fits : length f.line < 64
  pub plain : All IsPlain f.line
  pub got : is_done f.http ≡ true → 0 < f.bytes

length-status_line : (xs : List ℕ) → length (status_line xs) ≤ length xs
unfolding status_line
length-status_line [] = omega arith
length-status_line (x ∷ xs) = ground (arith, length-status_line xs)

status_line-plain : (xs : List ℕ) → All IsPlain (status_line xs)
unfolding status_line
status_line-plain [] = tt
status_line-plain (x ∷ xs) = elim (Bool-cases (x == 0 || (x == b'\r' || x == b'\n'))) [
  | inl stop ↦ rw stop tt
  | inr goes ↦ rw goes (goes, status_line-plain xs)
]

take_chunk-Sound : (f : Fetch) (chunk : List ℕ) (now : ℕ) → Sound f → Sound (take_chunk f chunk now)
unfolding take_chunk
take_chunk-Sound f chunk now h = elim (Bool-cases (f.bytes == 0)) [
  | inl first ↦ rw first record {
    fits = omega (arith, length-status_line (take 63 chunk), length-take 63 chunk);
    plain = status_line-plain (take 63 chunk);
    got = λ e. cc;
  }
  | inr later ↦ rw later record { fits = h.fits; plain = h.plain; got = λ e. cc }
]

http_on_recv-Sound :
    (f : Fetch) (chunk : Option (List ℕ)) (ok : Bool) (now : ℕ)
    → Sound f
    → Sound (http_on_recv f chunk ok now)
unfolding http_on_recv
http_on_recv-Sound f none ok now h = elim (Bool-cases (ltb 0 f.bytes)) [
  | inl some_bytes ↦
      rw some_bytes record { fits = h.fits; plain = h.plain; got = λ e. ground (arith, some_bytes) }
  | inr empty ↦ rw empty record { fits = h.fits; plain = h.plain; got = λ e. cc }
]
http_on_recv-Sound f (some chunk) true now h = take_chunk-Sound f chunk now h
http_on_recv-Sound f (some chunk) false now h = record {
  fits = h.fits;
  plain = h.plain;
  got = λ e. cc;
}

http_start-Sound :
    (f : Fetch) (now : ℕ) (made dialled : Bool) → Sound (http_start f now made dialled)
unfolding http_start http_reset
http_start-Sound f now true true = record { fits = omega arith; plain = tt; got = λ e. cc }
http_start-Sound f now true false = record { fits = omega arith; plain = tt; got = λ e. cc }
http_start-Sound f now false dialled = record { fits = omega arith; plain = tt; got = λ e. cc }

http_on_connected-Sound :
    (f : Fetch) (err : Option ℕ) (written : Bool)
    → Sound f
    → Sound (http_on_connected f err written)
unfolding http_on_connected
http_on_connected-Sound f none true h = record { fits = h.fits; plain = h.plain; got = λ e. cc }
http_on_connected-Sound f none false h = record { fits = h.fits; plain = h.plain; got = λ e. cc }
http_on_connected-Sound f (some err) written h = record {
  fits = h.fits;
  plain = h.plain;
  got = λ e. cc;
}

on_callback-Sound : (f : Fetch) (x : Callback) → Sound f → Sound (on_callback f x)
unfolding on_callback http_on_err http_reset
on_callback-Sound f (started now made dialled) h = http_start-Sound f now made dialled
on_callback-Sound f (connected err written) h = http_on_connected-Sound f err written h
on_callback-Sound f (received chunk ok now) h = http_on_recv-Sound f chunk ok now h
on_callback-Sound f (errored err) h = record { fits = h.fits; plain = h.plain; got = λ e. cc }
on_callback-Sound f abandoned h = record { fits = h.fits; plain = h.plain; got = λ e. cc }

-- Over any sequence of callbacks, starts and resets, from a sound state on, the line of the probe
-- leaves room for its zero and holds no end of a line, and a fetch that is done got bytes.
pub fetch_run-Sound : (f : Fetch) (xs : List Callback) → Sound f → Sound (fetch_run f xs)
unfolding fetch_run
fetch_run-Sound f [] h = h
fetch_run-Sound f (x ∷ xs) h = fetch_run-Sound (on_callback f x) xs (on_callback-Sound f x h)
