-- ===== src/Proxy/Host.antt =====
-- Hostnames of the proxy, source/awg_proxy.c: host_normalise and host_denied. A name is the list of
-- its bytes; what stands from the first zero on is no part of it.
pub mod Labels
pub mod Normal
pub mod Denied
use sys_amneziawg.Common.{
  ℕ, zero, suc, ◌+◌, ◌-◌, Bool, true, false, not, ◌&&◌, ◌||◌, Option, none, some, List, [], ◌∷◌,
  length, take, drop, map, get_or, ltb, leb, ◌==◌, if◌then◌else◌,
}

-- strlen: what stands before the first zero.
unfoldable pub c_string : List ℕ → List ℕ
c_string [] = []
c_string (x ∷ xs) = let rest = c_string xs in if x == 0 then [] else x ∷ rest

-- '.'.
abbrev pub dot : ℕ
dot = b'.'

-- while (n > 0 && h[n - 1] == '.') --n.
unfoldable pub strip_dots : List ℕ → ℕ → ℕ
strip_dots h zero = 0
strip_dots h (suc n) = let rest = strip_dots h n in if get_or h n 0 == dot then rest else suc n

abbrev pub is_in : ℕ → ℕ → ℕ → Bool
is_in lo hi x = leb lo x && leb x hi

-- A letter, a digit, '-' or '_'.
unfoldable pub is_host_char : ℕ → Bool
is_host_char x =
    is_in b'a' b'z' x || (is_in b'A' b'Z' x || (is_in b'0' b'9' x || (x == b'-' || x == b'_')))

-- The loop over the characters, with `label_empty`.
unfoldable pub host_ok : Bool → List ℕ → Bool
host_ok label_empty [] = not label_empty
host_ok label_empty (x ∷ xs) =
    let after_dot = host_ok true xs in
    let in_label = host_ok false xs in
    if x == dot
    then (if label_empty then false else after_dot)
    else if is_host_char x
    then in_label
    else false

-- The normalised name, if it is accepted.
unfoldable pub host_normalise : List ℕ → Option (List ℕ)
host_normalise h =
    let s = c_string h in
    let n = strip_dots s (length s) in
    if n == 0 || ltb 253 n then none else if host_ok true (take n s) then some (take n s) else none

-- tolower, in the C locale.
unfoldable pub to_lower : ℕ → ℕ
to_lower x = if is_in b'A' b'Z' x then x + 32 else x

abbrev pub equal_bytes : List ℕ → List ℕ → Bool
equal_bytes [] [] = true
equal_bytes [] (y ∷ ys) = false
equal_bytes (x ∷ xs) [] = false
equal_bytes (x ∷ xs) (y ∷ ys) = x == y && equal_bytes xs ys

-- strcasecmp(a, b) == 0.
abbrev pub equal_no_case : List ℕ → List ℕ → Bool
equal_no_case a b = equal_bytes (map to_lower a) (map to_lower b)

-- One turn of the loop over the suffixes.
unfoldable pub has_suffix : List ℕ → List ℕ → Bool
has_suffix host suffix =
    let hl = length host in
    let sl = length suffix in
    if ltb hl sl
    then false
    else if equal_no_case (drop (hl - sl) host) suffix
    then hl == sl || get_or host (hl - sl - 1) 0 == dot
    else false

-- "nintendo.", and the three suffixes.
abbrev pub nintendo : List ℕ → List ℕ
nintendo top = b'n' ∷ b'i' ∷ b'n' ∷ b't' ∷ b'e' ∷ b'n' ∷ b'd' ∷ b'o' ∷ b'.' ∷ top

abbrev pub deny_suffix : List (List ℕ)
deny_suffix =
    nintendo (b'n' ∷ b'e' ∷ b't' ∷ [])
    ∷ nintendo (b'c' ∷ b'o' ∷ b'm' ∷ [])
    ∷ nintendo (b'c' ∷ b'o' ∷ b'.' ∷ b'j' ∷ b'p' ∷ [])
    ∷ []

abbrev pub any_suffix : List (List ℕ) → List ℕ → Bool
any_suffix [] host = false
any_suffix (d ∷ ds) host = has_suffix host d || any_suffix ds host

unfoldable pub host_denied : List ℕ → Bool
host_denied host = any_suffix deny_suffix host
