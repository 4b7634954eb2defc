-- ===== src/Settings/Text.antt =====
-- What the parser of source/awg_config.c does with text: `trim`, and the calls of the C library
-- (fgets, strchr, strrchr, strtok, strtol, strtoul, atoi) as newlib has them, with a 64-bit long.
use sys_amneziawg.Common.{
  ℕ, zero, suc, ◌+◌, ◌-◌, ◌*◌, ◌%◌, ◌^◌, min, Bool, true, false, ◌&&◌, ◌||◌, Option, none, some,
  List, [], ◌∷◌, ◌++◌, ltb, ◌==◌, if◌then◌else◌, ℤ, pos, negsuc,
}
use sys_amneziawg.Common.Int.{pos_part, neg_part}
use sys_amneziawg.Obfuscation.Base64.{within}
use sys_amneziawg.Obfuscation.Parse.{is_nil}

abbrev pub is_blank : ℕ → Bool
is_blank x = x == b' ' || x == b'\t'

abbrev pub is_end_blank : ℕ → Bool
is_end_blank x = x == b'\n' || (x == b'\r' || is_blank x)

unfoldable pub trim_end : List ℕ → List ℕ
trim_end [] = []
trim_end (x ∷ xs) = let rest = trim_end xs in if is_nil rest && is_end_blank x then [] else x ∷ rest

unfoldable pub trim_start : List ℕ → List ℕ
trim_start [] = []
trim_start (x ∷ xs) = let rest = trim_start xs in if is_blank x then rest else x ∷ xs

unfoldable pub trim : List ℕ → List ℕ
trim s = trim_start (trim_end s)

-- The next line of a file with its newline, cut after `room` bytes, and what is left of the file.
unfoldable pub gets : ℕ → List ℕ → List ℕ × List ℕ
gets zero file = ([], file)
gets (suc room) [] = ([], [])
gets (suc room) (x ∷ xs) =
    let (line, rest) = gets room xs in if x == b'\n' then (x ∷ [], xs) else (x ∷ line, rest)

-- strrchr: what stands before the last x, and what comes after it.
unfoldable pub cut_last : ℕ → List ℕ → Option (List ℕ × List ℕ)
cut_last x [] = none
cut_last x (y ∷ ys) = elim (cut_last x ys) [
  | some (front, back) ↦ some (y ∷ front, back)
  | none ↦ if y == x then some ([], ys) else none
]

abbrev is_separator : ℕ → Bool
is_separator x = x == b',' || x == b' '

abbrev close : List ℕ → List (List ℕ) → List (List ℕ)
close word rest = if is_nil word then rest else word ∷ rest

-- strtok with the separators ", ".
unfoldable pub tokens_from : List ℕ → List ℕ → List (List ℕ)
tokens_from word [] = close word []
tokens_from word (x ∷ xs) =
    let fresh = tokens_from [] xs in
    let longer = tokens_from (word ++ x ∷ []) xs in
    if is_separator x then close word fresh else longer

unfoldable pub tokens : List ℕ → List (List ℕ)
tokens v = tokens_from [] v

-- isspace, in the C locale.
abbrev is_space : ℕ → Bool
is_space x = x == b' ' || within 9 13 x

unfoldable pub skip_space : List ℕ → List ℕ
skip_space [] = []
skip_space (x ∷ xs) = let rest = skip_space xs in if is_space x then rest else x ∷ xs

abbrev pub is_digit : ℕ → Bool
is_digit x = within b'0' b'9' x

-- The value of the digits in front, on top of acc, and what follows them.
unfoldable pub number : ℕ → List ℕ → ℕ × List ℕ
number acc [] = (acc, [])
number acc (x ∷ xs) =
    let more = number (acc * 10 + (x - b'0')) xs in if is_digit x then more else (acc, x ∷ xs)

abbrev minus : ℕ → ℤ
minus zero = pos 0
minus (suc n) = negsuc n

-- The sign, true for '-', and what follows it.
unfoldable pub sign : List ℕ → Bool × List ℕ
sign [] = (false, [])
sign (x ∷ xs) = if x == b'-' then (true, xs) else if x == b'+' then (false, xs) else (false, x ∷ xs)

unfoldable pub starts_with_digit : List ℕ → Bool
starts_with_digit [] = false
starts_with_digit (x ∷ xs) = is_digit x

-- strtol to base 10 with its end; no digits leave the whole string. It stops at the bounds of long.
unfoldable pub strtol : List ℕ → ℤ × List ℕ
strtol s =
    let (negative, t) = sign (skip_space s) in
    let (n, rest) = number 0 t in
    let value = if negative then minus (min n (2 ^ 63)) else pos (min n (2 ^ 63 - 1)) in
    if starts_with_digit t then (value, rest) else (pos 0, s)

-- strtoul to base 10: a sign negates the word; it stops at the bound.
unfoldable pub strtoul : List ℕ → ℕ
strtoul s =
    let (negative, t) = sign (skip_space s) in
    let n = (number 0 t).0 in
    if ltb (2 ^ 64 - 1) n then 2 ^ 64 - 1 else if negative then (2 ^ 64 - n) % 2 ^ 64 else n

-- (int)a of a long.
unfoldable pub to_int : ℤ → ℤ
to_int a =
    let w = (pos_part a % 2 ^ 32 + 2 ^ 32 - neg_part a % 2 ^ 32) % 2 ^ 32 in
    if ltb w (2 ^ 31) then pos w else negsuc (2 ^ 32 - w - 1)

unfoldable pub atoi : List ℕ → ℤ
atoi s = to_int (strtol s).0

-- strtol as the templates use it: nothing may be left behind the number, nor may it be negative.
unfoldable pub whole_number : List ℕ → Option ℕ
whole_number s =
    let (a, rest) = strtol s in
    elim a [ pos n ↦ if is_nil rest then some n else none | negsuc n ↦ none ]
