-- ===== src/Obfuscation/Parse.antt =====
-- Parsing a template, source/awg_obf.c: build_tag and awg_obf_parse. A string is the list of its
-- bytes before the final zero; memory is taken to be there.
pub mod Fuel
use sys_amneziawg.Common.{
  ℕ, zero, suc, ◌+◌, ◌-◌, ◌*◌, ◌^◌, Bool, true, false, ◌&&◌, ◌||◌, Option, none, some, List, [],
  ◌∷◌, length, get_or, drop, ltb, ◌==◌, if◌then◌else◌,
}
use sys_amneziawg.Types.{
  ObfKind, bytes, rand, randchars, randdigits, timestamp, payload, datastring, datasize, Obf,
  ObfChain,
}
use sys_amneziawg.Obfuscation.Base64.{within, prepend}

unfoldable pub hex_val : ℕ → Option ℕ
hex_val x =
    if within b'0' b'9' x
    then some (x - b'0')
    else if within b'a' b'f' x
    then some (x - b'a' + 10)
    else if within b'A' b'F' x
    then some (x - b'A' + 10)
    else none

-- Two digits a byte; an odd digit or a bad one is refused.
unfoldable pub hex_bytes : List ℕ → Option (List ℕ)
hex_bytes [] = some []
hex_bytes (x ∷ []) = none
hex_bytes (x ∷ (y ∷ rest)) =
    let tail = hex_bytes rest in
    elim (hex_val x) [
      | none ↦ none
      | some hi ↦ elim (hex_val y) [ none ↦ none | some lo ↦ prepend (hi * 16 + lo) tail ]
    ]

abbrev pub same : List ℕ → List ℕ → Bool
same [] [] = true
same [] (y ∷ ys) = false
same (x ∷ xs) [] = false
same (x ∷ xs) (y ∷ ys) = x == y && same xs ys

-- The 0x or 0X in front of a literal.
unfoldable pub skip_0x : List ℕ → List ℕ
skip_0x v =
    if get_or v 0 0 == b'0' && (get_or v 1 0 == b'x' || get_or v 1 0 == b'X') then drop 2 v else v

abbrev pub is_nil : List ℕ → Bool
is_nil [] = true
is_nil (x ∷ xs) = false

unfoldable pub build_literal : List ℕ → Option Obf
build_literal val =
    let digits = skip_0x val in
    if is_nil val || is_nil digits then none else elim (hex_bytes digits) [
      | none ↦ none
      | some xs ↦ some (record { kind = bytes; len = 0; literal = xs })
    ]

-- The kind that takes a byte count.
unfoldable pub counted_kind : List ℕ → Option ObfKind
counted_kind key =
    if same key (b'r' ∷ [])
    then some rand
    else if same key (b'r' ∷ b'c' ∷ [])
    then some randchars
    else if same key (b'r' ∷ b'd' ∷ [])
    then some randdigits
    else if same key (b'd' ∷ b'z' ∷ [])
    then some datasize
    else none

abbrev pub max_len : ℕ
max_len = 2 ^ 20

-- What stands before the first x, and what comes after it.
unfoldable pub cut_at : ℕ → List ℕ → List ℕ × Option (List ℕ)
cut_at x [] = ([], none)
cut_at x (y ∷ ys) =
    let (front, rest) = cut_at x ys in if y == x then ([], some ys) else (y ∷ front, rest)

unfoldable pub skip_spaces : List ℕ → List ℕ
skip_spaces [] = []
skip_spaces (x ∷ xs) = let rest = skip_spaces xs in if x == b' ' then rest else x ∷ xs

abbrev pub or_nil : Option (List ℕ) → List ℕ
or_nil none = []
or_nil (some xs) = xs

-- `strtol` is the C library's: `to_long` is its value, none where it leaves a rest behind, reads
-- nothing, or gives a number below 0.
module _ (to_long : List ℕ → Option ℕ) where
  unfoldable pub build_counted : ObfKind → List ℕ → Option Obf
  build_counted kind val = if is_nil val then none else elim (to_long val) [
    | none ↦ none
    | some n ↦ if ltb max_len n then none else some (record { kind = kind; len = n; literal = [] })
  ]

  unfoldable pub build_tag : List ℕ → List ℕ → Option Obf
  build_tag key val =
      if same key (b'b' ∷ [])
      then build_literal val
      else if same key (b't' ∷ [])
      then some (record { kind = timestamp; len = 0; literal = [] })
      else if same key (b'd' ∷ [])
      then some (record { kind = payload; len = 0; literal = [] })
      else if same key (b'd' ∷ b's' ∷ [])
      then some (record { kind = datastring; len = 0; literal = [] })
      else elim (counted_kind key) [ none ↦ none | some kind ↦ build_counted kind val ]

  -- The body of a tag, split into key and argument.
  unfoldable pub parse_tag : List ℕ → Option Obf
  parse_tag tag =
      let (key, rest) = cut_at b' ' (skip_spaces tag) in build_tag key (skip_spaces (or_nil rest))

  -- The loop over the tags; each turn takes two bytes or more. An error is none.
  unfoldable pub parse_items : ℕ → List ℕ → Option (List Obf)
  parse_items zero p = some []
  parse_items (suc fuel) p =
      let (before, after_lt) = cut_at b'<' p in
      let (tag, after_gt) = cut_at b'>' (or_nil after_lt) in
      let rest = parse_items fuel (or_nil after_gt) in
      elim after_lt [
        | none ↦ some []
        | some body ↦ elim after_gt [
          | none ↦ none
          | some next ↦ elim (parse_tag tag) [
            | none ↦ none
            | some o ↦ elim rest [ none ↦ none | some os ↦ some (o ∷ os) ]
          ]
        ]
      ]

  unfoldable pub obf_parse : List ℕ → Option ObfChain
  obf_parse spec = elim (parse_items (suc (length spec)) spec) [
    | none ↦ none
    | some items ↦ elim items [
      | [] ↦ none
      | o ∷ os ↦ some (record { items = o ∷ os; spec = some spec })
    ]
  ]
