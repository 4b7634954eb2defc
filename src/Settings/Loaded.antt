-- ===== src/Settings/Loaded.antt =====
-- What a configuration that is loaded holds, and that the loop over the lines ends.
use sys_amneziawg.Common.{
  ℕ, zero, suc, ◌≤◌, ◌<◌, ◌≡◌, refl, subst, Bool, true, false, Option, none, some, List, [], ◌∷◌,
  length, get_or, ◌==◌, if◌then◌else◌, arith, Bool-cases, inl, inr,
}
use sys_amneziawg.Types.{Config}
use sys_amneziawg.Obfuscation.Parse.{cut_at, is_nil}
use sys_amneziawg.Proxy.Host.{c_string}
use sys_amneziawg.Settings.Text.{trim, gets}
use sys_amneziawg.Settings.Keys.{Outcome, kept, bad, setting}
use sys_amneziawg.Settings.Load.{
  defaults, Reading, reading, refused, proceed, read_setting, read_named, read_line, read_lines,
  loaded, demand, check_required, config_load,
}
use sys_amneziawg.Settings.Fields.{Fits, OutcomeFits, setting-Fits}

abbrev ReadingFits : Reading → Type 0
ReadingFits (reading in_peer cfg) = Fits cfg
ReadingFits (refused n why) = Unit

defaults-Fits : Fits defaults
unfolding defaults
defaults-Fits = ground arith

choose :
    (test : Bool) (a b : Reading)
    → ReadingFits a
    → ReadingFits b
    → ReadingFits (if test then a else b)
choose true a b ha hb = ha
choose false a b ha hb = hb

proceed-Fits :
    (in_peer : Bool) (n : ℕ) (o : Outcome) → OutcomeFits o → ReadingFits (proceed in_peer n o)
unfolding proceed
proceed-Fits in_peer n (kept cfg) h = h
proceed-Fits in_peer n (bad why) h = tt

read_setting-Fits :
    (in_peer : Bool) (n : ℕ) (cfg : Config) (k v : List ℕ)
    → Fits cfg
    → ReadingFits (read_setting in_peer n cfg k v)
unfolding read_setting
read_setting-Fits in_peer n cfg k v h =
    choose (is_nil k) (reading in_peer cfg) (proceed in_peer n (setting in_peer cfg k v)) h
      (proceed-Fits in_peer n (setting in_peer cfg k v) (setting-Fits in_peer cfg k v h))

read_named-Fits :
    (in_peer : Bool) (n : ℕ) (cfg : Config) (name : List ℕ) (value : Option (List ℕ))
    → Fits cfg
    → ReadingFits (read_named in_peer n cfg name value)
unfolding read_named
read_named-Fits in_peer n cfg name none h = h
read_named-Fits in_peer n cfg name (some v) h =
    read_setting-Fits in_peer n cfg (trim name) (trim v) h

read_line-Fits :
    (in_peer : Bool) (n : ℕ) (cfg : Config) (raw : List ℕ)
    → Fits cfg
    → ReadingFits (read_line in_peer n cfg raw)
unfolding read_line
read_line-Fits in_peer n cfg raw h =
    let line = trim (cut_at b'#' (c_string raw)).0 in
    choose (is_nil line) _ _ h (
      choose (get_or line 0 0 == b'[') _ _ h
        (read_named-Fits in_peer n cfg (cut_at b'=' line).0 (cut_at b'=' line).1 h))

read_lines-Fits :
    (fuel n : ℕ) (r : Reading) (file : List ℕ)
    → ReadingFits r
    → ReadingFits (read_lines fuel n r file)
unfolding read_lines
read_lines-Fits fuel n (refused m why) file h = tt
read_lines-Fits zero n (reading in_peer cfg) file h = h
read_lines-Fits (suc fuel) n (reading in_peer cfg) [] h = h
read_lines-Fits (suc fuel) n (reading in_peer cfg) (x ∷ xs) h =
    let line = (gets 8191 (x ∷ xs)).0 in
    read_lines-Fits fuel (suc n) (read_line in_peer (suc n) cfg line) (gets 8191 (x ∷ xs)).1
      (read_line-Fits in_peer (suc n) cfg line h)

-- A configuration that can be used: types that fit, and the three settings that are required.
pub record IsComplete (cfg : Config) : Type 0 where
  pub fits : Fits cfg
  pub private_key : cfg.have_private_key ≡ true
  pub public_key : cfg.have_peer_public_key ≡ true
  pub host : 0 < length cfg.endpoint_host

not_nil : (xs : List ℕ) → is_nil xs ≡ false → 0 < length xs
not_nil [] e = absurd cc
not_nil (x ∷ xs) e = omega arith

demand_inv :
    (private public empty : Bool) (got cfg : Config)
    → demand private public empty got ≡ loaded cfg
    → (private ≡ true) × (public ≡ true) × (empty ≡ false) × (got ≡ cfg)
unfolding demand
demand_inv false public empty got cfg e = absurd cc
demand_inv true false empty got cfg e = absurd cc
demand_inv true true true got cfg e = absurd cc
demand_inv true true false got cfg e = (refl, refl, refl, cc)

required :
    (r : Reading) (cfg : Config) → ReadingFits r → check_required r ≡ loaded cfg → IsComplete cfg
unfolding check_required
required (refused n why) cfg h e = absurd cc
required (reading in_peer got) cfg h e =
    let (private, public, named, same_cfg) = demand_inv _ _ _ got cfg e in
    subst IsComplete same_cfg (record {
      fits = h;
      private_key = private;
      public_key = public;
      host = not_nil got.endpoint_host named;
    })

-- A file that loads gives a private key, the peer's public key and an endpoint, and a value of its
-- C type in every field: keys of 32 bytes, words, ints, at most four name servers, five templates,
-- and a host name that leaves room for its zero.
pub config_load-IsComplete :
    (file : Option (List ℕ)) (cfg : Config) → config_load file ≡ loaded cfg → IsComplete cfg
unfolding config_load
config_load-IsComplete none cfg e = absurd cc
config_load-IsComplete (some file) cfg e =
    required (read_lines (suc (length file)) 0 (reading false defaults) file) cfg
      (read_lines-Fits (suc (length file)) 0 (reading false defaults) file defaults-Fits) e

gets-le : (room : ℕ) (xs : List ℕ) → length (gets room xs).1 ≤ length xs
unfolding gets
gets-le zero xs = omega arith
gets-le (suc room) [] = omega arith
gets-le (suc room) (x ∷ xs) = elim (Bool-cases (x == b'\n')) [
  | inl ends ↦ rw ends (omega arith)
  | inr goes ↦ rw goes (omega (arith, gets-le room xs))
]

gets-shorter : (room x : ℕ) (xs : List ℕ) → length (gets (suc room) (x ∷ xs)).1 ≤ length xs
unfolding gets
gets-shorter room x xs = elim (Bool-cases (x == b'\n')) [
  | inl ends ↦ rw ends (omega arith)
  | inr goes ↦ rw goes (gets-le room xs)
]

-- Any fuel above the length of a file gives the loop over its lines the same result, so that it is
-- never cut short.
pub read_lines-fuel :
    (fuel more n : ℕ) (r : Reading) (file : List ℕ)
    → length file < fuel
    → length file < more
    → read_lines fuel n r file ≡ read_lines more n r file
unfolding read_lines
read_lines-fuel fuel more n (refused m why) file h h' = refl
read_lines-fuel zero more n (reading in_peer cfg) file h h' = absurd (omega (arith, h))
read_lines-fuel (suc fuel) zero n (reading in_peer cfg) file h h' = absurd (omega (arith, h'))
read_lines-fuel (suc fuel) (suc more) n (reading in_peer cfg) [] h h' = refl
read_lines-fuel (suc fuel) (suc more) n (reading in_peer cfg) (x ∷ xs) h h' =
    let less = gets-shorter 8190 x xs in
    read_lines-fuel fuel more (suc n) (read_line in_peer (suc n) cfg (gets 8191 (x ∷ xs)).0)
      (gets 8191 (x ∷ xs)).1 (omega (arith, less, h)) (omega (arith, less, h'))
