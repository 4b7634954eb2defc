-- ===== src/Power.antt =====
-- Sleep and wake of the console, source/awg_power.c: awg_power_transition over the log of play
-- events. The service's answers are arguments.
use sys_amneziawg.Common.{
  ℕ, ◌+◌, ◌-◌, ◌≤◌, ◌<◌, ◌≡◌, ◌⊎◌, Bool, false, ◌||◌, Option, none, some, List, [], ◌∷◌, max, min,
  leb, if◌then◌else◌, arith, Bool-cases, inl, inr, take,
}

abbrev pub event_batch : ℕ
event_batch = 16

-- The static variables: whether the service runs, and the newest entry that was read, none for -1.
pub record Watch : Type 0 where
  pub ok : Bool
  pub last_end : Option ℕ

-- What a look at the log asks next: nothing, or `want` entries from `from` on.
pub data Look : Type 0 where
  quiet : Look
  read : ℕ → ℕ → Look

-- The range to read, for a newest entry `last` and an oldest one `first` that the log still has.
abbrev pub from_entry : ℕ → ℕ → ℕ → ℕ
from_entry seen first last = max (max (seen + 1) (last - (event_batch - 1))) first

abbrev pub wanted : ℕ → ℕ → ℕ
wanted from last = min (last + 1 - from) event_batch

-- awg_power_transition up to the query, where the range is known; the first look only marks where
-- the log stands.
unfoldable pub look_at : Option ℕ → ℕ → ℕ → Option ℕ × Look
look_at none first last = (some last, quiet)
look_at (some seen) first last =
    let from = from_entry seen first last in
    if leb last seen
    then (some seen, quiet)
    else if leb (wanted from last) 0
    then (some last, quiet)
    else (some seen, read from (wanted from last))

abbrev pub any_change : List Bool → Bool
any_change [] = false
any_change (e ∷ es) = e || any_change es

-- The answer of the query: for each entry whether it is a change of the power state, or none where
-- it fails.
unfoldable pub conclude_look : Option ℕ → ℕ → Look → Option (List Bool) → Option ℕ × Bool
conclude_look seen last quiet events = (seen, false)
conclude_look seen last (read from want) none = (seen, false)
conclude_look seen last (read from want) (some es) = (some last, any_change (take want es))

-- awg_power_transition: `range` is the first and the last entry, none where that query
-- fails or the log is empty.
unfoldable pub power_transition :
    Watch → Option (ℕ × ℕ) → (Look → Option (List Bool)) → Watch × Bool
power_transition w none query = (w, false)
power_transition w (some (first, last)) query =
    let (seen, look) = look_at w.last_end first last in
    let (seen', change) = conclude_look seen last look (query look) in
    if w.ok then (record w { last_end = seen' }, change) else (w, false)

-- What a look has to ask for.
abbrev pub Covers : ℕ → ℕ → ℕ → Look → Type 0
Covers seen first last quiet = (last ≤ seen) ⊎ (last < first)
Covers seen first last (read from want) =
    (seen < from)
    × (first ≤ from)
    × (from + want ≡ last + 1)
    × (want ≤ 16)
    × (0 < want)
    × ((from ≡ seen + 1) ⊎ ((from ≡ first) ⊎ (want ≡ 16)))

starts :
    (seen first last : ℕ)
    → seen < last
    → first ≤ last
    → (let from = from_entry seen first last in
        (from ≡ seen + 1) ⊎ ((from ≡ first) ⊎ (wanted from last ≡ 16)))
starts seen first last new has = elim (Bool-cases (leb (last - 15) (seen + 1))) [
  | inl near ↦ elim (Bool-cases (leb first (seen + 1))) [
    | inl within ↦ inl (ground arith)
    | inr gone ↦ inr (inl (ground arith))
  ]
  | inr far ↦ elim (Bool-cases (leb first (last - 15))) [
    | inl within ↦ inr (inr (ground arith))
    | inr gone ↦ inr (inl (ground arith))
  ]
]

-- After the first look, a look at the log asks for entries that were not read before and that the
-- log still has, up to the newest one and 16 at most, beginning with the first one not read, the oldest one there is, or so
-- that it asks for 16; it asks for none only if the log has nothing new.
pub look_at-Covers :
    (seen first last : ℕ) → Covers seen first last (look_at (some seen) first last).1
unfolding look_at
look_at-Covers seen first last = elim (Bool-cases (leb last seen)) [
  | inl old ↦ rw old (inl (ground arith))
  | inr new ↦
      let from = from_entry seen first last in
      elim (Bool-cases (leb (wanted from last) 0)) [
        | inl nothing ↦ rw (new, nothing) (inr (ground arith))
        | inr some_left ↦
            rw (new, some_left)
              (
                ground arith,
                omega arith,
                ground arith,
                ground arith,
                ground arith,
                starts seen first last (ground arith) (ground arith),
              )
      ]
]
