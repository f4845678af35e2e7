-- ===== src/Protocol/Path.antt =====
-- `sanitize_path` of drum/sysex/protocol.h: a received path becomes one name under the root.
use drum_firmware.Base.{
  if_cases, ℕ, ◌+◌, ◌≤◌, ◌<◌, ◌≡◌, ◌≢◌, refl, ap, Bool, false, ◌||◌, List, [], ◌∷◌, length, All,
  ltb, leb, ◌==◌, if◌then◌else◌, arith, ◌-◌,
}

pub data Sanitized : Type 0 where
  success : List ℕ → Sanitized
  path_too_long invalid_character : Sanitized

abbrev pub max_path_length : ℕ
max_path_length = 64

abbrev pub slash : ℕ
slash = 0x2f

abbrev prepend : ℕ → Sanitized → Sanitized
prepend c (success path) = success (c ∷ path)
prepend c path_too_long = path_too_long
prepend c invalid_character = invalid_character

-- The characters that stop the loop with an error.
is_rejected : ℕ → Bool
is_rejected c = c == slash || ltb c 0x20 || ltb 0x7e c

-- The loop, from `out_pos` on. A NUL ends the path.
sanitize_from : ℕ → List ℕ → Sanitized
sanitize_from out_pos [] = success []
sanitize_from out_pos (c ∷ cs) =
    let rest = prepend c (sanitize_from (out_pos + 1) cs) in
    if c == 0
    then success []
    else if leb (max_path_length - 1) out_pos
    then path_too_long
    else if is_rejected c
    then invalid_character
    else rest

abbrev skip_slash : List ℕ → List ℕ
skip_slash [] = []
skip_slash (c ∷ cs) = if c == slash then cs else c ∷ cs

unfoldable pub sanitize_path : List ℕ → Sanitized
unfolding sanitize_from is_rejected
sanitize_path raw = prepend slash (sanitize_from 1 (skip_slash raw))

-- A printable character other than the slash.
abbrev pub IsNameCharacter : ℕ → Type 0
IsNameCharacter c = (0x20 ≤ c) × (c ≤ 0x7e) × (c ≢ slash)

-- An absolute path of one component that fits the buffer with its terminator.
pub record IsRootName (path : List ℕ) : Type 0 where
  pub name : List ℕ
  pub rooted : path ≡ slash ∷ name
  pub printable : All IsNameCharacter name
  pub fits : length path < max_path_length

abbrev IsSafe : ℕ → Sanitized → Type 0
IsSafe out_pos (success path) = All IsNameCharacter path × (out_pos + length path < max_path_length)
IsSafe out_pos path_too_long = Unit
IsSafe out_pos invalid_character = Unit

prepend-IsSafe :
    (out_pos c : ℕ) (r : Sanitized)
    → IsNameCharacter c
    → IsSafe (out_pos + 1) r
    → IsSafe out_pos (prepend c r)
prepend-IsSafe out_pos c (success path) h k = ((h, k.0), omega arith)
prepend-IsSafe out_pos c path_too_long h k = tt
prepend-IsSafe out_pos c invalid_character h k = tt

accepted : (c : ℕ) → is_rejected c ≡ false → IsNameCharacter c
unfolding is_rejected
accepted c h = ground arith

name_character : (c : ℕ) → IsNameCharacter c → is_rejected c ≡ false
unfolding is_rejected
name_character c h = ground arith

sanitize_from-IsSafe :
    (out_pos : ℕ) (raw : List ℕ)
    → out_pos < max_path_length
    → IsSafe out_pos (sanitize_from out_pos raw)
unfolding sanitize_from
sanitize_from-IsSafe out_pos [] h = (tt, omega arith)
sanitize_from-IsSafe out_pos (c ∷ cs) h =
    if_cases (IsSafe out_pos) (c == 0) (λ _. (tt, omega arith))
      λ _.
        if_cases (IsSafe out_pos) (leb (max_path_length - 1) out_pos) (λ _. tt)
          λ room.
            if_cases (IsSafe out_pos) (is_rejected c) (λ _. tt)
              λ ok.
                prepend-IsSafe out_pos c (sanitize_from (out_pos + 1) cs) (accepted c ok)
                  (sanitize_from-IsSafe (out_pos + 1) cs (ground arith))

IsSafe-IsRootName :
    (r : Sanitized) (path : List ℕ) → IsSafe 1 r → prepend slash r ≡ success path → IsRootName path
IsSafe-IsRootName (success name) path h e = record {
  name = name;
  rooted = cc;
  printable = h.0;
  fits = ground arith;
}
IsSafe-IsRootName path_too_long path h e = cc
IsSafe-IsRootName invalid_character path h e = cc

-- A path that is accepted is one printable name under the root: it has no further slash, no
-- control character, and fits the 64 bytes of `out_path` with its terminator.
pub sanitize_path-IsRootName :
    (raw path : List ℕ) → sanitize_path raw ≡ success path → IsRootName path
unfolding sanitize_path
sanitize_path-IsRootName raw path e =
    IsSafe-IsRootName (sanitize_from 1 (skip_slash raw)) path
      (sanitize_from-IsSafe 1 (skip_slash raw) (omega arith)) e

sanitize_from_name :
    (out_pos : ℕ) (name : List ℕ)
    → All IsNameCharacter name
    → out_pos + length name < max_path_length
    → sanitize_from out_pos name ≡ success name
unfolding sanitize_from
sanitize_from_name out_pos [] h fits = refl
sanitize_from_name out_pos (c ∷ cs) h fits =
    ground (arith, name_character c h.0, sanitize_from_name (out_pos + 1) cs h.1 (omega arith))

-- Every printable name that fits is accepted as it is, with or without its slash in front.
pub sanitize_path_accepts :
    (name : List ℕ)
    → All IsNameCharacter name
    → length name < max_path_length - 1
    → (sanitize_path (slash ∷ name) ≡ success (slash ∷ name))
      × (sanitize_path name ≡ success (slash ∷ name))
unfolding sanitize_path
sanitize_path_accepts [] h fits = (refl, refl)
sanitize_path_accepts (c ∷ cs) h fits = (
  ap (prepend slash) (sanitize_from_name 1 (c ∷ cs) h (omega arith)),
  rw skip (ap (prepend slash) (sanitize_from_name 1 (c ∷ cs) h (omega arith))),
)
  where
    skip : skip_slash (c ∷ cs) ≡ c ∷ cs
    skip = ground arith
