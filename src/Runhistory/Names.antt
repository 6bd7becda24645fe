-- ===== src/Runhistory/Names.antt =====
-- runhistory/query.go: file names built from user-supplied names.
use pm.Prelude.{
  ℕ, ◌≤◌, ◌≡◌, refl, ◌⊎◌, inl, inr, Bool, true, false, ◌&&◌, ◌||◌, List, [], ◌∷◌, ◌++◌, arith, leb,
  ◌==◌, if◌then◌else◌, Bool-cases, All, Text, codes, is_empty,
}

-- A byte that safeComponent keeps.
unfoldable pub is_safe : ℕ → Bool
is_safe r = ((leb b'a' r && leb r b'z') || (leb b'0' r && leb r b'9')) || (r == b'-' || r == b'_')

unfoldable pub clean_runes : List ℕ → Text
clean_runes [] = []
clean_runes (r ∷ rs) = (if is_safe r then r else b'-') ∷ clean_runes rs

-- safeComponent, given the runes of strings.ToLower(s), which is Go's library's.
unfoldable pub safe_component : (Text → List ℕ) → Text → Text
unfolding clean_runes is_safe
safe_component lowered s =
    let kept = clean_runes (lowered s) in if is_empty kept then codes "unnamed" else kept

-- stageLogName.
unfoldable pub stage_log_name : (Text → List ℕ) → Text → Text → Text → Text
unfolding safe_component
stage_log_name lowered workflow run_id stage =
    safe_component lowered workflow
    ++ codes "."
    ++ run_id
    ++ codes "."
    ++ safe_component lowered stage
    ++ codes ".log"

-- A lower-case letter, a digit, a dash or an underscore, by the ASCII table.
abbrev pub IsSafeByte : ℕ → Type 0
IsSafeByte b = ((97 ≤ b) × (b ≤ 122)) ⊎ (((48 ≤ b) × (b ≤ 57)) ⊎ ((b ≡ 45) ⊎ (b ≡ 95)))

is_safe-IsSafeByte : (b : ℕ) → is_safe b ≡ true → IsSafeByte b
unfolding is_safe
is_safe-IsSafeByte b h = ground arith

clean_runes-All : (rs : List ℕ) → All IsSafeByte (clean_runes rs)
unfolding clean_runes
clean_runes-All [] = tt
clean_runes-All (r ∷ rs) = elim (Bool-cases (is_safe r)) [
  | inl h ↦ rw h (is_safe-IsSafeByte r h, clean_runes-All rs)
  | inr h ↦ rw h (inr (inr (inl refl)), clean_runes-All rs)
]

-- Whatever name the user gives, its file name component is not empty and is made of lower-case
-- letters, digits, dashes and underscores alone: no slash and no dot gets through.
pub safe_component-IsSafe :
    (lowered : Text → List ℕ) (s : Text)
    → All IsSafeByte (safe_component lowered s) × (is_empty (safe_component lowered s) ≡ false)
unfolding safe_component
safe_component-IsSafe lowered s = elim (Bool-cases (is_empty (clean_runes (lowered s)))) [
  | inr e ↦ rw (e, safe_component) (clean_runes-All (lowered s), e)
  | inl e ↦ rw (e, safe_component) (unnamed_safe, refl)
]
  where
    unnamed_safe : All IsSafeByte (codes "unnamed")
    unnamed_safe = ground arith
