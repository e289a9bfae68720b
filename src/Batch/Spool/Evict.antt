-- ===== src/Batch/Spool/Evict.antt =====
-- crates/obs-sink-batch/src/spool.rs: which files `evict_to_cap` removes, whatever removals fail.
use obs.Prelude.{ℕ, ◌+◌, ◌≤◌, ◌<◌, ◌≡◌, ◌⊎◌, Bool, List, [], ◌∷◌, ◌++◌, Text, length, if◌then◌else◌}
use obs.Batch.Spool.{File, DirAnswers}

abbrev pub total_bytes : List File → ℕ
total_bytes [] = 0
total_bytes (f ∷ fs) = length f.content + total_bytes fs

-- The files whose removal fails.
abbrev pub stuck : (Text → Bool) → List File → List File
stuck can_unlink [] = []
stuck can_unlink (f ∷ fs) =
    if can_unlink f.path then stuck can_unlink fs else f ∷ stuck can_unlink fs

-- No file is tried without need: with it and all that is behind it the spool is above its cap.
abbrev pub IsNeeded : ℕ → ℕ → List File → List File → Type 0
IsNeeded other max_bytes [] rest = Unit
IsNeeded other max_bytes (f ∷ tried) rest =
    max_bytes < other + total_bytes ((f ∷ tried) ++ rest) × IsNeeded other max_bytes tried rest

module _ (a : DirAnswers) (max_bytes : ℕ) where
  -- The files fall into those whose removal is tried, the oldest, and the rest.
  pub record Evicts (files kept : List File) : Type 0 where
    pub tried : List File
    pub rest : List File
    pub together : files ≡ tried ++ rest
    pub stays : kept ≡ stuck a.can_unlink tried ++ rest
    pub within : (rest ≡ []) ⊎ (a.other_bytes + total_bytes rest ≤ max_bytes)
    pub needed : IsNeeded a.other_bytes max_bytes tried rest
