-- ===== src/RateLimit/Calls.antt =====
-- Histories of calls on the in-memory limiter.
use magic_webb.Base.{
  ℕ, ◌≤◌, ◌≡◌, Bool, true, false, List, [], ◌∷◌, ◌++◌, Bytes, bytes_eq, ◌==◌, if◌then◌else◌,
}
use magic_webb.RateLimit.{Windows, allow_mem, cleanup}

pub data Call : Type 0 where
  allow : Bytes → ℕ → ℕ → ℕ → ℕ → Call
  tidy : ℕ → Call

unfoldable pub step : Windows → Call → Windows × Bool
step l (allow key limit window now now') = allow_mem l key limit window now now'
step l (tidy now) = (cleanup l now, false)

-- The instants that the limiter records as admitted for the key `k`, oldest first.
abbrev pub noted : Bytes → Call → Bool → List ℕ
noted k (allow key limit window now now') true = if key == k then now ∷ [] else []
noted k _ _ = []

unfoldable pub admitted : Bytes → Windows → List Call → List ℕ
admitted k l [] = []
admitted k l (c ∷ cs) = let (l', ok) = step l c in noted k c ok ++ admitted k l' cs

-- The clock does not go back.
abbrev pub Ordered : ℕ → List Call → Type 0
Ordered t [] = Unit
Ordered t (allow key limit window now now' ∷ cs) = (t ≤ now) × (now ≤ now') × Ordered now' cs
Ordered t (tidy now ∷ cs) = (t ≤ now) × Ordered now cs

abbrev pub finish : ℕ → List Call → ℕ
finish t [] = t
finish t (allow key limit window now now' ∷ cs) = finish now' cs
finish t (tidy now ∷ cs) = finish now cs

-- Every request for the key `k` comes with this limit and this window.
abbrev pub Uniform : Bytes → ℕ → ℕ → List Call → Type 0
Uniform k limit window [] = Unit
Uniform k limit window (allow key n w now now' ∷ cs) =
    (key ≡ k → (n ≡ limit) × (w ≡ window)) × Uniform k limit window cs
Uniform k limit window (tidy now ∷ cs) = Uniform k limit window cs
