-- ===== src/Str/Layout.antt =====
-- How C strings lie in memory.
use os1_meaty_skeleton.Prelude.{ℕ, ◌+◌, ◌≤◌, ◌<◌, ◌≡◌, List, [], ◌∷◌, arith, length}
use os1_meaty_skeleton.Str.{Bytes}

-- The characters `xs`, none of them 0, and a terminator lie at `p`.
abbrev pub HasString : Bytes → ℕ → List ℕ → Type 0
HasString m p [] = m p ≡ 0
HasString m p (c ∷ cs) = (m p ≡ c) × (0 < c) × (c < 256) × HasString m (p + 1) cs

-- A string survives any change outside its own bytes.
pub HasString-frame :
    (m m' : Bytes) (p : ℕ) (xs : List ℕ)
    → ((x : ℕ) → p ≤ x → x ≤ p + length xs → m' x ≡ m x)
    → HasString m p xs
    → HasString m' p xs
HasString-frame m m' p [] same h = ground (arith, same p)
HasString-frame m m' p (c ∷ cs) same h = (
  ground (arith, same p),
  h.1,
  h.2,
  HasString-frame m m' (p + 1) cs (λ x lo hi. same x (omega arith) (omega arith)) h.3,
)
