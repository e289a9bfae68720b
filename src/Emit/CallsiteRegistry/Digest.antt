-- ===== src/Emit/CallsiteRegistry/Digest.antt =====
-- A function of bytes that is as long as the hash, for concrete inputs.
use obs.Prelude.{ℕ, zero, suc, ◌%◌, ◌<◌, refl, [], ◌∷◌, Bytes, length, All, arith}
use obs.Emit.CallsiteRegistry.Ids.{IsHash}

-- A stand-in for the hash: the length of what it is given, then sevens.
unfoldable pub sevens : ℕ → Bytes
sevens zero = []
sevens (suc n) = 7 ∷ sevens n

unfoldable pub digest : Bytes → Bytes
digest bs = (length bs % 256) ∷ sevens 31

sevens-All : (n : ℕ) → All (λ b. b < 256) (sevens n)
unfolding sevens
sevens-All zero = tt
sevens-All (suc n) = (omega arith, sevens-All n)

pub digest-IsHash : IsHash digest
unfolding digest sevens
digest-IsHash = record { is_32 = λ bs. refl; are_bytes = λ bs. (omega arith, sevens-All 31) }
