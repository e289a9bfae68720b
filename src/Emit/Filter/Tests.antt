-- ===== src/Emit/Filter/Tests.antt =====
-- Filter texts that are split into their directives.
use obs.Prelude.{◌≡◌, refl, [], ◌∷◌, Text}
use obs.Emit.Filter.Split.{is_zero, is_positive, succ, pred, turn, split_loop, split_directives}

-- `a,b[k=",",x]` and, with an unmatched `]`, `a],b` , which is one piece.
abbrev with_fields : Text
with_fields = b'b' ∷ b'[' ∷ b'k' ∷ b'=' ∷ b'"' ∷ b',' ∷ b'"' ∷ b',' ∷ b'x' ∷ b']' ∷ []

splits : split_directives (b'a' ∷ b',' ∷ with_fields) ≡ (b'a' ∷ []) ∷ with_fields ∷ []
unfolding split_directives split_loop turn is_zero is_positive succ
splits = refl

splits_not :
    split_directives (b'a' ∷ b']' ∷ b',' ∷ b'b' ∷ []) ≡ (b'a' ∷ b']' ∷ b',' ∷ b'b' ∷ []) ∷ []
unfolding split_directives split_loop turn is_zero pred
splits_not = refl
