-- ===== src/Emit/Filter/Split.antt =====
-- `split_directives` of crates/obs-core/src/filter.rs: a filter text and its directives.
use obs.Prelude.{
  ℕ, zero, suc, ◌≡◌, refl, sym, ap, ◌∙◌, ◌⊎◌, inl, inr, Bool, true, false, not, ◌&&◌, List, [], ◌∷◌,
  ◌++◌, append_assoc, append-nil, Text, ◌==◌, if◌then◌else◌, All, arith,
}

-- An i32 that stays in its range: the depth falls below zero on an unmatched `]`.
pub data ℤ : Type 0 where
  pos negsuc : ℕ → ℤ

unfoldable pub succ : ℤ → ℤ
succ (pos n) = pos (suc n)
succ (negsuc zero) = pos zero
succ (negsuc (suc n)) = negsuc n

unfoldable pub pred : ℤ → ℤ
pred (pos zero) = negsuc zero
pred (pos (suc n)) = pos n
pred (negsuc n) = negsuc (suc n)

unfoldable pub is_zero : ℤ → Bool
is_zero (pos zero) = true
is_zero (pos (suc n)) = false
is_zero (negsuc n) = false

unfoldable pub is_positive : ℤ → Bool
is_positive (pos zero) = false
is_positive (pos (suc n)) = true
is_positive (negsuc n) = false

-- What the `match` on a character does: a boundary, or the next depth and whether a quote is open.
pub data Turn : Type 0 where
  cut : Turn
  go_on : ℤ → Bool → Turn

unfoldable pub turn : ℤ → Bool → ℕ → Turn
turn depth quoted c =
    if (c == b'"') && is_positive depth
    then go_on depth (not quoted)
    else if (c == b'[') && not quoted
    then go_on (succ depth) quoted
    else if (c == b']') && not quoted
    then go_on (pred depth) quoted
    else if (c == b',') && (is_zero depth && not quoted)
    then cut
    else go_on depth quoted

-- `piece` is the text since `start`.
unfoldable pub split_loop : ℤ → Bool → Text → Text → List Text
unfolding turn
split_loop depth quoted piece [] = piece ∷ []
split_loop depth quoted piece (c ∷ s) = elim (turn depth quoted c) [
  | cut ↦ piece ∷ split_loop depth quoted [] s
  | go_on depth' quoted' ↦ split_loop depth' quoted' (piece ++ (c ∷ [])) s
]

unfoldable pub split_directives : Text → List Text
unfolding split_loop
split_directives s = split_loop (pos 0) false [] s

-- The texts with a comma between them.
unfoldable pub join : List Text → Text
join [] = []
join (t ∷ []) = t
join (t ∷ u ∷ us) = t ++ (b',' ∷ join (u ∷ us))

-- Whether a text, read from a depth and a quote on, has no boundary and ends outside of brackets.
unfoldable pub is_closed : ℤ → Bool → Text → Bool
is_closed depth quoted [] = is_zero depth && not quoted
is_closed depth quoted (c ∷ s) = elim (turn depth quoted c) [
  | cut ↦ false
  | go_on depth' quoted' ↦ is_closed depth' quoted' s
]

Turn-cases : (t : Turn) → (t ≡ cut) ⊎ ((depth : ℤ) × (quoted : Bool) × (t ≡ go_on depth quoted))
Turn-cases cut = inl refl
Turn-cases (go_on depth quoted) = inr (depth, quoted, refl)

cut_comma : (depth : ℤ) (quoted : Bool) (c : ℕ) → turn depth quoted c ≡ cut → c ≡ b','
unfolding turn
cut_comma depth quoted c h = ground (arith, h)

split_loop-nonempty :
    (depth : ℤ) (quoted : Bool) (piece s : Text)
    → (t : Text) × (ts : List Text) × (split_loop depth quoted piece s ≡ t ∷ ts)
unfolding split_loop
split_loop-nonempty depth quoted piece [] = (piece, [], refl)
split_loop-nonempty depth quoted piece (c ∷ s) = elim (Turn-cases (turn depth quoted c)) [
  | inl e ↦ (piece, split_loop depth quoted [] s, rw (split_loop, e) refl)
  | inr (depth', quoted', e) ↦
      let (t, ts, q) = split_loop-nonempty depth' quoted' (piece ++ (c ∷ [])) s in
      (t, ts, rw (split_loop, e) q)
]

join-cons :
    (t : Text) (ts : List Text) {u : Text} {us : List Text}
    → ts ≡ u ∷ us
    → join (t ∷ ts) ≡ t ++ (b',' ∷ join ts)
unfolding join
join-cons t ts h = rw h refl

join-split_loop :
    (depth : ℤ) (quoted : Bool) (piece s : Text)
    → join (split_loop depth quoted piece s) ≡ piece ++ s
unfolding split_loop join
join-split_loop depth quoted piece [] = sym (append-nil piece)
join-split_loop depth quoted piece (c ∷ s) = elim (Turn-cases (turn depth quoted c)) [
  | inl e ↦
      let (t, ts, q) = split_loop-nonempty depth quoted [] s in
      rw (split_loop, e)
        (join-cons piece (split_loop depth quoted [] s) q
          ∙ rw (join-split_loop depth quoted [] s, cut_comma depth quoted c e) refl)
  | inr (depth', quoted', e) ↦
      rw (split_loop, e)
        (join-split_loop depth' quoted' (piece ++ (c ∷ [])) s ∙ append_assoc piece (c ∷ []) s)
]

-- The directives with commas between them are the text again.
pub join-split_directives : (s : Text) → join (split_directives s) ≡ s
unfolding split_directives
join-split_directives s = join-split_loop (pos 0) false [] s

-- A text without a boundary is one piece, and is so also in front of a comma.
split_loop-closed :
    (depth : ℤ) (quoted : Bool) (piece s : Text)
    → is_closed depth quoted s ≡ true
    → split_loop depth quoted piece s ≡ (piece ++ s) ∷ []
unfolding split_loop is_closed
split_loop-closed depth quoted piece [] h = ap (λ t. t ∷ []) (sym (append-nil piece))
split_loop-closed depth quoted piece (c ∷ s) h = elim (Turn-cases (turn depth quoted c)) [
  | inl e ↦ let never = rw (is_closed, e) at h in absurd (cc)
  | inr (depth', quoted', e) ↦
      rw (split_loop, e)
        (split_loop-closed depth' quoted' (piece ++ (c ∷ [])) s (rw (is_closed, e) at h)
          ∙ ap (λ t. t ∷ []) (append_assoc piece (c ∷ []) s))
]

split_loop-closed_comma :
    (depth : ℤ) (quoted : Bool) (piece s rest : Text)
    → is_closed depth quoted s ≡ true
    → split_loop depth quoted piece (s ++ (b',' ∷ rest))
      ≡ (piece ++ s) ∷ split_loop (pos 0) false [] rest
unfolding split_loop is_closed turn is_zero is_positive
split_loop-closed_comma (pos zero) false piece [] rest h =
    ap (λ t. t ∷ split_loop (pos 0) false [] rest) (sym (append-nil piece))
split_loop-closed_comma (pos zero) true piece [] rest h = absurd (cc)
split_loop-closed_comma (pos (suc n)) quoted piece [] rest h = absurd (cc)
split_loop-closed_comma (negsuc n) quoted piece [] rest h = absurd (cc)
split_loop-closed_comma depth quoted piece (c ∷ s) rest h =
    elim (Turn-cases (turn depth quoted c)) [
      | inl e ↦ let never = rw (is_closed, e) at h in absurd (cc)
      | inr (depth', quoted', e) ↦
          rw (split_loop, e)
            (split_loop-closed_comma depth' quoted' (piece ++ (c ∷ [])) s rest
                (rw (is_closed, e) at h)
              ∙ ap (λ t. t ∷ split_loop (pos 0) false [] rest) (append_assoc piece (c ∷ []) s))
    ]

-- Texts without a boundary of their own, with commas between them, are split into themselves.
pub split_directives-join :
    (t : Text) (ts : List Text)
    → All (λ u. is_closed (pos 0) false u ≡ true) (t ∷ ts)
    → split_directives (join (t ∷ ts)) ≡ t ∷ ts
unfolding split_directives join
split_directives-join t [] h = split_loop-closed (pos 0) false [] t h.0
split_directives-join t (u ∷ us) h =
    split_loop-closed_comma (pos 0) false [] t (join (u ∷ us)) h.0
    ∙ ap (λ r. t ∷ r) (split_directives-join u us h.1)
