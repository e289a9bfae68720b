-- ===== src/Wire/Payload/Walks.antt =====
-- The shared loop of the projections against the fields that a payload holds.
use obs.Prelude.{
  ℕ, zero, suc, ◌+◌, ◌-◌, ◌≤◌, ◌≡◌, refl, sym, ◌∙◌, ◌++◌, append_assoc, append-nil, none, some,
  Option-cases, inl, inr, ◌⊎◌, List, [], ◌∷◌, foldl, Bytes, length, ok, err, arith,
}
use obs.Wire.Buffa.{Buffa, WireType, IsProtobuf}
use obs.Wire.Payload.{RawValue, Decoded, decode_field_value, Walk, done, truncated, walk_loop, walk}
use obs.Wire.Payload.Reads.{Field, Reads, decode_field_value_offset, length-decode_field_value}

Decoded-cases : (d : Decoded) → ((n : ℕ) × (d ≡ err n)) ⊎ ((p : RawValue × Bytes × ℕ) × (d ≡ ok p))
Decoded-cases (err n) = inl (n, refl)
Decoded-cases (ok p) = inr (p, refl)

module _ {b : Buffa} (proto : IsProtobuf b) {S : Type 0} (act : S → ℕ → RawValue → S) where
  abbrev act_field : S → Field → S
  act_field out f = act out f.0 f.1

  walk_loop_step :
      (fuel : ℕ) (out : S) {src mid rest : Bytes} {n : ℕ} {w : WireType} {v : RawValue} (off : ℕ)
      {off' : ℕ}
      → b.decode_tag src ≡ some (n, w, mid)
      → decode_field_value mid w (off + (length src - length mid)) ≡ ok (v, rest, off')
      → walk_loop b act (suc fuel) out src off ≡ walk_loop b act fuel (act out n v) rest off'
  unfolding walk_loop
  walk_loop_step fuel out {src = []} off t e =
      absurd (omega (arith, proto.decode_tag_takes [] _ _ _ t))
  walk_loop_step fuel out {src = c ∷ cs} off t e = ground (arith, t, e)

  walk_loop-Reads :
      (fuel : ℕ) (out : S) {src : Bytes} {fs : List Field} (off : ℕ)
      → Reads b src fs
      → length src ≤ fuel
      → walk_loop b act fuel out src off ≡ done (foldl act_field out fs)
  walk_loop-Reads fuel out off Reads.end h = unfold walk_loop in refl
  walk_loop-Reads zero out off (Reads.field off1 t e r) h =
      absurd (omega (arith, proto.decode_tag_takes _ _ _ _ t))
  walk_loop-Reads (suc fuel) out {src} off
        (Reads.field {mid = mid} {n = n} {w = w} off1 {v = v} t e r) h =
      let (off2, e2) = decode_field_value_offset mid w off1 (off + (length src - length mid)) e in
      walk_loop_step fuel out off t e2
      ∙ walk_loop-Reads fuel (act out n v) off2 r
          (omega (arith, proto.decode_tag_takes _ _ _ _ t, length-decode_field_value mid w off1 e))

  walk_loop_bad_tag :
      (fuel : ℕ) (out : S) (c : ℕ) (cs : Bytes) (off : ℕ)
      → b.decode_tag (c ∷ cs) ≡ none
      → walk_loop b act (suc fuel) out (c ∷ cs) off ≡ truncated off out
  unfolding walk_loop
  walk_loop_bad_tag fuel out c cs off t = ground (arith, t)

  walk_loop_bad_value :
      (fuel : ℕ) (out : S) (c : ℕ) (cs mid : Bytes) {n : ℕ} {w : WireType} (off : ℕ) {at_offset : ℕ}
      → b.decode_tag (c ∷ cs) ≡ some (n, w, mid)
      → decode_field_value mid w (off + (length (c ∷ cs) - length mid)) ≡ err at_offset
      → walk_loop b act (suc fuel) out (c ∷ cs) off ≡ truncated at_offset out
  unfolding walk_loop
  walk_loop_bad_value fuel out c cs mid off t e = ground (arith, t, e)

  -- How the loop can end: it has read the whole payload, or it met its end inside a field.
  abbrev Ended : S → Bytes → Walk S → Type 0
  Ended out src r =
      ((fs : List Field) × Reads b src fs × (r ≡ done (foldl act_field out fs)))
      ⊎ ((at_offset : ℕ) × (out' : S) × (r ≡ truncated at_offset out'))

  walk_loop_ends :
      (fuel : ℕ) (out : S) (src : Bytes) (off : ℕ)
      → length src ≤ fuel
      → Ended out src (walk_loop b act fuel out src off)
  walk_loop_ends fuel out [] off h = inl ([], Reads.end, unfold walk_loop in refl)
  walk_loop_ends zero out (c ∷ cs) off h = absurd (omega arith)
  walk_loop_ends (suc fuel) out (c ∷ cs) off h = elim (Option-cases (b.decode_tag (c ∷ cs))) [
    | inl t ↦ inr (off, out, walk_loop_bad_tag fuel out c cs off t)
    | inr ((n, w, mid), t) ↦
        elim (Decoded-cases (decode_field_value mid w (off + (length (c ∷ cs) - length mid)))) [
          | inl (at_offset, e) ↦ inr (at_offset, out, walk_loop_bad_value fuel out c cs mid off t e)
          | inr ((v, rest, off'), e) ↦
              elim (walk_loop_ends fuel (act out n v) rest off' (
                omega
                  (arith, proto.decode_tag_takes _ _ _ _ t, length-decode_field_value mid w _ e))) [
                    | inl (fs, r, q) ↦
                        inl ((n, v) ∷ fs, Reads.field _ t e r, walk_loop_step fuel out off t e ∙ q)
                    | inr (o, out', q) ↦ inr (o, out', walk_loop_step fuel out off t e ∙ q)
                  ]
        ]
  ]

-- Where a payload holds the fields `fs`, a projection folds its action over `fs` in order.
pub walk-Reads :
    {b : Buffa} (proto : IsProtobuf b) {S : Type 0} (act : S → ℕ → RawValue → S) (out : S)
    {payload : Bytes} {fs : List Field}
    → Reads b payload fs
    → walk b act out payload ≡ done (foldl (λ s f. act s f.0 f.1) out fs)
unfolding walk
walk-Reads proto act out r = walk_loop-Reads proto act _ out 0 r (omega arith)

-- A projection ends on every payload: it reports a truncation, or the payload holds some fields
-- and its action has been folded over them.
pub walk_ends :
    {b : Buffa} (proto : IsProtobuf b) {S : Type 0} (act : S → ℕ → RawValue → S) (out : S)
    (payload : Bytes)
    → ((fs : List Field) × Reads b payload fs
        × (walk b act out payload ≡ done (foldl (λ s f. act s f.0 f.1) out fs)))
      ⊎ ((at_offset : ℕ) × (out' : S) × (walk b act out payload ≡ truncated at_offset out'))
unfolding walk
walk_ends proto act out payload = walk_loop_ends proto act _ out payload 0 (omega arith)

collect : List Field → ℕ → RawValue → List Field
collect acc n v = acc ++ ((n, v) ∷ [])

foldl-collect : (fs acc : List Field) → foldl (λ s f. collect s f.0 f.1) acc fs ≡ acc ++ fs
unfolding collect
foldl-collect [] acc = sym (append-nil acc)
foldl-collect (f ∷ fs) acc = foldl-collect fs (acc ++ (f ∷ [])) ∙ append_assoc acc (f ∷ []) fs

done-injective : {S : Type 0} {a c : S} → done a ≡ done c → a ≡ c
done-injective e = cc

-- A payload holds one list of fields at most.
pub Reads-unique :
    {b : Buffa} (proto : IsProtobuf b) {payload : Bytes} {fs gs : List Field}
    → Reads b payload fs
    → Reads b payload gs
    → fs ≡ gs
Reads-unique proto {fs = fs} {gs = gs} r s =
    sym (foldl-collect fs [])
    ∙ done-injective (sym (walk-Reads proto collect [] r) ∙ walk-Reads proto collect [] s)
    ∙ foldl-collect gs []
