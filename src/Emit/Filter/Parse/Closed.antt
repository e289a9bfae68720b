-- ===== src/Emit/Filter/Parse/Closed.antt =====
-- A printed piece has no boundary for `split_directives` of crates/obs-core/src/filter.rs.
use obs.Prelude.{
  ℕ, ◌≡◌, refl, ◌∙◌, inl, inr, Bool-cases, Bool, true, false, not, ◌||◌, Option, none, some, List,
  [], ◌∷◌, ◌++◌, append_assoc, append-nil, Text, ◌==◌, All, arith,
}
use obs.Emit.Severity.{Severity, unspecified, trace, debug, info, warn, error, fatal}
use obs.Emit.Severity.Names.{as_str}
use obs.Emit.Filter.{Directive}
use obs.Emit.Filter.Winnow.{all_of, is_multispace}
use obs.Emit.Filter.Grammar.{
  is_alphanumeric, is_target_char, is_field_key_char, is_quoted_value_char, unwrap_or,
}
use obs.Emit.Filter.Grammar.Printed.{
  print_clause, print_clauses, print_block, print_level, print_directive, print_headed, is_bare,
  is_word, is_clause, is_target, IsPrintable, Piece, print_option, print_piece, IsPrintableOption,
  IsPiece,
}
use obs.Emit.Filter.Grammar.Fields.{&&-split}
use obs.Emit.Filter.Split.{ℤ, pos, succ, pred, is_zero, is_positive, turn, is_closed, go_on}

-- Characters that change neither depth nor quote, and are no boundary.
unfoldable is_plain : ℕ → Bool
is_plain c = not ((c == b'"') || ((c == b'[') || ((c == b']') || (c == b','))))

turn-plain : (depth : ℤ) (c : ℕ) → is_plain c ≡ true → turn depth false c ≡ go_on depth false
unfolding turn is_plain
turn-plain depth c h = ground arith

turn-quoted :
    (depth : ℤ) (c : ℕ) → is_quoted_value_char c ≡ true → turn depth true c ≡ go_on depth true
unfolding turn is_quoted_value_char
turn-quoted depth c h = ground arith

is_closed-plain :
    (depth : ℤ) (xs s : Text)
    → all_of is_plain xs ≡ true
    → is_closed depth false (xs ++ s) ≡ is_closed depth false s
unfolding is_closed all_of
is_closed-plain depth [] s h = refl
is_closed-plain depth (x ∷ xs) s h =
    let (here, there) = &&-split (is_plain x) h in
    rw (is_closed, turn-plain depth x here) (is_closed-plain depth xs s there)

is_closed-quoted :
    (depth : ℤ) (xs s : Text)
    → all_of is_quoted_value_char xs ≡ true
    → is_closed depth true (xs ++ s) ≡ is_closed depth true s
unfolding is_closed all_of
is_closed-quoted depth [] s h = refl
is_closed-quoted depth (x ∷ xs) s h =
    let (here, there) = &&-split (is_quoted_value_char x) h in
    rw (is_closed, turn-quoted depth x here) (is_closed-quoted depth xs s there)

all_of-weaken :
    {p q : ℕ → Bool}
    → ((c : ℕ) → p c ≡ true → q c ≡ true)
    → (xs : Text) → all_of p xs ≡ true
    → all_of q xs ≡ true
unfolding all_of
all_of-weaken h [] a = refl
all_of-weaken {p} h (x ∷ xs) a =
    let (here, there) = &&-split (p x) a in rw (h x here) (all_of-weaken h xs there)

target-plain : (c : ℕ) → is_target_char c ≡ true → is_plain c ≡ true
unfolding is_target_char is_alphanumeric is_plain
target-plain c h = ground arith

key-plain : (c : ℕ) → is_field_key_char c ≡ true → is_plain c ≡ true
unfolding is_field_key_char is_alphanumeric is_plain
key-plain c h = ground arith

blank-plain : (c : ℕ) → is_multispace c ≡ true → is_plain c ≡ true
unfolding is_multispace is_plain
blank-plain c h = ground arith

is_word→all_of : (p : ℕ → Bool) (s : Text) → is_word p s ≡ true → all_of p s ≡ true
unfolding is_word all_of
is_word→all_of p [] h = refl
is_word→all_of p (c ∷ s) h = h

-- Inside of brackets.
is_closed-print_clause :
    (f : Text × Text) (s : Text)
    → is_clause f ≡ true
    → is_closed (pos 1) false (print_clause f ++ s) ≡ is_closed (pos 1) false s
unfolding print_clause is_clause is_closed turn is_positive is_zero
is_closed-print_clause (key, value) s h =
    let (key_ok, value_ok) = &&-split (is_word is_field_key_char key) h in
    rw (append_assoc key (b'=' ∷ b'"' ∷ (value ++ (b'"' ∷ []))) s) (
      is_closed-plain (pos 1) key _
        (all_of-weaken key-plain key (is_word→all_of is_field_key_char key key_ok))
      ∙ rw (append_assoc value (b'"' ∷ []) s) (is_closed-quoted (pos 1) value (b'"' ∷ s) value_ok))

is_closed-print_clauses :
    (fs : List (Text × Text)) (s : Text)
    → All (λ f. is_clause f ≡ true) fs
    → is_closed (pos 1) false (print_clauses fs ++ s) ≡ is_closed (pos 1) false s
unfolding print_clauses is_closed turn is_positive is_zero
is_closed-print_clauses [] s h = refl
is_closed-print_clauses (f ∷ []) s h = is_closed-print_clause f s h.0
is_closed-print_clauses (f ∷ g ∷ gs) s h =
    rw (append_assoc (print_clause f) (b',' ∷ print_clauses (g ∷ gs)) s)
      (is_closed-print_clause f _ h.0 ∙ is_closed-print_clauses (g ∷ gs) s h.1)

is_closed-print_block :
    (fs : List (Text × Text)) (s : Text)
    → All (λ f. is_clause f ≡ true) fs
    → is_closed (pos 0) false (print_block fs ++ s) ≡ is_closed (pos 0) false s
unfolding print_block is_closed turn is_positive is_zero succ pred
is_closed-print_block [] s h = refl
is_closed-print_block (f ∷ fs) s h =
    rw (append_assoc (print_clauses (f ∷ fs)) (b']' ∷ []) s)
      (is_closed-print_clauses (f ∷ fs) (b']' ∷ s) h)

is_closed-print_level :
    (is_off : Bool) (floor : Severity) (s : Text)
    → is_closed (pos 0) false (print_level is_off floor ++ s) ≡ is_closed (pos 0) false s
unfolding print_level as_str is_closed turn is_positive is_zero
is_closed-print_level true floor s = refl
is_closed-print_level false unspecified s = refl
is_closed-print_level false trace s = refl
is_closed-print_level false debug s = refl
is_closed-print_level false info s = refl
is_closed-print_level false warn s = refl
is_closed-print_level false error s = refl
is_closed-print_level false fatal s = refl

is_closed-target :
    (t : Option Text) (s : Text)
    → is_target t ≡ true
    → is_closed (pos 0) false (unwrap_or [] t ++ s) ≡ is_closed (pos 0) false s
unfolding is_target unwrap_or
is_closed-target none s h = refl
is_closed-target (some t) s h =
    is_closed-plain (pos 0) t s (all_of-weaken target-plain t (is_word→all_of is_target_char t h))

is_closed-print_headed :
    (d : Directive) (s : Text)
    → IsPrintable d
    → is_closed (pos 0) false (print_headed d ++ s) ≡ is_closed (pos 0) false s
unfolding print_headed is_closed turn is_positive is_zero
is_closed-print_headed d s h =
    let level : Text = b'=' ∷ print_level d.is_off d.floor in
    rw
      (
        append_assoc (unwrap_or [] d.target) (print_block d.fields ++ level) s,
        append_assoc (print_block d.fields) level s,
      )
      (is_closed-target d.target _ h.target_ok
        ∙ is_closed-print_block d.fields _ h.fields_ok
        ∙ is_closed-print_level d.is_off d.floor s)

is_closed-print_directive :
    (d : Directive) (s : Text)
    → IsPrintable d
    → is_closed (pos 0) false (print_directive d ++ s) ≡ is_closed (pos 0) false s
unfolding print_directive
is_closed-print_directive d s h = elim (Bool-cases (is_bare d.target d.fields)) [
  | inl e ↦ rw (print_directive, e) (is_closed-print_level d.is_off d.floor s)
  | inr e ↦ rw (print_directive, e) (is_closed-print_headed d s h)
]

is_closed-blank :
    (xs s : Text)
    → all_of is_multispace xs ≡ true
    → is_closed (pos 0) false (xs ++ s) ≡ is_closed (pos 0) false s
is_closed-blank xs s h = is_closed-plain (pos 0) xs s (all_of-weaken blank-plain xs h)

is_closed-print_option :
    (o : Option Directive) (s : Text)
    → IsPrintableOption o
    → is_closed (pos 0) false (print_option o ++ s) ≡ is_closed (pos 0) false s
unfolding print_option
is_closed-print_option none s h = refl
is_closed-print_option (some d) s h = is_closed-print_directive d s h

pub print_piece-closed : (p : Piece) → IsPiece p → is_closed (pos 0) false (print_piece p) ≡ true
unfolding print_piece is_closed is_zero
print_piece-closed p h =
    let back = is_closed-blank p.back [] h.back_ok in
    is_closed-blank p.front _ h.front_ok
    ∙ is_closed-print_option p.directive p.back h.directive_ok
    ∙ rw append-nil at back
