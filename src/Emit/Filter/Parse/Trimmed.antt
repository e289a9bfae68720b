-- ===== src/Emit/Filter/Parse/Trimmed.antt =====
-- What `trim` of crates/obs-core/src/filter.rs leaves of a printed piece.
use obs.Prelude.{
  inl, inr, Bool-cases, ℕ, ◌≡◌, refl, ◌∙◌, Bool, true, false, Option, none, some, [], ◌∷◌, ◌++◌,
  append_assoc, append-nil, Text, arith,
}
use obs.Emit.Severity.{Severity, unspecified, trace, debug, info, warn, error, fatal}
use obs.Emit.Severity.Names.{as_str}
use obs.Emit.Filter.{Directive}
use obs.Emit.Filter.Winnow.{all_of, is_multispace}
use obs.Emit.Filter.Grammar.{
  is_whitespace, trim_start, keep_before, trim_end, trim, is_target_char, is_alphanumeric, goes_on,
  unwrap_or,
}
use obs.Emit.Filter.Grammar.Printed.{
  print_block, print_level, print_directive, print_headed, is_bare, is_target, is_word, IsPrintable,
  Piece, print_option, print_piece, IsPrintableOption, IsPiece,
}
use obs.Emit.Filter.Grammar.ReadBack.{goes_on-print_block}

-- A text that ends without a blank keeps its end, whatever stands in front.
trim_end-append :
    (front : Text) {c : ℕ} {back : Text}
    → trim_end (c ∷ back) ≡ c ∷ back
    → trim_end (front ++ (c ∷ back)) ≡ front ++ (c ∷ back)
unfolding trim_end keep_before
trim_end-append [] h = h
trim_end-append (x ∷ []) h = rw (trim_end, h) refl
trim_end-append (x ∷ y ∷ front) h = rw (trim_end, trim_end-append (y ∷ front) h) refl

trim_end-print_level :
    (front : Text) (is_off : Bool) (floor : Severity)
    → trim_end (front ++ print_level is_off floor) ≡ front ++ print_level is_off floor
unfolding trim_end keep_before print_level as_str is_whitespace
trim_end-print_level front true floor = trim_end-append front refl
trim_end-print_level front false unspecified = trim_end-append front refl
trim_end-print_level front false trace = trim_end-append front refl
trim_end-print_level front false debug = trim_end-append front refl
trim_end-print_level front false info = trim_end-append front refl
trim_end-print_level front false warn = trim_end-append front refl
trim_end-print_level front false error = trim_end-append front refl
trim_end-print_level front false fatal = trim_end-append front refl

trim_start-print_level :
    (is_off : Bool) (floor : Severity) (back : Text)
    → trim_start (print_level is_off floor ++ back) ≡ print_level is_off floor ++ back
unfolding trim_start print_level as_str is_whitespace
trim_start-print_level true floor back = refl
trim_start-print_level false unspecified back = refl
trim_start-print_level false trace back = refl
trim_start-print_level false debug back = refl
trim_start-print_level false info back = refl
trim_start-print_level false warn back = refl
trim_start-print_level false error back = refl
trim_start-print_level false fatal back = refl

-- A directive starts with a target, or with what stands behind it.
trim_start-target :
    (t : Option Text) (tail : Text)
    → is_target t ≡ true
    → goes_on tail ≡ true
    → trim_start (unwrap_or [] t ++ tail) ≡ unwrap_or [] t ++ tail
unfolding trim_start unwrap_or is_target is_word goes_on all_of is_target_char is_alphanumeric
    is_whitespace
trim_start-target none [] h on = refl
trim_start-target none (c ∷ s) h on = ground arith
trim_start-target (some []) tail h on = absurd (cc)
trim_start-target (some (c ∷ cs)) tail h on = ground arith

goes_on-append : (s back : Text) → goes_on s ≡ true → goes_on (s ++ back) ≡ true
unfolding goes_on
goes_on-append [] back h = absurd (cc)
goes_on-append (c ∷ s) back h = h

trim_start-blank :
    (front s : Text) → all_of is_multispace front ≡ true → trim_start (front ++ s) ≡ trim_start s
unfolding trim_start all_of is_multispace is_whitespace
trim_start-blank [] s h = refl
trim_start-blank (c ∷ front) s h = ground (arith, trim_start-blank front s)

trim_end-blank :
    (s back : Text) → all_of is_multispace back ≡ true → trim_end (s ++ back) ≡ trim_end s
unfolding trim_end keep_before all_of is_multispace is_whitespace
trim_end-blank [] [] h = refl
trim_end-blank [] (c ∷ back) h = ground (arith, trim_end-blank [] back)
trim_end-blank (c ∷ s) back h = rw (trim_end, trim_end-blank s back h) refl

trim_end-print_headed : (d : Directive) → trim_end (print_headed d) ≡ print_headed d
unfolding print_headed
trim_end-print_headed d =
    let level : Text = print_level d.is_off d.floor in
    let front : Text = unwrap_or [] d.target ++ print_block d.fields in
    rw
      (
        ← append_assoc (unwrap_or [] d.target) (print_block d.fields) (b'=' ∷ level),
        ← append_assoc front (b'=' ∷ []) level,
      )
      (trim_end-print_level (front ++ (b'=' ∷ [])) d.is_off d.floor)

trim_end-print_directive : (d : Directive) → trim_end (print_directive d) ≡ print_directive d
unfolding print_directive
trim_end-print_directive d = elim (Bool-cases (is_bare d.target d.fields)) [
  | inl e ↦ rw (print_directive, e) (trim_end-print_level [] d.is_off d.floor)
  | inr e ↦ rw (print_directive, e) (trim_end-print_headed d)
]

trim_start-print_headed :
    (d : Directive) (back : Text)
    → IsPrintable d
    → trim_start (print_headed d ++ back) ≡ print_headed d ++ back
unfolding print_headed
trim_start-print_headed d back h =
    let word : Text = print_level d.is_off d.floor in
    let tail : Text = print_block d.fields ++ (b'=' ∷ word) in
    rw (append_assoc (unwrap_or [] d.target) tail back) (
      trim_start-target d.target (tail ++ back) h.target_ok
        (goes_on-append tail back (goes_on-print_block d.fields word)))

trim_start-print_directive :
    (d : Directive) (back : Text)
    → IsPrintable d
    → trim_start (print_directive d ++ back) ≡ print_directive d ++ back
unfolding print_directive
trim_start-print_directive d back h = elim (Bool-cases (is_bare d.target d.fields)) [
  | inl e ↦ rw (print_directive, e) (trim_start-print_level d.is_off d.floor back)
  | inr e ↦ rw (print_directive, e) (trim_start-print_headed d back h)
]

trim-print_option :
    (o : Option Directive) (back : Text)
    → IsPrintableOption o
    → all_of is_multispace back ≡ true
    → trim_end (trim_start (print_option o ++ back)) ≡ print_option o
unfolding print_option trim_start trim_end
trim-print_option none back h b =
    let blank = trim_start-blank back [] b in rw (rw append-nil at blank) refl
trim-print_option (some d) back h b =
    rw (trim_start-print_directive d back h)
      (trim_end-blank (print_directive d) back b ∙ trim_end-print_directive d)

-- Trimming a piece leaves its directive, or nothing.
pub trim-print_piece : (p : Piece) → IsPiece p → trim (print_piece p) ≡ print_option p.directive
unfolding trim print_piece
trim-print_piece p h =
    rw (trim_start-blank p.front (print_option p.directive ++ p.back) h.front_ok)
      (trim-print_option p.directive p.back h.directive_ok h.back_ok)

pub trim-print_directive :
    (d : Directive) → IsPrintable d → trim (print_directive d) ≡ print_directive d
unfolding trim
trim-print_directive d h =
    let start = trim_start-print_directive d [] h in
    rw (rw append-nil at start) (trim_end-print_directive d)
