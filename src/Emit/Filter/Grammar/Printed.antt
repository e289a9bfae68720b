-- ===== src/Emit/Filter/Grammar/Printed.antt =====
-- Directives as texts, in the form that the grammar of crates/obs-core/src/filter.rs reads.
use obs.Prelude.{
  ℕ, ◌≡◌, Bool, true, false, ◌&&◌, Option, none, some, List, [], ◌∷◌, ◌++◌, Text, codes, All,
  if◌then◌else◌,
}
use obs.Emit.Severity.{Severity, trace}
use obs.Emit.Severity.Names.{as_str}
use obs.Emit.Filter.{Directive}
use obs.Emit.Filter.Winnow.{all_of, is_multispace}
use obs.Emit.Filter.Grammar.{is_target_char, is_field_key_char, is_quoted_value_char, unwrap_or}

-- The key, and the value in quotes.
unfoldable pub print_clause : Text × Text → Text
print_clause (key, value) = key ++ (b'=' ∷ b'"' ∷ (value ++ (b'"' ∷ [])))

unfoldable pub print_clauses : List (Text × Text) → Text
unfolding print_clause
print_clauses [] = []
print_clauses (f ∷ []) = print_clause f
print_clauses (f ∷ g ∷ fs) = print_clause f ++ (b',' ∷ print_clauses (g ∷ fs))

unfoldable pub print_block : List (Text × Text) → Text
unfolding print_clauses
print_block [] = []
print_block (f ∷ fs) = b'[' ∷ (print_clauses (f ∷ fs) ++ (b']' ∷ []))

unfoldable pub print_level : Bool → Severity → Text
unfolding as_str
print_level true floor = codes "off"
print_level false floor = as_str floor

-- A directive with a target or fields, or with an empty head.
unfoldable pub print_headed : Directive → Text
unfolding print_block print_level unwrap_or
print_headed d =
    unwrap_or [] d.target ++ (print_block d.fields ++ (b'=' ∷ print_level d.is_off d.floor))

unfoldable pub is_bare : Option Text → List (Text × Text) → Bool
is_bare none [] = true
is_bare none (f ∷ fs) = false
is_bare (some t) fields = false

-- A directive without target and fields is its level alone, `info` or `off`.
unfoldable pub print_directive : Directive → Text
unfolding print_headed is_bare print_level
print_directive d =
    if is_bare d.target d.fields then print_level d.is_off d.floor else print_headed d

unfoldable pub is_word : (ℕ → Bool) → Text → Bool
is_word p [] = false
is_word p (c ∷ s) = all_of p (c ∷ s)

unfoldable pub is_clause : Text × Text → Bool
unfolding is_word is_field_key_char is_quoted_value_char
is_clause (key, value) = is_word is_field_key_char key && all_of is_quoted_value_char value

unfoldable pub is_target : Option Text → Bool
unfolding is_word is_target_char
is_target none = true
is_target (some t) = is_word is_target_char t

-- An `off` has the level that the grammar gives it.
unfoldable pub is_floor : Bool → Severity → Bool
is_floor true trace = true
is_floor true _ = false
is_floor false floor = true

-- The names hold characters that the grammar takes, and no value holds a quote.
pub record IsPrintable (d : Directive) : Type 0 where
  pub target_ok : is_target d.target ≡ true
  pub fields_ok : All (λ f. is_clause f ≡ true) d.fields
  pub floor_ok : is_floor d.is_off d.floor ≡ true

-- A piece between commas: a directive with blanks around it, or blanks alone.
pub record Piece : Type 0 where
  pub front : Text
  pub directive : Option Directive
  pub back : Text

unfoldable pub print_option : Option Directive → Text
unfolding print_directive
print_option none = []
print_option (some d) = print_directive d

unfoldable pub print_piece : Piece → Text
unfolding print_option
print_piece p = p.front ++ (print_option p.directive ++ p.back)

abbrev pub IsPrintableOption : Option Directive → Type 0
IsPrintableOption none = Unit
IsPrintableOption (some d) = IsPrintable d

pub record IsPiece (p : Piece) : Type 0 where
  pub front_ok : all_of is_multispace p.front ≡ true
  pub directive_ok : IsPrintableOption p.directive
  pub back_ok : all_of is_multispace p.back ≡ true
