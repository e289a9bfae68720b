-- ===== src/Emit/Filter/Grammar.antt =====
-- `mod grammar` of crates/obs-core/src/filter.rs.
pub mod Printed
pub mod Fields
pub mod ReadBack
pub mod Documented
use obs.Prelude.{
  ℕ, zero, suc, ◌≡◌, refl, Bool, true, false, not, ◌&&◌, ◌||◌, Option, none, some, List, [], ◌∷◌,
  Text, codes, text_eq, leb, ◌==◌, if◌then◌else◌, Result, ok, err,
}
use obs.Emit.Severity.{Severity, trace}
use obs.Emit.Severity.Names.{to_ascii_lowercase, from_str, UnknownVariant}
use obs.Emit.Filter.{Directive, Filter, new, add}
use obs.Emit.Filter.Split.{split_directives}
use obs.Emit.Filter.Winnow.{
  Answer, done, backtrack, failure, Parser, ◌>>=◌, ◌>>◌, pure, run, Winnow,
}

unfoldable pub is_alphanumeric : ℕ → Bool
is_alphanumeric c =
    (leb b'a' c && leb c b'z') || ((leb b'A' c && leb c b'Z') || (leb b'0' c && leb c b'9'))

unfoldable pub is_target_char : ℕ → Bool
unfolding is_alphanumeric
is_target_char c =
    is_alphanumeric c || ((c == b'_') || ((c == b':') || ((c == b'.') || (c == b'-'))))

unfoldable pub is_field_key_char : ℕ → Bool
unfolding is_alphanumeric
is_field_key_char c = is_alphanumeric c || ((c == b'_') || (c == b'.'))

unfoldable pub is_field_value_char : ℕ → Bool
is_field_value_char c = not ((c == b',') || ((c == b']') || (c == b'"')))

unfoldable pub is_quoted_value_char : ℕ → Bool
is_quoted_value_char c = not (c == b'"')

-- `char::is_whitespace`
unfoldable pub is_whitespace : ℕ → Bool
is_whitespace c =
    (leb 9 c && leb c 13)
    || ((c == 32)
        || ((c == 133)
            || ((c == 160)
                || ((c == 5760)
                    || ((leb 8192 c && leb c 8202)
                        || ((c == 8232)
                            || ((c == 8233) || ((c == 8239) || ((c == 8287) || (c == 12288))))))))))

unfoldable pub trim_start : Text → Text
unfolding is_whitespace
trim_start [] = []
trim_start (c ∷ s) = let rest = trim_start s in if is_whitespace c then rest else c ∷ s

-- A character in front of what is left behind it: blank in front of nothing goes, too.
unfoldable pub keep_before : ℕ → Text → Text
unfolding is_whitespace
keep_before c [] = if is_whitespace c then [] else c ∷ []
keep_before c (d ∷ s) = c ∷ d ∷ s

unfoldable pub trim_end : Text → Text
unfolding keep_before
trim_end [] = []
trim_end (c ∷ s) = keep_before c (trim_end s)

unfoldable pub trim : Text → Text
unfolding trim_start trim_end
trim s = trim_end (trim_start s)

-- `s.eq_ignore_ascii_case("off")`
unfoldable pub says_off : Text → Bool
unfolding to_ascii_lowercase
says_off s = text_eq (to_ascii_lowercase s) (codes "off")

-- `matches!(s.chars().next(), Some('=') | Some('['))`
unfoldable pub goes_on : Text → Bool
goes_on [] = false
goes_on (c ∷ s) = (c == b'=') || (c == b'[')

-- A result where no directive goes on.
unfoldable pub unless_goes_on {ℓ} : {A : Type ℓ} → A → Parser A
unfolding goes_on
unless_goes_on a s = if goes_on s then backtrack else done a s

unfoldable pub starts_with_quote : Text → Bool
starts_with_quote [] = false
starts_with_quote (c ∷ s) = c == b'"'

-- The level that a bare word stands for.
unfoldable pub known_level : Result UnknownVariant Severity → Parser Severity
known_level (ok level) s = done level s
known_level (err e) s = backtrack

unfoldable pub level_or_cut : Result UnknownVariant Severity → Parser (Severity × Bool)
level_or_cut (ok level) s = done (level, false) s
level_or_cut (err e) s = failure

unfoldable pub unwrap_or {ℓ} : {A : Type ℓ} → A → Option A → A
unwrap_or a none = a
unwrap_or a (some b) = b

unfoldable pub target_of : Text → Option Text
target_of [] = none
target_of (c ∷ s) = some (c ∷ s)

module _ (w : Winnow) where
  open w use {take_while, multispace0, literal, opt, preceded, delimited, separated, parse}

  unfoldable pub bare_off : Parser (Unit {0})
  unfolding says_off unless_goes_on
  bare_off s = run s do
    token ← take_while 1 is_target_char
    if says_off token then unless_goes_on tt else λ _. backtrack

  unfoldable pub bare_level : Parser Severity
  unfolding known_level unless_goes_on
  bare_level s = run s do
    token ← take_while 1 is_target_char
    level ← known_level (from_str token)
    unless_goes_on level

  unfoldable pub field_value : Parser Text
  unfolding starts_with_quote trim
  field_value s =
      if starts_with_quote s
      then delimited (literal b'"') (take_while 0 is_quoted_value_char) (literal b'"') s
      else run s do raw ← take_while 0 is_field_value_char; pure (trim raw)

  unfoldable pub field_clause : Parser (Text × Text)
  unfolding field_value
  field_clause s = run s do
    multispace0
    key ← take_while 1 is_field_key_char
    multispace0
    literal b'='
    multispace0
    value ← field_value
    multispace0
    pure (key, value)

  unfoldable pub field_clause_block : Parser (List (Text × Text))
  unfolding field_clause
  field_clause_block s = run s do
    literal b'['
    multispace0
    clauses ← separated field_clause (literal b',')
    multispace0
    literal b']'
    pure clauses

  unfoldable pub head : Parser (Option Text × List (Text × Text))
  unfolding field_clause_block target_of unwrap_or
  head s = run s do
    target ← take_while 0 is_target_char
    fields ← opt field_clause_block
    pure (target_of target, unwrap_or [] fields)

  unfoldable pub cut_level_or_off : Parser (Severity × Bool)
  unfolding says_off level_or_cut
  cut_level_or_off s = run s do
    multispace0
    token ← take_while 1 is_target_char
    if says_off token then pure (trace, true) else level_or_cut (from_str token)

  -- What follows where neither `off` nor a level stands alone.
  unfoldable pub headed : Parser Directive
  unfolding head cut_level_or_off unwrap_or
  headed s = run s do
    (target, fields) ← head
    multispace0
    chosen ← opt (preceded (literal b'=') cut_level_or_off)
    multispace0
    let (floor, is_off) = unwrap_or (trace, false) chosen
    pure (record { target = target; fields = fields; floor = floor; is_off = is_off })

  unfoldable pub or_headed : Option Severity → Parser Directive
  unfolding headed
  or_headed (some level) s =
      run s
        do multispace0; pure (record { target = none; fields = []; floor = level; is_off = false })
  or_headed none s = headed s

  unfoldable pub or_level : Option (Unit {0}) → Parser Directive
  unfolding bare_level or_headed
  or_level (some _) s =
      run s
        do multispace0; pure (record { target = none; fields = []; floor = trace; is_off = true })
  or_level none s = run s do level ← opt bare_level; or_headed level

  unfoldable pub directive_full : Parser Directive
  unfolding bare_off or_level
  directive_full s = run s do multispace0; veto ← opt bare_off; or_level veto
