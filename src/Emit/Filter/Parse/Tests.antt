-- ===== src/Emit/Filter/Parse/Tests.antt =====
-- Filters that are parsed, printed and rejected.
use obs.Prelude.{
  ◌≡◌, refl, true, false, none, some, List, [], ◌∷◌, map, foldl, All, codes, text_eq, ok, err,
}
use obs.Emit.Severity.{trace, info, debug, warn}
use obs.Emit.Severity.Names.{from_str, as_str}
use obs.Emit.Filter.{Directive, new, add}
use obs.Emit.Filter.Split.{
  split_directives, split_loop, turn, is_zero, is_positive, succ, pred, join,
}
use obs.Emit.Filter.Winnow.{all_of, is_multispace, stops}
use obs.Emit.Filter.Grammar.{
  is_target_char, is_alphanumeric, is_field_key_char, is_field_value_char, is_quoted_value_char,
  target_of, directive_full,
}
use obs.Emit.Filter.Grammar.Printed.{
  print_directive, is_clause, is_target, is_floor, IsPrintable, Piece, print_piece, IsPiece,
}
use obs.Emit.Filter.Grammar.Documented.{documented}
use obs.Emit.Filter.Parse.{FilterParseError, parse}
use obs.Emit.Filter.Parse.RoundTrip.{add_option, parse-print}

abbrev quiet : Directive
quiet = record { target = some (codes "off"); fields = []; floor = trace; is_off = true }

abbrev default : Directive
default = record { target = none; fields = []; floor = debug; is_off = false }

abbrev routed : Directive
routed = record {
  target = none;
  fields = (codes "route", codes "/a,[b]") ∷ (codes "k", []) ∷ [];
  floor = warn;
  is_off = false;
}

printed : print_directive routed ≡ codes "[route=\"/a,[b]\",k=\"\"]=warn"
unfolding print_directive as_str
printed = refl

quiet-IsPrintable : IsPrintable quiet
unfolding is_target is_target_char is_alphanumeric is_floor all_of
quiet-IsPrintable = record { target_ok = refl; fields_ok = tt; floor_ok = refl }

routed-IsPrintable : IsPrintable routed
unfolding is_target is_clause is_field_key_char is_quoted_value_char is_alphanumeric is_floor all_of
routed-IsPrintable = record { target_ok = refl; fields_ok = (refl, (refl, tt)); floor_ok = refl }

-- ` off=off , ,[route="/a,[b]",k=""]=warn,debug`
abbrev pieces : List Piece
pieces =
    record { front = codes " "; directive = some quiet; back = codes " " }
    ∷ record { front = codes " "; directive = none; back = [] }
    ∷ record { front = []; directive = some routed; back = [] }
    ∷ record { front = []; directive = some default; back = [] }
    ∷ []

default-IsPrintable : IsPrintable default
unfolding is_target is_floor
default-IsPrintable = record { target_ok = refl; fields_ok = tt; floor_ok = refl }

pieces-IsPiece : All IsPiece pieces
unfolding all_of is_multispace
pieces-IsPiece = (
  record { front_ok = refl; directive_ok = quiet-IsPrintable; back_ok = refl },
  (
    record { front_ok = refl; directive_ok = tt; back_ok = refl },
    (
      record { front_ok = refl; directive_ok = routed-IsPrintable; back_ok = refl },
      (record { front_ok = refl; directive_ok = default-IsPrintable; back_ok = refl }, tt),
    ),
  ),
)

parse-print_example :
    parse documented (join (map print_piece pieces))
    ≡ ok (foldl (λ f p. add_option f p.directive) new pieces)
parse-print_example = parse-print documented pieces pieces-IsPiece

-- A level alone, a target with blanks around, and a value without quotes, which is trimmed.
mixed :
    parse documented (codes "INFO, my::app = debug,[k= v ]=off")
    ≡ ok (
        foldl
          (λ f d. add d f)
          new
          (record { target = none; fields = []; floor = info; is_off = false }
            ∷ record { target = some (codes "my::app"); fields = []; floor = debug; is_off = false }
            ∷ record {
              target = none;
              fields = (codes "k", codes "v") ∷ [];
              floor = trace;
              is_off = true;
            }
            ∷ []))
unfolding parse split_directives split_loop turn is_zero is_positive succ pred new add
    directive_full documented from_str text_eq stops all_of is_multispace target_of is_target_char
    is_field_key_char is_field_value_char
mixed = refl

-- A level without a target sets the default.
only_level : parse documented (codes "=warn") ≡ ok (record new { default_level = warn })
unfolding parse split_directives split_loop turn is_zero is_positive succ pred new add
    directive_full documented from_str text_eq target_of is_multispace is_target_char
only_level = refl

-- A bracket that stays open.
rejected :
    parse documented (codes "app[route=admin=info")
    ≡ err (FilterParseError.malformed (codes "[route=admin=info"))
unfolding parse split_directives split_loop turn is_zero is_positive succ pred new add
    directive_full documented from_str text_eq target_of is_multispace is_target_char
    is_field_key_char is_field_value_char
rejected = refl
