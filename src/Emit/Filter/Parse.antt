-- ===== src/Emit/Filter/Parse.antt =====
-- `parse_directive`, `Filter::add_directive` and `Filter::parse` of crates/obs-core/src/filter.rs.
pub mod Closed
pub mod Trimmed
mod Tests
pub mod RoundTrip
use obs.Prelude.{
  ◌≡◌, refl, sym, ap, ◌∙◌, Bool, true, false, List, [], ◌∷◌, ◌++◌, map, foldl, Text, Result, ok,
  err, ◌>>=◌, All,
}
use obs.Emit.Filter.{Directive, Filter, new, add}
use obs.Emit.Filter.Split.{split_directives, join}
use obs.Emit.Filter.Winnow.{Winnow}
use obs.Emit.Filter.Grammar.{trim, directive_full}

pub data FilterParseError : Type 0 where
  malformed : Text → FilterParseError

unfoldable pub as_malformed : Result Text Directive → Result FilterParseError Directive
as_malformed (ok d) = ok d
as_malformed (err message) = err (malformed message)

module _ (w : Winnow) where
  unfoldable pub parse_directive : Text → Result FilterParseError Directive
  unfolding as_malformed directive_full trim
  parse_directive raw = as_malformed (w.parse (directive_full w) (trim raw))

  unfoldable pub add_directive : Text → Filter → Result FilterParseError Filter
  unfolding parse_directive add
  add_directive raw f = do directive ← parse_directive raw; ok (add directive f)

  -- A trimmed piece, which is passed over when it is empty.
  unfoldable pub add_piece : Text → Filter → Result FilterParseError Filter
  unfolding add_directive
  add_piece [] f = ok f
  add_piece (c ∷ s) f = add_directive (c ∷ s) f

  unfoldable pub parse_loop : List Text → Filter → Result FilterParseError Filter
  unfolding add_piece trim
  parse_loop [] f = ok f
  parse_loop (raw ∷ raws) f = do g ← add_piece (trim raw) f; parse_loop raws g

  unfoldable pub parse : Text → Result FilterParseError Filter
  unfolding parse_loop split_directives new
  parse s = parse_loop (split_directives s) new
