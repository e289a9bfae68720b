-- ===== src/Emit/Filter/Parse/RoundTrip.antt =====
-- A printed filter is read back by `Filter::parse` of crates/obs-core/src/filter.rs.
use obs.Prelude.{
  inl, inr, true, false, Bool, Bool-cases, ℕ, ◌≡◌, refl, sym, ◌∙◌, true, false, Option, none, some,
  List, [], ◌∷◌, ◌++◌, append_assoc, map, foldl, Text, ok, All,
}
use obs.Emit.Severity.{Severity, unspecified, trace, debug, info, warn, error, fatal}
use obs.Emit.Severity.Names.{as_str}
use obs.Emit.Filter.{Directive, Filter, new, add}
use obs.Emit.Filter.Split.{
  is_closed, pos, split_directives, split_loop, join, split_directives-join,
}
use obs.Emit.Filter.Winnow.{Winnow}
use obs.Emit.Filter.Grammar.{trim_start, trim_end, trim, directive_full, unwrap_or}
use obs.Emit.Filter.Grammar.Printed.{
  print_block, print_level, print_directive, print_headed, is_bare, IsPrintable, Piece,
  print_option, print_piece, IsPrintableOption, IsPiece,
}
use obs.Emit.Filter.Grammar.ReadBack.{directive_full-print_directive}
use obs.Emit.Filter.Parse.{
  as_malformed, parse_directive, add_directive, add_piece, parse_loop, parse,
}
use obs.Emit.Filter.Parse.Closed.{print_piece-closed}
use obs.Emit.Filter.Parse.Trimmed.{trim-print_piece, trim-print_directive}

append-cons :
    (xs : Text) (c : ℕ) (ys : Text) → (d : ℕ) × (rest : Text) × (xs ++ (c ∷ ys) ≡ d ∷ rest)
append-cons [] c ys = (c, ys, refl)
append-cons (x ∷ xs) c ys = (x, xs ++ (c ∷ ys), refl)

print_level-cons :
    (is_off : Bool) (floor : Severity)
    → (c : ℕ) × (rest : Text) × (print_level is_off floor ≡ c ∷ rest)
unfolding print_level as_str
print_level-cons true floor = (_, _, refl)
print_level-cons false unspecified = (_, _, refl)
print_level-cons false trace = (_, _, refl)
print_level-cons false debug = (_, _, refl)
print_level-cons false info = (_, _, refl)
print_level-cons false warn = (_, _, refl)
print_level-cons false error = (_, _, refl)
print_level-cons false fatal = (_, _, refl)

print_directive-cons : (d : Directive) → (c : ℕ) × (rest : Text) × (print_directive d ≡ c ∷ rest)
unfolding print_directive print_headed
print_directive-cons d = elim (Bool-cases (is_bare d.target d.fields)) [
  | inl e ↦ rw (print_directive, e) (print_level-cons d.is_off d.floor)
  | inr e ↦
      let level : Text = print_level d.is_off d.floor in
      let front : Text = unwrap_or [] d.target ++ print_block d.fields in
      let (c, rest, q) = append-cons front b'=' level in
      (
        c,
        rest,
        rw (print_directive, e)
            (sym (append_assoc (unwrap_or [] d.target) (print_block d.fields) (b'=' ∷ level)) ∙ q),
      )
]

-- What a piece without a directive leaves as it was.
unfoldable pub add_option : Filter → Option Directive → Filter
unfolding add
add_option f none = f
add_option f (some d) = add d f

module _ (w : Winnow) where
  add_directive-print_directive :
      (d : Directive) (f : Filter)
      → IsPrintable d
      → add_directive w (print_directive d) f ≡ ok (add d f)
  unfolding add_directive parse_directive as_malformed
  add_directive-print_directive d f h =
      rw
        (
          trim-print_directive d h,
          w.parse_whole (directive_full w) (print_directive d)
              (directive_full-print_directive w d h),
        )
        refl

  add_piece-cons :
      (s : Text) (f : Filter)
      → ((c : ℕ) × (rest : Text) × (s ≡ c ∷ rest))
      → add_piece w s f ≡ add_directive w s f
  unfolding add_piece
  add_piece-cons s f (c, rest, e) = rw e refl

  add_piece-print_option :
      (o : Option Directive) (f : Filter)
      → IsPrintableOption o
      → add_piece w (print_option o) f ≡ ok (add_option f o)
  unfolding print_option add_piece add_option
  add_piece-print_option none f h = refl
  add_piece-print_option (some d) f h =
      add_piece-cons (print_directive d) f (print_directive-cons d)
      ∙ add_directive-print_directive d f h

  parse_loop-print_piece :
      (ps : List Piece) (f : Filter)
      → All IsPiece ps
      → parse_loop w (map print_piece ps) f ≡ ok (foldl (λ g p. add_option g p.directive) f ps)
  unfolding parse_loop
  parse_loop-print_piece [] f h = refl
  parse_loop-print_piece (p ∷ ps) f h =
      rw (trim-print_piece p h.0, add_piece-print_option p.directive f h.0.directive_ok)
        (parse_loop-print_piece ps (add_option f p.directive) h.1)

  print_pieces-closed :
      (ps : List Piece)
      → All IsPiece ps
      → All (λ t. is_closed (pos 0) false t ≡ true) (map print_piece ps)
  print_pieces-closed [] h = tt
  print_pieces-closed (p ∷ ps) h = (print_piece-closed p h.0, print_pieces-closed ps h.1)

  -- With combinators that meet the laws of `Winnow`, the filter that is parsed from pieces with
  -- commas between them, each a printed directive with blanks around it or blanks alone, is the one
  -- that the directives make, added in their order to the empty filter. The names of a directive
  -- hold the characters that are allowed, no value holds a quote, and an `off` has the level trace.
  pub parse-print :
      (ps : List Piece)
      → All IsPiece ps
      → parse w (join (map print_piece ps)) ≡ ok (foldl (λ f p. add_option f p.directive) new ps)
  unfolding parse
  parse-print [] h =
      unfold split_directives split_loop join parse_loop trim trim_start trim_end add_piece in refl
  parse-print (p ∷ ps) h =
      rw
        (split_directives-join (print_piece p) (map print_piece ps)
          (print_pieces-closed (p ∷ ps) h))
        (parse_loop-print_piece (p ∷ ps) new h)
