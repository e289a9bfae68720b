-- ===== src/Emit/Filter/Grammar/ReadBack.antt =====
-- A whole directive, read back by `directive_full` of crates/obs-core/src/filter.rs.
use obs.Prelude.{
  ◌≡◌, refl, sym, ap, ◌∙◌, inl, inr, Bool, true, false, Option, none, some, List, [], ◌∷◌, ◌++◌,
  append-nil, Text, codes, text_eq, if◌then◌else◌, ok, Result-cases, Bool-cases, All, arith,
}
use obs.Emit.Severity.{Severity, unspecified, trace, debug, info, warn, error, fatal}
use obs.Emit.Severity.Names.{as_str, to_ascii_lowercase, from_str}
use obs.Emit.Filter.{Directive}
use obs.Emit.Filter.Winnow.{done, backtrack, Winnow, stops, all_of, is_multispace}
use obs.Emit.Filter.Grammar.{
  is_alphanumeric, is_target_char, says_off, goes_on, unless_goes_on, known_level, level_or_cut,
  unwrap_or, target_of, bare_off, bare_level, field_clause_block, head, cut_level_or_off, headed,
  or_headed, or_level, directive_full,
}
use obs.Emit.Filter.Grammar.Printed.{
  print_block, print_level, print_directive, print_headed, is_bare, is_word, is_clause, is_target,
  is_floor, IsPrintable,
}
use obs.Emit.Filter.Grammar.Fields.{stops-target, multispace0_none, field_clause_block-print_block}

-- Where a directive goes on, no target and no blanks do.
stops-goes_on : (s : Text) → goes_on s ≡ true → stops is_target_char s ≡ true
unfolding goes_on stops is_target_char is_alphanumeric
stops-goes_on [] h = refl
stops-goes_on (c ∷ s) h = ground arith

-- What stands behind the target.
pub goes_on-print_block :
    (fields : List (Text × Text)) (word : Text)
    → goes_on (print_block fields ++ (b'=' ∷ word)) ≡ true
unfolding goes_on print_block
goes_on-print_block [] word = refl
goes_on-print_block (f ∷ fs) word = refl

pub stops-target_part :
    (t : Option Text) (tail : Text)
    → is_target t ≡ true
    → goes_on tail ≡ true
    → stops is_multispace (unwrap_or [] t ++ tail) ≡ true
unfolding unwrap_or is_target is_word goes_on stops is_multispace
stops-target_part none [] h on = refl
stops-target_part none (c ∷ s) h on = ground arith
stops-target_part (some []) tail h on = absurd (cc)
stops-target_part (some (c ∷ cs)) tail h on = stops-target c (cs ++ tail) cs h

is_bare_lem :
    (t : Option Text) (fields : List (Text × Text))
    → is_bare t fields ≡ true
    → (t ≡ none) × (fields ≡ [])
unfolding is_bare
is_bare_lem none [] h = (refl, refl)
is_bare_lem none (f ∷ fs) h = absurd (cc)
is_bare_lem (some t) fields h = absurd (cc)

module _ (w : Winnow) where
  open w use {
    take_while, multispace0, literal, opt, preceded, take_while_run, take_while_few, literal_same,
    literal_other, opt_done, opt_backtrack, preceded_done,
  }

  -- A target that is followed by fields or a level is neither `off` nor a level.
  bare_off-target :
      (t : Option Text) (tail : Text)
      → is_target t ≡ true
      → goes_on tail ≡ true
      → bare_off w (unwrap_or [] t ++ tail) ≡ backtrack
  unfolding bare_off is_target is_word unwrap_or all_of unless_goes_on
  bare_off-target none tail h on =
      rw (take_while_few 1 is_target_char [] tail refl (stops-goes_on tail on) (omega arith)) refl
  bare_off-target (some []) tail h on = absurd (cc)
  bare_off-target (some (c ∷ cs)) tail h on =
      let taken =
        take_while_run 1 is_target_char (c ∷ cs) tail h (stops-goes_on tail on) (omega arith) in
      elim (Bool-cases (says_off (c ∷ cs))) [
        | inl e ↦ rw (taken, e, on) refl
        | inr e ↦ rw (taken, e) refl
      ]

  bare_level-target :
      (t : Option Text) (tail : Text)
      → is_target t ≡ true
      → goes_on tail ≡ true
      → bare_level w (unwrap_or [] t ++ tail) ≡ backtrack
  unfolding bare_level is_target is_word unwrap_or all_of unless_goes_on known_level
  bare_level-target none tail h on =
      rw (take_while_few 1 is_target_char [] tail refl (stops-goes_on tail on) (omega arith)) refl
  bare_level-target (some []) tail h on = absurd (cc)
  bare_level-target (some (c ∷ cs)) tail h on =
      let taken =
        take_while_run 1 is_target_char (c ∷ cs) tail h (stops-goes_on tail on) (omega arith) in
      elim (Result-cases (from_str (c ∷ cs))) [
        | inl (level, e) ↦ rw (taken, e, on) refl
        | inr (never, e) ↦ rw (taken, e) refl
      ]

  head-target :
      (t : Option Text) (tail : Text)
      → is_target t ≡ true
      → goes_on tail ≡ true
      → {fields : Option (List (Text × Text))} {rest : Text}
      → opt (field_clause_block w) tail ≡ done fields rest
      → head w (unwrap_or [] t ++ tail) ≡ done (t, unwrap_or [] fields) rest
  unfolding head is_target is_word unwrap_or all_of target_of
  head-target none tail h on e =
      rw (take_while_run 0 is_target_char [] tail refl (stops-goes_on tail on) (omega arith), e)
        refl
  head-target (some []) tail h on e = absurd (cc)
  head-target (some (c ∷ cs)) tail h on e =
      rw (take_while_run 0 is_target_char (c ∷ cs) tail h (stops-goes_on tail on) (omega arith), e)
        refl

  opt-print_block :
      (fields : List (Text × Text)) (word : Text)
      → All (λ g. is_clause g ≡ true) fields
      → (found : Option (List (Text × Text))) × (opt
            (field_clause_block w)
            (print_block fields ++ (b'=' ∷ word))
          ≡ done found (b'=' ∷ word))
        × (unwrap_or [] found ≡ fields)
  unfolding unwrap_or field_clause_block print_block
  opt-print_block [] word h = (
    none,
    opt_backtrack (field_clause_block w) (b'=' ∷ word)
        (rw (literal_other b'[' b'=' word (λ e. absurd (omega arith))) refl),
    refl,
  )
  opt-print_block (f ∷ fs) word h = (
    some (f ∷ fs),
    opt_done (field_clause_block w) _ (field_clause_block-print_block w f fs (b'=' ∷ word) h),
    refl,
  )

  cut_level_or_off-word :
      (word : Text)
      → is_word is_target_char word ≡ true
      → cut_level_or_off w word
        ≡ (if says_off word then (λ s. done (trace, true) s) else level_or_cut (from_str word)) []
  unfolding cut_level_or_off is_word stops
  cut_level_or_off-word [] h = absurd (cc)
  cut_level_or_off-word (c ∷ cs) h =
      let taken = take_while_run 1 is_target_char (c ∷ cs) [] h refl (omega arith) in
      rw (multispace0_none w (c ∷ cs) (stops-target c cs cs h), rw append-nil at taken) refl

  cut_level_or_off-print_level :
      (is_off : Bool) (floor : Severity)
      → is_floor is_off floor ≡ true
      → cut_level_or_off w (print_level is_off floor) ≡ done (floor, is_off) []
  unfolding print_level is_floor as_str says_off to_ascii_lowercase text_eq level_or_cut is_word
      is_target_char is_alphanumeric all_of from_str
  cut_level_or_off-print_level true trace h = cut_level_or_off-word (codes "off") refl
  cut_level_or_off-print_level true _ h = absurd (cc)
  cut_level_or_off-print_level false trace h = cut_level_or_off-word (codes "trace") refl
  cut_level_or_off-print_level false debug h = cut_level_or_off-word (codes "debug") refl
  cut_level_or_off-print_level false info h = cut_level_or_off-word (codes "info") refl
  cut_level_or_off-print_level false warn h = cut_level_or_off-word (codes "warn") refl
  cut_level_or_off-print_level false error h = cut_level_or_off-word (codes "error") refl
  cut_level_or_off-print_level false fatal h = cut_level_or_off-word (codes "fatal") refl
  cut_level_or_off-print_level false unspecified h =
      cut_level_or_off-word (codes "unspecified") refl

  headed-print_headed : (d : Directive) → IsPrintable d → headed w (print_headed d) ≡ done d []
  unfolding headed print_headed stops is_multispace unwrap_or
  headed-print_headed d h =
      let word : Text = print_level d.is_off d.floor in
      let (found, blocked, is_fields) = opt-print_block d.fields word h.fields_ok in
      let leveled = opt_done (preceded (literal b'=') (cut_level_or_off w)) (b'=' ∷ word) (
        preceded_done (literal b'=') (cut_level_or_off w) (b'=' ∷ word) (literal_same b'=' word)
        ∙ cut_level_or_off-print_level d.is_off d.floor h.floor_ok) in
      rw
        (
          head-target d.target _ h.target_ok (goes_on-print_block d.fields word) blocked,
          multispace0_none w (b'=' ∷ word) refl,
          leveled,
          multispace0_none w [] refl,
          is_fields,
        )
        refl

  directive_full-print_headed :
      (d : Directive) → IsPrintable d → directive_full w (print_headed d) ≡ done d []
  unfolding directive_full or_level or_headed print_headed
  directive_full-print_headed d h =
      let on = goes_on-print_block d.fields (print_level d.is_off d.floor) in
      rw
        (
          multispace0_none w (print_headed d) (stops-target_part d.target _ h.target_ok on),
          opt_backtrack (bare_off w) (print_headed d) (bare_off-target d.target _ h.target_ok on),
          opt_backtrack (bare_level w) (print_headed d)
              (bare_level-target d.target _ h.target_ok on),
        )
        (headed-print_headed d h)

  -- A word that ends the text.
  take_word :
      (word : Text)
      → is_word is_target_char word ≡ true
      → (take_while 1 is_target_char word ≡ done word []) × (stops is_multispace word ≡ true)
  unfolding is_word stops
  take_word [] h = absurd (cc)
  take_word (c ∷ cs) h =
      let taken = take_while_run 1 is_target_char (c ∷ cs) [] h refl (omega arith) in
      (rw append-nil at taken, stops-target c cs cs h)

  directive_full-off :
      (word : Text)
      → is_word is_target_char word ≡ true
      → says_off word ≡ true
      → directive_full w word
        ≡ done (record { target = none; fields = []; floor = trace; is_off = true }) []
  unfolding directive_full or_level bare_off unless_goes_on goes_on stops
  directive_full-off word h off =
      let (taken, start) = take_word word h in
      let vetoes : bare_off w word ≡ done tt [] = rw (taken, off) refl in
      rw
        (
          multispace0_none w word start,
          opt_done (bare_off w) word vetoes,
          multispace0_none w [] refl,
        )
        refl

  directive_full-level :
      (word : Text) (level : Severity)
      → is_word is_target_char word ≡ true
      → says_off word ≡ false
      → from_str word ≡ ok level
      → directive_full w word
        ≡ done (record { target = none; fields = []; floor = level; is_off = false }) []
  unfolding directive_full or_level or_headed bare_off bare_level known_level unless_goes_on goes_on
      stops
  directive_full-level word level h on known =
      let (taken, start) = take_word word h in
      let no_veto : bare_off w word ≡ backtrack = rw (taken, on) refl in
      let leveled : bare_level w word ≡ done level [] = rw (taken, known) refl in
      rw
        (
          multispace0_none w word start,
          opt_backtrack (bare_off w) word no_veto,
          opt_done (bare_level w) word leveled,
          multispace0_none w [] refl,
        )
        refl

  directive_full-print_level :
      (is_off : Bool) (floor : Severity)
      → is_floor is_off floor ≡ true
      → directive_full w (print_level is_off floor)
        ≡ done (record { target = none; fields = []; floor = floor; is_off = is_off }) []
  unfolding print_level is_floor as_str says_off to_ascii_lowercase text_eq is_word is_target_char
      is_alphanumeric all_of from_str
  directive_full-print_level true trace h = directive_full-off (codes "off") refl refl
  directive_full-print_level true _ h = absurd (cc)
  directive_full-print_level false trace h =
      directive_full-level (codes "trace") trace refl refl refl
  directive_full-print_level false debug h =
      directive_full-level (codes "debug") debug refl refl refl
  directive_full-print_level false info h = directive_full-level (codes "info") info refl refl refl
  directive_full-print_level false warn h = directive_full-level (codes "warn") warn refl refl refl
  directive_full-print_level false error h =
      directive_full-level (codes "error") error refl refl refl
  directive_full-print_level false fatal h =
      directive_full-level (codes "fatal") fatal refl refl refl
  directive_full-print_level false unspecified h =
      directive_full-level (codes "unspecified") unspecified refl refl refl

  -- A printed directive is read back, up to the end of the text.
  pub directive_full-print_directive :
      (d : Directive) → IsPrintable d → directive_full w (print_directive d) ≡ done d []
  unfolding print_directive
  directive_full-print_directive d h = elim (Bool-cases (is_bare d.target d.fields)) [
    | inr e ↦ rw (print_directive, e) (directive_full-print_headed d h)
    | inl e ↦
        let (no_target, no_fields) = is_bare_lem d.target d.fields e in
        let same : ◌≡◌ {A = Directive}
            (record { target = none; fields = []; floor = d.floor; is_off = d.is_off }) d =
          λ i. record {
            target = sym no_target i;
            fields = sym no_fields i;
            floor = d.floor;
            is_off = d.is_off;
          } in
        rw (print_directive, e)
          (directive_full-print_level d.is_off d.floor h.floor_ok ∙ ap (λ t. done t []) same)
  ]
