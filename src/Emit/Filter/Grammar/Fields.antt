-- ===== src/Emit/Filter/Grammar/Fields.antt =====
-- The fields of a directive, read back by `field_clause_block` of crates/obs-core/src/filter.rs.
use obs.Prelude.{
  ℕ, ◌≡◌, refl, Bool, true, false, ◌&&◌, List, [], ◌∷◌, ◌++◌, append_assoc, Text, length-append,
  All, arith,
}
use obs.Emit.Filter.Winnow.{done, Winnow, stops, all_of, is_multispace}
use obs.Emit.Filter.Grammar.{
  is_alphanumeric, is_target_char, is_field_key_char, is_quoted_value_char, starts_with_quote,
  field_value, field_clause, field_clause_block,
}
use obs.Emit.Filter.Grammar.Printed.{print_clause, print_clauses, print_block, is_word, is_clause}

pub &&-split : (a : Bool) {b : Bool} → (a && b) ≡ true → (a ≡ true) × (b ≡ true)
&&-split true h = (refl, h)
&&-split false h = absurd (cc)

-- No name starts with a blank.
pub stops-target :
    (c : ℕ) (s cs : Text)
    → all_of is_target_char (c ∷ cs) ≡ true
    → stops is_multispace (c ∷ s) ≡ true
unfolding all_of is_target_char is_alphanumeric stops is_multispace
stops-target c s cs h = ground arith

stops-key :
    (c : ℕ) (s cs : Text)
    → all_of is_field_key_char (c ∷ cs) ≡ true
    → stops is_multispace (c ∷ s) ≡ true
unfolding all_of is_field_key_char is_alphanumeric stops is_multispace
stops-key c s cs h = ground arith

stops-print_clauses :
    (f : Text × Text) (fs : List (Text × Text)) (rest : Text)
    → is_clause f ≡ true
    → stops is_multispace (print_clauses (f ∷ fs) ++ rest) ≡ true
unfolding print_clauses print_clause is_clause is_word
stops-print_clauses ([], value) fs rest h = absurd (cc)
stops-print_clauses (c ∷ cs, value) [] rest h =
    stops-key c _ cs (&&-split (all_of is_field_key_char (c ∷ cs)) h).0
stops-print_clauses (c ∷ cs, value) (g ∷ gs) rest h =
    stops-key c _ cs (&&-split (all_of is_field_key_char (c ∷ cs)) h).0

module _ (w : Winnow) where
  open w use {
    take_while, multispace0, literal, opt, preceded, delimited, separated, take_while_run,
    take_while_few, multispace0_run, literal_same, literal_other, opt_done, opt_backtrack,
    preceded_done, delimited_done, separated_last, separated_more,
  }

  -- No blanks in front of a text that starts with none.
  pub multispace0_none : (s : Text) → stops is_multispace s ≡ true → multispace0 s ≡ done [] s
  unfolding all_of
  multispace0_none s h = multispace0_run [] s refl h

  field_value-quoted :
      (value rest : Text)
      → all_of is_quoted_value_char value ≡ true
      → field_value w (b'"' ∷ (value ++ (b'"' ∷ rest))) ≡ done value rest
  unfolding field_value starts_with_quote stops is_quoted_value_char
  field_value-quoted value rest h =
      delimited_done (literal b'"') (take_while 0 is_quoted_value_char) (literal b'"') _
        (literal_same b'"' _)
        (take_while_run 0 is_quoted_value_char value (b'"' ∷ rest) h refl (omega arith))
        (literal_same b'"' rest)

  field_clause-parts :
      (key value rest : Text)
      → is_clause (key, value) ≡ true
      → stops is_multispace rest ≡ true
      → field_clause w (key ++ (b'=' ∷ b'"' ∷ (value ++ (b'"' ∷ rest)))) ≡ done (key, value) rest
  unfolding field_clause is_clause is_word stops is_multispace is_field_key_char is_alphanumeric
  field_clause-parts [] value rest h stop = absurd (cc)
  field_clause-parts (c ∷ cs) value rest h stop =
      let quoted : Text = b'"' ∷ (value ++ (b'"' ∷ rest)) in
      let (key_ok, value_ok) = &&-split (all_of is_field_key_char (c ∷ cs)) h in
      rw
        (
          multispace0_none ((c ∷ cs) ++ (b'=' ∷ quoted))
              (stops-key c (cs ++ (b'=' ∷ quoted)) cs key_ok),
          take_while_run 1 is_field_key_char (c ∷ cs) (b'=' ∷ quoted) key_ok refl (omega arith),
          multispace0_none (b'=' ∷ quoted) refl,
          literal_same b'=' quoted,
          multispace0_none quoted refl,
          field_value-quoted value rest value_ok,
          multispace0_none rest stop,
        )
        refl

  field_clause-print_clause :
      (f : Text × Text) (rest : Text)
      → is_clause f ≡ true
      → stops is_multispace rest ≡ true
      → field_clause w (print_clause f ++ rest) ≡ done f rest
  unfolding print_clause
  field_clause-print_clause (key, value) rest h stop =
      rw (append_assoc, append_assoc) (field_clause-parts key value rest h stop)

  separated-print_clauses :
      (f : Text × Text) (fs : List (Text × Text)) (rest : Text)
      → All (λ g. is_clause g ≡ true) (f ∷ fs)
      → separated (field_clause w) (literal b',') (print_clauses (f ∷ fs) ++ (b']' ∷ rest))
        ≡ done (f ∷ fs) (b']' ∷ rest)
  unfolding print_clauses stops is_multispace
  separated-print_clauses f [] rest h =
      separated_last (field_clause w) (literal b',') _
        (field_clause-print_clause f (b']' ∷ rest) h.0 refl)
        (literal_other b',' b']' rest (λ e. absurd (omega arith)))
  separated-print_clauses f (g ∷ gs) rest h =
      let more : Text = print_clauses (g ∷ gs) ++ (b']' ∷ rest) in
      rw (append_assoc (print_clause f) (b',' ∷ print_clauses (g ∷ gs)) (b']' ∷ rest)) (
        separated_more (field_clause w) (literal b',') (print_clause f ++ (b',' ∷ more))
          (field_clause-print_clause f (b',' ∷ more) h.0 refl) (literal_same b',' more)
          (omega (arith, length-append (print_clause f) (b',' ∷ more)))
          (separated-print_clauses g gs rest h.1) (λ e. absurd (cc)))

  pub field_clause_block-print_block :
      (f : Text × Text) (fs : List (Text × Text)) (rest : Text)
      → All (λ g. is_clause g ≡ true) (f ∷ fs)
      → field_clause_block w (print_block (f ∷ fs) ++ rest) ≡ done (f ∷ fs) rest
  unfolding field_clause_block print_block stops is_multispace
  field_clause_block-print_block f fs rest h =
      let clauses : Text = print_clauses (f ∷ fs) ++ (b']' ∷ rest) in
      rw
        (
          append_assoc,
          literal_same b'[' clauses,
          multispace0_none clauses (stops-print_clauses f fs (b']' ∷ rest) h.0),
          separated-print_clauses f fs rest h,
          multispace0_none (b']' ∷ rest) refl,
          literal_same b']' rest,
        )
        refl
