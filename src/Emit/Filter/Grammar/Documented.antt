-- ===== src/Emit/Filter/Grammar/Documented.antt =====
-- Combinators that meet the laws of winnow which the models of crates/obs-core/src/filter.rs rely on.
use obs.Prelude.{
  ℕ, zero, suc, ◌≤◌, ◌<◌, ◌≡◌, ◌≢◌, refl, Bool, true, false, Option, none, some, List, [], ◌∷◌,
  ◌++◌, Text, ◌==◌, if◌then◌else◌, Result, ok, err, length, leb, le→leb, arith,
}
use obs.Emit.Filter.Winnow.{
  Answer, done, backtrack, failure, Parser, and_then, Winnow, stops, all_of, is_multispace,
}

-- The run of characters at the front of a text, and what is left.
unfoldable pub span : (ℕ → Bool) → Text → Text × Text
span p [] = ([], [])
span p (c ∷ s) = let (front, rest) = span p s in if p c then (c ∷ front, rest) else ([], c ∷ s)

unfoldable pub at_least_taken : ℕ → Text × Text → Answer Text
at_least_taken least (front, rest) = if leb least (length front) then done front rest else backtrack

unfoldable pub take_run : ℕ → (ℕ → Bool) → Parser Text
unfolding span at_least_taken
take_run least p s = at_least_taken least (span p s)

unfoldable pub one : ℕ → Parser ℕ
one c [] = backtrack
one c (d ∷ s) = if d == c then done c s else backtrack

unfoldable pub opt_at {ℓ} : {A : Type ℓ} → Text → Answer A → Answer (Option A)
opt_at s (done a rest) = done (some a) rest
opt_at s backtrack = done none s
opt_at s failure = failure

-- An element, with what follows its separator: without an element there, the separator is not taken.
unfoldable pub joined {ℓ} : {A : Type ℓ} → A → Text → Answer (List A) → Answer (List A)
joined a rest (done [] _) = done (a ∷ []) rest
joined a rest (done (b ∷ more) rest') = done (a ∷ b ∷ more) rest'
joined a rest backtrack = backtrack
joined a rest failure = failure

unfoldable pub after_separator {ℓ κ} :
    {A : Type ℓ} {B : Type κ} → A → Text → (Text → Answer (List A)) → Answer B → Answer (List A)
unfolding joined
after_separator a rest next (done b rest') = joined a rest (next rest')
after_separator a rest next backtrack = done (a ∷ []) rest
after_separator a rest next failure = failure

unfoldable pub after_element {ℓ κ} :
    {A : Type ℓ} {B : Type κ}
    → Text
    → Parser B
    → (Text → Answer (List A))
    → Answer A
    → Answer (List A)
unfolding after_separator
after_element s sep next (done a rest) = after_separator a rest next (sep rest)
after_element s sep next backtrack = done [] s
after_element s sep next failure = failure

unfoldable pub separated_on {ℓ κ} :
    {A : Type ℓ} {B : Type κ} → ℕ → Parser A → Parser B → Parser (List A)
unfolding after_element
separated_on zero p sep s = failure
separated_on (suc n) p sep s = after_element s sep (separated_on n p sep) (p s)

unfoldable pub whole {ℓ} : {A : Type ℓ} → Answer A → Result Text A
whole (done a []) = ok a
whole (done a (c ∷ s)) = err (c ∷ s)
whole backtrack = err []
whole failure = err []

span-run :
    (p : ℕ → Bool) (taken rest : Text)
    → all_of p taken ≡ true
    → stops p rest ≡ true
    → span p (taken ++ rest) ≡ (taken, rest)
unfolding span all_of stops
span-run p [] [] h stop = refl
span-run p [] (c ∷ s) h stop = ground arith
span-run p (x ∷ taken) rest h stop = ground (arith, span-run p taken rest)

pub take_run-run :
    (least : ℕ) (p : ℕ → Bool) (taken rest : Text)
    → all_of p taken ≡ true
    → stops p rest ≡ true
    → least ≤ length taken
    → take_run least p (taken ++ rest) ≡ done taken rest
unfolding take_run at_least_taken
take_run-run least p taken rest h stop enough =
    rw (span-run p taken rest h stop, le→leb least (length taken) enough) refl

pub take_run-few :
    (least : ℕ) (p : ℕ → Bool) (taken rest : Text)
    → all_of p taken ≡ true
    → stops p rest ≡ true
    → length taken < least
    → take_run least p (taken ++ rest) ≡ backtrack
unfolding take_run at_least_taken
take_run-few least p taken rest h stop few =
    let no : leb least (length taken) ≡ false = ground arith in
    rw (span-run p taken rest h stop, no) refl

-- What follows an element does not change where the next elements are found in another way, too.
module _ {ℓ} {A : Type ℓ} (next next' : Text → Answer (List A))
    (more : (s : Text) (found : List A) (rest : Text)
      → next s ≡ done found rest
      → next' s ≡ done found rest) where
  joined-more :
      (a : A) (left s : Text) (r : Answer (List A)) (found : List A) (rest : Text)
      → next s ≡ r
      → joined a left r ≡ done found rest
      → joined a left (next' s) ≡ done found rest
  unfolding joined
  joined-more a left s (done more_found more_rest) found rest e h =
      rw (more s more_found more_rest e) h
  joined-more a left s backtrack found rest e h = absurd (cc)
  joined-more a left s failure found rest e h = absurd (cc)

module _ {ℓ κ} {A : Type ℓ} {B : Type κ} (next next' : Text → Answer (List A))
    (more : (s : Text) (found : List A) (rest : Text)
      → next s ≡ done found rest
      → next' s ≡ done found rest) where
  after_separator-more :
      (a : A) (left : Text) (r : Answer B) (found : List A) (rest : Text)
      → after_separator a left next r ≡ done found rest
      → after_separator a left next' r ≡ done found rest
  unfolding after_separator
  after_separator-more a left (done b after) found rest h =
      joined-more next next' more a left after (next after) found rest refl h
  after_separator-more a left backtrack found rest h = h
  after_separator-more a left failure found rest h = absurd (cc)

  after_element-more :
      (s : Text) (sep : Parser B) (r : Answer A) (found : List A) (rest : Text)
      → after_element s sep next r ≡ done found rest
      → after_element s sep next' r ≡ done found rest
  unfolding after_element
  after_element-more s sep (done a left) found rest h =
      after_separator-more a left (sep left) found rest h
  after_element-more s sep backtrack found rest h = h
  after_element-more s sep failure found rest h = absurd (cc)

module _ {A B : Type 0} (p : Parser A) (sep : Parser B) where
  -- More fuel gives the same elements.
  separated_on-more :
      (n m : ℕ) (s : Text) (found : List A) (rest : Text)
      → n ≤ m
      → separated_on n p sep s ≡ done found rest
      → separated_on m p sep s ≡ done found rest
  unfolding separated_on
  separated_on-more zero m s found rest le h = absurd (cc)
  separated_on-more (suc n) zero s found rest le h = absurd (omega arith)
  separated_on-more (suc n) (suc m) s found rest le h =
      after_element-more (separated_on n p sep) (separated_on m p sep)
        (λ t f r. separated_on-more n m t f r (omega arith)) s sep (p s) found rest h

  pub separated_on-next :
      (s : Text) {a : A} {b : B} {more : List A} {rest₁ rest₂ rest₃ : Text}
      → p s ≡ done a rest₁
      → sep rest₁ ≡ done b rest₂
      → length rest₂ < length s
      → separated_on (suc (length rest₂)) p sep rest₂ ≡ done more rest₃
      → more ≢ []
      → separated_on (suc (length s)) p sep s ≡ done (a ∷ more) rest₃
  unfolding separated_on after_element after_separator joined
  separated_on-next s {more = []} e f less h some_more = absurd (some_more refl)
  separated_on-next s {more = x ∷ more} {rest₂ = rest₂} {rest₃ = rest₃} e f less h some_more =
      let enough =
        separated_on-more (suc (length rest₂)) (length s) rest₂ (x ∷ more) rest₃ (omega arith) h in
      rw (separated_on, e, f, enough) refl

  pub separated_on-end :
      (s : Text) {a : A} {rest : Text}
      → p s ≡ done a rest
      → sep rest ≡ backtrack
      → separated_on (suc (length s)) p sep s ≡ done (a ∷ []) rest
  unfolding separated_on after_element after_separator
  separated_on-end s e f = rw (separated_on, e, f) refl

pub one-other : (c d : ℕ) (rest : Text) → c ≢ d → one c (d ∷ rest) ≡ backtrack
unfolding one
one-other c d rest h = ground arith

pub one-same : (c : ℕ) (rest : Text) → one c (c ∷ rest) ≡ done c rest
unfolding one
one-same c rest = ground arith

unfoldable pub documented : Winnow
unfolding take_run one opt_at separated_on whole
documented = record {
  take_while = take_run;
  multispace0 = take_run 0 is_multispace;
  literal = one;
  opt = λ p s. opt_at s (p s);
  preceded = λ p q s. and_then (p s) (λ _. q);
  delimited =
      λ p q r s. and_then (p s) (λ _ t. and_then (q t) (λ b u. and_then (r u) (λ _. done b)));
  separated = λ p sep s. separated_on (suc (length s)) p sep s;
  parse = λ p s. whole (p s);
  take_while_run = take_run-run;
  take_while_few = take_run-few;
  multispace0_run =
      λ taken rest h stop. take_run-run 0 is_multispace taken rest h stop (omega arith);
  literal_same = one-same;
  literal_other = one-other;
  opt_done = λ p s e. rw e refl;
  opt_backtrack = λ p s e. rw e refl;
  preceded_done = λ p q s e. rw e refl;
  delimited_done = λ p q r s e f g. rw (e, f, g) refl;
  separated_last = λ p sep s e f. separated_on-end p sep s e f;
  separated_more = λ p sep s e f less h some_more. separated_on-next p sep s e f less h some_more;
  parse_whole = λ p s e. rw e refl;
}
