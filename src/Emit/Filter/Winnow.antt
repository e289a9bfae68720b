-- ===== src/Emit/Filter/Winnow.antt =====
-- The combinators of the third-party winnow that crates/obs-core/src/filter.rs calls, as parameters.
use obs.Prelude.{
  ℕ, ◌≤◌, ◌<◌, ◌≡◌, ◌≢◌, Bool, true, Option, none, some, List, [], ◌∷◌, ◌++◌, Text, ◌==◌, ◌&&◌,
  ◌||◌, not, length, Result, ok,
}

-- `ModalResult` with the rest of the text: `ErrMode::Backtrack`, or `ErrMode::Cut`.
pub data Answer {ℓ} (A : Type ℓ) : Type ℓ where
  done : A → Text → Answer A
  backtrack failure : Answer A

abbrev pub Parser {ℓ} : Type ℓ → Type ℓ
Parser A = Text → Answer A

module _ {ℓ κ} {A : Type ℓ} {B : Type κ} where
  abbrev pub and_then : Answer A → (A → Parser B) → Answer B
  and_then (done a rest) f = f a rest
  and_then backtrack f = backtrack
  and_then failure f = failure

  infixl 1 ◌>>=◌ ◌>>◌
  abbrev pub ◌>>=◌ : Parser A → (A → Parser B) → Parser B
  p >>= f = λ s. and_then (p s) f

  abbrev pub ◌>>◌ : Parser A → Parser B → Parser B
  p >> q = p >>= λ _. q

abbrev pub pure {ℓ} : {A : Type ℓ} → A → Parser A
pure a s = done a s

abbrev pub run {ℓ} : {A : Type ℓ} → Text → Parser A → Answer A
run s p = p s

-- A text at which a run of characters with `p` ends.
unfoldable pub stops : (ℕ → Bool) → Text → Bool
stops p [] = true
stops p (c ∷ s) = not (p c)

unfoldable pub all_of : (ℕ → Bool) → Text → Bool
all_of p [] = true
all_of p (c ∷ s) = p c && all_of p s

-- `multispace0` takes blanks, tabs, carriage returns and line feeds.
unfoldable pub is_multispace : ℕ → Bool
is_multispace c = (c == b' ') || ((c == 9) || ((c == 13) || (c == 10)))

-- The combinators, with the laws that their documentation states.
pub record Winnow : Type 1 where
  pub take_while : ℕ → (ℕ → Bool) → Parser Text
  pub multispace0 : Parser Text
  pub literal : ℕ → Parser ℕ
  pub opt : {A : Type 0} → Parser A → Parser (Option A)
  pub preceded : {A B : Type 0} → Parser A → Parser B → Parser B
  pub delimited : {A B C : Type 0} → Parser A → Parser B → Parser C → Parser B
  pub separated : {A B : Type 0} → Parser A → Parser B → Parser (List A)
  pub parse : {A : Type 0} → Parser A → Text → Result Text A
  pub take_while_run :
      (least : ℕ) (p : ℕ → Bool) (taken rest : Text)
      → all_of p taken ≡ true
      → stops p rest ≡ true
      → least ≤ length taken
      → take_while least p (taken ++ rest) ≡ done taken rest
  pub take_while_few :
      (least : ℕ) (p : ℕ → Bool) (taken rest : Text)
      → all_of p taken ≡ true
      → stops p rest ≡ true
      → length taken < least
      → take_while least p (taken ++ rest) ≡ backtrack
  pub multispace0_run :
      (taken rest : Text)
      → all_of is_multispace taken ≡ true
      → stops is_multispace rest ≡ true
      → multispace0 (taken ++ rest) ≡ done taken rest
  pub literal_same : (c : ℕ) (rest : Text) → literal c (c ∷ rest) ≡ done c rest
  pub literal_other : (c d : ℕ) (rest : Text) → c ≢ d → literal c (d ∷ rest) ≡ backtrack
  pub opt_done :
      {A : Type 0} (p : Parser A) (s : Text) {a : A} {rest : Text}
      → p s ≡ done a rest
      → opt p s ≡ done (some a) rest
  pub opt_backtrack :
      {A : Type 0} (p : Parser A) (s : Text) → p s ≡ backtrack → opt p s ≡ done none s
  pub preceded_done :
      {A B : Type 0} (p : Parser A) (q : Parser B) (s : Text) {a : A} {rest : Text}
      → p s ≡ done a rest
      → preceded p q s ≡ q rest
  pub delimited_done :
      {A B C : Type 0} (p : Parser A) (q : Parser B) (r : Parser C) (s : Text) {a : A} {b : B}
      {c : C} {rest₁ rest₂ rest₃ : Text}
      → p s ≡ done a rest₁
      → q rest₁ ≡ done b rest₂
      → r rest₂ ≡ done c rest₃
      → delimited p q r s ≡ done b rest₃
  pub separated_last :
      {A B : Type 0} (p : Parser A) (sep : Parser B) (s : Text) {a : A} {rest : Text}
      → p s ≡ done a rest
      → sep rest ≡ backtrack
      → separated p sep s ≡ done (a ∷ []) rest
  -- An element and its separator leave less of the text than there was.
  pub separated_more :
      {A B : Type 0} (p : Parser A) (sep : Parser B) (s : Text) {a : A} {b : B} {more : List A}
      {rest₁ rest₂ rest₃ : Text}
      → p s ≡ done a rest₁
      → sep rest₁ ≡ done b rest₂
      → length rest₂ < length s
      → separated p sep rest₂ ≡ done more rest₃
      → more ≢ []
      → separated p sep s ≡ done (a ∷ more) rest₃
  pub parse_whole :
      {A : Type 0} (p : Parser A) (s : Text) {a : A} → p s ≡ done a [] → parse p s ≡ ok a
