-- ===== src/Emit/Filter/Longest.antt =====
-- Which static directive of crates/obs-core/src/filter.rs decides.
use obs.Prelude.{
  ℕ, suc, ◌≤◌, ◌<◌, ◌≡◌, refl, ap, ◌⊎◌, inl, inr, true, false, Bool-cases, Option, none, some,
  Option-cases, List, [], ◌∷◌, ◌++◌, Text, if◌then◌else◌, length, All, arith,
}
use obs.Emit.Filter.{
  StaticDirective, Directive, Filter, matches, is_longer, better, resolved, static_loop,
  static_level_for,
}

-- How specific a directive is for a callsite: nothing if it does not match, else its target's
-- length, counted from one.
unfoldable pub reach : Text → Text → Directive → ℕ
reach full_name path d = elim d.target [
  | none ↦ 0
  | some t ↦ if matches full_name path t then suc (length t) else 0
]

-- The reach of the best directive so far.
best_reach : Option (ℕ × StaticDirective) → ℕ
best_reach none = 0
best_reach (some (len, r)) = suc len

module _ (full_name path : Text) where
  better_step :
      (best : Option (ℕ × StaticDirective)) (d : Directive)
      → (better full_name path best d ≡ best) × (reach full_name path d ≤ best_reach best)
        ⊎ ((len : ℕ) × (better full_name path best d ≡ some (len, resolved d))
            × (reach full_name path d ≡ suc len)
            × (best_reach best < suc len))
  unfolding better reach best_reach is_longer
  better_step best d = elim (Option-cases d.target) [
    | inl no_target ↦ inl (rw no_target refl, rw no_target (omega arith))
    | inr (t, e) ↦ elim (Bool-cases (matches full_name path t)) [
      | inl hit ↦ elim (Bool-cases (is_longer t best)) [
        | inl longer ↦
            inr (length t, rw (e, hit, longer) refl, rw (e, hit) refl, is_longer_lem t best longer)
        | inr shorter ↦ inl (rw (e, hit, shorter) refl, rw (e, hit) (is_shorter_lem t best shorter))
      ]
      | inr miss ↦ inl (rw (e, miss) refl, rw (e, miss) (omega arith))
    ]
  ]
    where
      is_longer_lem :
          (t : Text) (best : Option (ℕ × StaticDirective))
          → is_longer t best ≡ true
          → best_reach best < suc (length t)
      is_longer_lem t none h = omega arith
      is_longer_lem t (some (len, r)) h = ground arith

      is_shorter_lem :
          (t : Text) (best : Option (ℕ × StaticDirective))
          → is_longer t best ≡ false
          → suc (length t) ≤ best_reach best
      is_shorter_lem t none h = absurd (cc)
      is_shorter_lem t (some (len, r)) h = ground arith

  -- The directive that wins: those before it reach less far, those behind it no farther.
  pub record Wins (ds : List Directive) (floor : ℕ) (out : Option (ℕ × StaticDirective))
      : Type 0 where
    pub front : List Directive
    pub winner : Directive
    pub back : List Directive
    pub len : ℕ
    pub splits : ds ≡ front ++ (winner ∷ back)
    pub is_out : out ≡ some (len, resolved winner)
    pub reaches : reach full_name path winner ≡ suc len
    pub above : floor < suc len
    pub front_shorter : All (λ d. reach full_name path d < reach full_name path winner) front
    pub back_no_longer : All (λ d. reach full_name path d ≤ reach full_name path winner) back

  Wins-behind :
      (d : Directive) {ds : List Directive} {low high : ℕ} {out : Option (ℕ × StaticDirective)}
      → low ≤ high
      → reach full_name path d ≤ high
      → Wins ds high out
      → Wins (d ∷ ds) low out
  Wins-behind d le h w = record {
    front = d ∷ w.front;
    winner = w.winner;
    back = w.back;
    len = w.len;
    splits = ap (λ t. d ∷ t) w.splits;
    is_out = w.is_out;
    reaches = w.reaches;
    above = omega (arith, le, w.above);
    front_shorter = (omega (arith, h, w.above, w.reaches), w.front_shorter);
    back_no_longer = w.back_no_longer;
  }

  static_loop_lem :
      (ds : List Directive) (best : Option (ℕ × StaticDirective))
      → (static_loop full_name path ds best ≡ best)
          × All (λ d. reach full_name path d ≤ best_reach best) ds
        ⊎ Wins ds (best_reach best) (static_loop full_name path ds best)
  unfolding static_loop best_reach
  static_loop_lem [] best = inl (refl, tt)
  static_loop_lem (d ∷ ds) best = elim (better_step best d) [
    | inl (same, low) ↦ rw same (elim (static_loop_lem ds best) [
      | inl (kept, all) ↦ inl (kept, (low, all))
      | inr w ↦ inr (Wins-behind d (omega arith) low w)
    ])
    | inr (len, taken, reaches, above) ↦
        rw taken (elim (static_loop_lem ds (some (len, resolved d))) [
          | inl (kept, all) ↦ inr (record {
            front = [];
            winner = d;
            back = ds;
            len = len;
            splits = refl;
            is_out = kept;
            reaches = reaches;
            above = above;
            front_shorter = tt;
            back_no_longer = rw reaches all;
          })
          | inr w ↦ inr (Wins-behind d (omega (arith, above)) (omega (arith, reaches)) w)
        ])
  ]

All-zero : (n : Directive → ℕ) (ds : List Directive) → All (λ d. n d ≤ 0) ds → All (λ d. n d ≡ 0) ds
All-zero n [] h = tt
All-zero n (d ∷ ds) h = (omega (arith, h.0), All-zero n ds h.1)

-- The static directive that decides for a callsite is the first of those that reach farthest: no
-- directive matches and none is given, or it is the one of a directive that matches, whose target is
-- longer than those of the matching directives before it and no shorter than those behind it.
pub static_level_for_lem :
    (f : Filter) (full_name path : Text)
    → (static_level_for f full_name path ≡ none) × All (λ d. reach full_name path d ≡ 0) f.statics
      ⊎ ((front : List Directive) × (d : Directive) × (back : List Directive) × (f.statics
            ≡ front ++ (d ∷ back))
          × (static_level_for f full_name path ≡ some (resolved d))
          × (0 < reach full_name path d)
          × All (λ e. reach full_name path e < reach full_name path d) front
          × All (λ e. reach full_name path e ≤ reach full_name path d) back)
unfolding static_level_for best_reach
static_level_for_lem f full_name path = elim (static_loop_lem full_name path f.statics none) [
  | inl (kept, all) ↦
      inl (rw (static_level_for, kept) refl, All-zero (reach full_name path) f.statics all)
  | inr w ↦ inr (
    w.front,
    w.winner,
    w.back,
    w.splits,
    rw (static_level_for, w.is_out) refl,
    omega (arith, w.reaches),
    w.front_shorter,
    w.back_no_longer,
  )
]
