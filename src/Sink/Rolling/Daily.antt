-- ===== src/Sink/Rolling/Daily.antt =====
-- The names that the files of the timed policies have.
use obs.Prelude.{
  ℕ, ◌/◌, ◌%◌, ◌≡◌, refl, sym, ◌∙◌, ap, ap₂, inl, inr, Bool, true, false, Bool-cases, Option, none,
  some, ◌∷◌, ◌++◌, Text, arith,
}
use obs.Sink.Rolling.{
  RollingState, RollingInner, World, RollingPolicy, daily, hourly, never, size_based, size_or_age,
  counts, stamp, secs_of, date_text, padded, format_date_stamp, format_hour_stamp, file_name,
  open_new, should_rotate, evict_beyond, maybe_evict_old, after_open, due, rotate_if_due, opened,
  ready,
}
use obs.Sink.Date.Calendar.{ymd_from_secs-same}

-- `prefix.stamp` with the suffix, at a time; the counter is not in such a name.
abbrev pub name_at : Text → Text → RollingPolicy → ℕ → Text
name_at prefix suffix policy now = prefix ++ (b'.' ∷ stamp policy (secs_of now) 0) ++ suffix

stamp_any :
    (policy : RollingPolicy) (secs counter : ℕ)
    → counts policy ≡ false
    → stamp policy secs counter ≡ stamp policy secs 0
unfolding stamp counts
stamp_any daily secs counter h = refl
stamp_any hourly secs counter h = refl
stamp_any never secs counter h = absurd (cc)
stamp_any (size_based max_bytes) secs counter h = absurd (cc)
stamp_any (size_or_age max_bytes max_age) secs counter h = absurd (cc)

date_stamp-same : (a b : ℕ) → a / 86400 ≡ b / 86400 → format_date_stamp a ≡ format_date_stamp b
unfolding format_date_stamp
date_stamp-same a b h = ap date_text (ymd_from_secs-same a b h)

hour_stamp-same : (a b : ℕ) → a / 3600 ≡ b / 3600 → format_hour_stamp a ≡ format_hour_stamp b
unfolding format_hour_stamp
hour_stamp-same a b h =
    ap₂ (λ date hour. date ++ (b'.' ∷ padded 2 (hour % 24)))
      (date_stamp-same a b (omega (arith, h))) h

stamp_same :
    (policy : RollingPolicy) (now : ℕ) (s : RollingState)
    → counts policy ≡ false
    → should_rotate policy now s ≡ false
    → stamp policy (secs_of s.opened_at) 0 ≡ stamp policy (secs_of now) 0
unfolding counts stamp should_rotate
stamp_same daily now s h e = date_stamp-same (secs_of s.opened_at) (secs_of now) (ground (arith, e))
stamp_same hourly now s h e =
    hour_stamp-same (secs_of s.opened_at) (secs_of now) (ground (arith, e))
stamp_same never now s h e = absurd (cc)
stamp_same (size_based max_bytes) now s h e = absurd (cc)
stamp_same (size_or_age max_bytes max_age) now s h e = absurd (cc)

-- A writer with a timed policy whose current file is named by the time of its opening.
pub record IsStamped (prefix suffix : Text) (policy : RollingPolicy) (i : RollingInner)
    : Type 0 where
  pub prefix_stays : i.prefix ≡ prefix
  pub suffix_stays : i.suffix ≡ suffix
  pub policy_stays : i.policy ≡ policy
  pub named :
      (s : RollingState) → i.current ≡ some s → s.path ≡ name_at prefix suffix policy s.opened_at

-- The same behind the opening of a file, which is then named by the time of the call.
pub record IsDated (prefix suffix : Text) (policy : RollingPolicy) (now : ℕ)
    (r : Bool × RollingInner) : Type 0 where
  pub stamped : IsStamped prefix suffix policy r.1
  pub dated :
      r.0 ≡ true
      → (s : RollingState) → r.1.current ≡ some s
      → s.path ≡ name_at prefix suffix policy now

state_fields :
    (path : Text) (now : ℕ) (s : RollingState)
    → some (record { path = path; bytes = 0; opened_at = now }) ≡ some s
    → (s.path ≡ path) × (s.opened_at ≡ now)
state_fields path now s h = ground (arith, h)

module _ (prefix suffix : Text) (policy : RollingPolicy) (is_timed : counts policy ≡ false) where
  file_name-timed :
      (now : ℕ) (i : RollingInner)
      → IsStamped prefix suffix policy i
      → file_name i now ≡ name_at prefix suffix policy now
  unfolding file_name
  file_name-timed now i t =
      rw
        (
          t.prefix_stays,
          t.suffix_stays,
          t.policy_stays,
          stamp_any policy (secs_of now) i.roll_counter is_timed,
        )
        refl

  open_new-IsDated :
      (world : World) (i : RollingInner)
      → IsStamped prefix suffix policy i
      → IsDated prefix suffix policy world.now (open_new world i)
  unfolding open_new
  open_new-IsDated world i t = elim (Bool-cases world.can_open) [
    | inl e ↦ rw (e) record {
      stamped = record {
        prefix_stays = t.prefix_stays;
        suffix_stays = t.suffix_stays;
        policy_stays = t.policy_stays;
        named = λ s h.
            let (p, o) = state_fields (file_name i world.now) world.now s h in
            p ∙ file_name-timed world.now i t ∙ ap (name_at prefix suffix policy) (sym o);
      };
      dated = λ opened s h.
          (state_fields (file_name i world.now) world.now s h).0 ∙ file_name-timed world.now i t;
    }
    | inr e ↦ rw (e) record {
      stamped = record {
        prefix_stays = t.prefix_stays;
        suffix_stays = t.suffix_stays;
        policy_stays = t.policy_stays;
        named = t.named;
      };
      dated = λ opened. absurd (cc);
    }
  ]

  evict_beyond-IsDated :
      (world : World) (i : RollingInner) (keep : Option ℕ)
      → IsDated prefix suffix policy world.now (true, i)
      → IsDated prefix suffix policy world.now (true, evict_beyond world i keep)
  unfolding evict_beyond
  evict_beyond-IsDated world i none d = d
  evict_beyond-IsDated world i (some keep) d = elim (Bool-cases world.can_list) [
    | inl e ↦ rw (e) record {
      stamped = record {
        prefix_stays = d.stamped.prefix_stays;
        suffix_stays = d.stamped.suffix_stays;
        policy_stays = d.stamped.policy_stays;
        named = d.stamped.named;
      };
      dated = d.dated;
    }
    | inr e ↦ rw (e) d
  ]

  after_open-IsDated :
      (world : World) (r : Bool × RollingInner)
      → IsDated prefix suffix policy world.now r
      → IsDated prefix suffix policy world.now (after_open world r)
  unfolding after_open maybe_evict_old
  after_open-IsDated world (false, i) d = d
  after_open-IsDated world (true, i) d = evict_beyond-IsDated world i i.keep d

  due-IsDated :
      (world : World) (i : RollingInner) (current : Option RollingState)
      → i.current ≡ current
      → IsStamped prefix suffix policy i
      → IsDated prefix suffix policy world.now (due world i current)
  unfolding due
  due-IsDated world i none c t = record { stamped = t; dated = λ opened. absurd (cc) }
  due-IsDated world i (some s) c t = elim (Bool-cases (should_rotate i.policy world.now s)) [
    | inl e ↦ rw (e) (after_open-IsDated world (open_new world i) (open_new-IsDated world i t))
    | inr e ↦ rw (e) record {
      stamped = t;
      dated = λ opened s' h.
          let same : s ≡ s' = ground (arith, sym c ∙ h) in
          rw (← same) (
            t.named s c
            ∙ ap (λ st. prefix ++ (b'.' ∷ st) ++ suffix)
                (stamp_same policy world.now s is_timed (rw (← t.policy_stays) e)));
    }
  ]

  rotate_if_due-IsDated :
      (world : World) (r : Bool × RollingInner)
      → IsStamped prefix suffix policy r.1
      → IsDated prefix suffix policy world.now (rotate_if_due world r)
  unfolding rotate_if_due
  rotate_if_due-IsDated world (false, i) t = record { stamped = t; dated = λ opened. absurd (cc) }
  rotate_if_due-IsDated world (true, i) t = due-IsDated world i i.current refl t

  opened-IsStamped :
      (world : World) (i : RollingInner) (current : Option RollingState)
      → IsStamped prefix suffix policy i
      → IsStamped prefix suffix policy (opened world i current).1
  unfolding opened
  opened-IsStamped world i none t = (open_new-IsDated world i t).stamped
  opened-IsStamped world i (some s) t = t

  pub ready-IsDated :
      (world : World) (i : RollingInner)
      → IsStamped prefix suffix policy i
      → IsDated prefix suffix policy world.now (ready world i)
  unfolding ready
  ready-IsDated world i t =
      rotate_if_due-IsDated world (opened world i i.current) (opened-IsStamped world i i.current t)
