-- ===== src/Sink/Rolling/Named.antt =====
-- The files that the writes of a timed policy go to.
use obs.Prelude.{
  ℕ, ◌≡◌, refl, Bool, true, false, Option, none, some, List, [], ◌∷◌, ◌++◌, Text, Bytes, arith,
}
use obs.Sink.Rolling.{
  RollingState, RollingInner, World, RollingPolicy, counts, ready, note_bytes, write_on, write_to,
  write,
}
use obs.Sink.Rolling.Log.{entry_of, entry, log}
use obs.Sink.Rolling.Log.{note_bytes-path, note_bytes-opened_at}
use obs.Sink.Rolling.Daily.{name_at, IsStamped, IsDated, ready-IsDated}

-- Every entry of a log goes to the file that is named by its time.
pub AllDated : Text → Text → RollingPolicy → List (ℕ × Text × Bytes) → Type 0
AllDated prefix suffix policy [] = Unit
AllDated prefix suffix policy ((now, path, bs) ∷ entries) =
    (path ≡ name_at prefix suffix policy now) × AllDated prefix suffix policy entries

module _ (prefix suffix : Text) (policy : RollingPolicy) (is_timed : counts policy ≡ false) where
  AllDated-append :
      (xs ys : List (ℕ × Text × Bytes))
      → AllDated prefix suffix policy xs
      → AllDated prefix suffix policy ys
      → AllDated prefix suffix policy (xs ++ ys)
  unfolding AllDated
  AllDated-append [] ys a b = b
  AllDated-append ((now, path, bs) ∷ xs) ys a b = (a.0, AllDated-append xs ys a.1 b)

  entry_of-AllDated :
      (world : World) (buf : Bytes) (i : RollingInner) (current : Option RollingState)
      → i.current ≡ current
      → IsDated prefix suffix policy world.now (true, i)
      → AllDated prefix suffix policy (entry_of world buf current)
  unfolding entry_of AllDated
  entry_of-AllDated world buf i none c d = tt
  entry_of-AllDated world buf i (some s) c d = (d.dated refl s c, tt)

  entry-AllDated :
      (world : World) (buf : Bytes) (r : Bool × RollingInner)
      → IsDated prefix suffix policy world.now r
      → AllDated prefix suffix policy (entry world buf r)
  unfolding entry AllDated
  entry-AllDated world buf (false, i) d = tt
  entry-AllDated world buf (true, i) d = entry_of-AllDated world buf i i.current refl d

  write_on-IsStamped :
      (world : World) (buf : Bytes) (i : RollingInner) (current : Option RollingState)
      → i.current ≡ current
      → IsStamped prefix suffix policy i
      → IsStamped prefix suffix policy (write_on world buf i current).1
  unfolding write_on
  write_on-IsStamped world buf i none c t = t
  write_on-IsStamped world buf i (some s) c t = record {
    prefix_stays = t.prefix_stays;
    suffix_stays = t.suffix_stays;
    policy_stays = t.policy_stays;
    named = λ s' h.
        let same : note_bytes world buf s ≡ s' = ground (arith, h) in
        rw (← same, note_bytes-path world buf s, note_bytes-opened_at world buf s) (t.named s c);
  }

  write_to-IsStamped :
      (world : World) (buf : Bytes) (r : Bool × RollingInner)
      → IsStamped prefix suffix policy r.1
      → IsStamped prefix suffix policy (write_to world buf r).1
  unfolding write_to
  write_to-IsStamped world buf (false, i) t = t
  write_to-IsStamped world buf (true, i) t = write_on-IsStamped world buf i i.current refl t

  run-AllDated :
      (writes : List (World × Bytes)) (i : RollingInner)
      → IsStamped prefix suffix policy i
      → AllDated prefix suffix policy (log writes i)
  unfolding log AllDated write
  run-AllDated [] i t = tt
  run-AllDated ((world, buf) ∷ writes) i t =
      let d = ready-IsDated prefix suffix policy is_timed world i t in
      AllDated-append (entry world buf (ready world i)) (log writes (write world buf i).1)
        (entry-AllDated world buf (ready world i) d)
        (run-AllDated writes (write world buf i).1
          (write_to-IsStamped world buf (ready world i) d.stamped))

-- With the daily or the hourly policy every write of a writer that had no file open goes to the file
-- that is named by the UTC date, and with the hourly policy by the hour, of the write, whichever file
-- operations fail and whatever is evicted.
pub log-AllDated :
    (writes : List (World × Bytes)) (i : RollingInner)
    → counts i.policy ≡ false
    → i.current ≡ none
    → AllDated i.prefix i.suffix i.policy (log writes i)
log-AllDated writes i is_timed closed =
    run-AllDated i.prefix i.suffix i.policy is_timed writes i (record {
      prefix_stays = refl;
      suffix_stays = refl;
      policy_stays = refl;
      named = λ s h. absurd (cc);
    })
