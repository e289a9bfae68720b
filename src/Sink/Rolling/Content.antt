-- ===== src/Sink/Rolling/Content.antt =====
-- Where the bytes of the writes end up.
use obs.Prelude.{
  ℕ, ◌≡◌, refl, sym, ◌∙◌, ap, inl, inr, Bool, true, false, Bool-cases, Option, none, some, List, [],
  ◌∷◌, ◌++◌, Text, Bytes, arith,
}
use obs.Sink.Rolling.{
  RollingState, RollingInner, World, has_file, file_name, open_new, should_rotate, evict_beyond,
  maybe_evict_old, after_open, due, rotate_if_due, opened, ready, content, put, note_bytes,
  write_on, write_to, write, run,
}
use obs.Sink.Rolling.Log.{note_bytes-path, entry_of, entry, log, replay}
use obs.Sink.Rolling.Files.{
  content-open_file, has_file-open_file, content-append_to, has_file-append_to,
}

-- Nothing is evicted, and the current file, if there is one, is in the directory.
record IsAttached (i : RollingInner) : Type 0 where
  keeps_all : i.keep ≡ none
  attached : (s : RollingState) → i.current ≡ some s → has_file s.path i.files ≡ true

-- A change of the writer that leaves the contents alone.
record IsQuiet (i i' : RollingInner) : Type 0 where
  still_attached : IsAttached i'
  same : (p : Text) → content p i'.files ≡ content p i.files

IsQuiet-trans : (i j k : RollingInner) → IsQuiet i j → IsQuiet j k → IsQuiet i k
IsQuiet-trans i j k q r = record {
  still_attached = r.still_attached;
  same = λ p. r.same p ∙ q.same p;
}

IsQuiet-refl : (i : RollingInner) → IsAttached i → IsQuiet i i
IsQuiet-refl i a = record { still_attached = a; same = λ p. refl }

open_new-IsQuiet :
    (world : World) (i : RollingInner) → IsAttached i → IsQuiet i (open_new world i).1
unfolding open_new
open_new-IsQuiet world i a = elim (Bool-cases world.can_open) [
  | inl e ↦ rw (e) record {
    still_attached = record {
      keeps_all = a.keeps_all;
      attached = λ s h. rw (← path_of s h) (has_file-open_file (file_name i world.now) i.files);
    };
    same = λ p. content-open_file p (file_name i world.now) i.files;
  }
  | inr e ↦ rw (e) record {
    still_attached = record { keeps_all = a.keeps_all; attached = a.attached };
    same = λ p. refl;
  }
]
  where
    path_of :
        (s : RollingState)
        → some (record { path = file_name i world.now; bytes = 0; opened_at = world.now }) ≡ some s
        → file_name i world.now ≡ s.path
    path_of s h = ground (arith, h)

evict_beyond-IsQuiet :
    (world : World) (i : RollingInner) (keep : Option ℕ)
    → keep ≡ none
    → IsAttached i
    → IsQuiet i (evict_beyond world i keep)
unfolding evict_beyond
evict_beyond-IsQuiet world i none h a = IsQuiet-refl i a
evict_beyond-IsQuiet world i (some keep) h a = absurd (cc)

after_open-IsQuiet :
    (world : World) (r : Bool × RollingInner) → IsAttached r.1 → IsQuiet r.1 (after_open world r).1
unfolding after_open maybe_evict_old
after_open-IsQuiet world (false, i) a = IsQuiet-refl i a
after_open-IsQuiet world (true, i) a = evict_beyond-IsQuiet world i i.keep a.keeps_all a

due-IsQuiet :
    (world : World) (i : RollingInner) (current : Option RollingState)
    → IsAttached i
    → IsQuiet i (due world i current).1
unfolding due
due-IsQuiet world i none a = IsQuiet-refl i a
due-IsQuiet world i (some s) a = elim (Bool-cases (should_rotate i.policy world.now s)) [
  | inl e ↦
      let new = open_new-IsQuiet world i a in
      rw (e)
        (IsQuiet-trans i _ _ new (after_open-IsQuiet world (open_new world i) new.still_attached))
  | inr e ↦ rw (e) (IsQuiet-refl i a)
]

rotate_if_due-IsQuiet :
    (world : World) (r : Bool × RollingInner)
    → IsAttached r.1
    → IsQuiet r.1 (rotate_if_due world r).1
unfolding rotate_if_due
rotate_if_due-IsQuiet world (false, i) a = IsQuiet-refl i a
rotate_if_due-IsQuiet world (true, i) a = due-IsQuiet world i i.current a

opened-IsQuiet :
    (world : World) (i : RollingInner) (current : Option RollingState)
    → IsAttached i
    → IsQuiet i (opened world i current).1
unfolding opened
opened-IsQuiet world i none a = open_new-IsQuiet world i a
opened-IsQuiet world i (some s) a = IsQuiet-refl i a

ready-IsQuiet : (world : World) (i : RollingInner) → IsAttached i → IsQuiet i (ready world i).1
unfolding ready
ready-IsQuiet world i a =
    let open_now = opened-IsQuiet world i i.current a in
    IsQuiet-trans i _ _ open_now
      (rotate_if_due-IsQuiet world (opened world i i.current) open_now.still_attached)

-- A write that adds its entry to the file it names and leaves the others alone.
record Puts (i : RollingInner) (entries : List (ℕ × Text × Bytes)) (i' : RollingInner)
    : Type 0 where
  put_attached : IsAttached i'
  held : (p : Text) → content p i'.files ≡ replay p (content p i.files) entries

same_state : (s t : RollingState) → some s ≡ some t → s.path ≡ t.path
same_state s t h = ground (arith, h)

write_on-Puts :
    (world : World) (buf : Bytes) (i : RollingInner) (current : Option RollingState)
    → i.current ≡ current
    → IsAttached i
    → Puts i (entry_of world buf current) (write_on world buf i current).1
unfolding write_on entry_of replay
write_on-Puts world buf i none e a = record { put_attached = a; held = λ p. refl }
write_on-Puts world buf i (some s) e a =
    let there = a.attached s e in
    record {
      put_attached = record {
        keeps_all = a.keeps_all;
        attached = λ t h.
            rw (← (sym (note_bytes-path world buf s) ∙ same_state (note_bytes world buf s) t h))
              (has_file-append_to s.path (put world buf) i.files there);
      };
      held = λ p. content-append_to p s.path (put world buf) i.files there;
    }

write_to-Puts :
    (world : World) (buf : Bytes) (r : Bool × RollingInner)
    → IsAttached r.1
    → Puts r.1 (entry world buf r) (write_to world buf r).1
unfolding write_to entry replay
write_to-Puts world buf (false, i) a = record { put_attached = a; held = λ p. refl }
write_to-Puts world buf (true, i) a = write_on-Puts world buf i i.current refl a

write-Puts :
    (world : World) (buf : Bytes) (i : RollingInner)
    → IsAttached i
    → Puts i (entry world buf (ready world i)) (write world buf i).1
unfolding write
write-Puts world buf i a =
    let quiet = ready-IsQuiet world i a in
    let puts = write_to-Puts world buf (ready world i) quiet.still_attached in
    record {
      put_attached = puts.put_attached;
      held = λ p.
          puts.held p ∙ ap (λ held. replay p held (entry world buf (ready world i))) (quiet.same p);
    }

replay-append :
    (p : Text) (held : Bytes) (xs ys : List (ℕ × Text × Bytes))
    → replay p held (xs ++ ys) ≡ replay p (replay p held xs) ys
unfolding replay
replay-append p held [] ys = refl
replay-append p held ((now, q, bs) ∷ xs) ys =
    ground (arith, replay-append p (held ++ bs) xs ys, replay-append p held xs ys)

run-replay :
    (writes : List (World × Bytes)) (i : RollingInner)
    → IsAttached i
    → (p : Text) → content p (run writes i).files ≡ replay p (content p i.files) (log writes i)
unfolding run log replay
run-replay [] i a p = refl
run-replay ((world, buf) ∷ writes) i a p =
    let puts = write-Puts world buf i a in
    run-replay writes (write world buf i).1 puts.put_attached p
    ∙ ap (λ held. replay p held (log writes (write world buf i).1)) (puts.held p)
    ∙ sym (
        replay-append p (content p i.files) (entry world buf (ready world i))
          (log writes (write world buf i).1))

-- Of a writer that evicts nothing and has no file open yet, every file of the directory holds in the
-- end what it held, and behind that the bytes of those writes for which it was the current file, in
-- their order, whatever policy there is and whichever file operations fail.
pub run_refines_log :
    (writes : List (World × Bytes)) (i : RollingInner)
    → i.keep ≡ none
    → i.current ≡ none
    → (p : Text) → content p (run writes i).files ≡ replay p (content p i.files) (log writes i)
run_refines_log writes i keeps closed p =
    run-replay writes i (record { keeps_all = keeps; attached = λ s h. absurd (cc) }) p
