-- ===== src/Batch/Worker/Reship.antt =====
-- Shipping the files of the spool again: `list` of crates/obs-sink-batch/src/spool.rs, and what the
-- worker does with the records at its retry ticks.
use obs.Prelude.{
  ℕ, ◌+◌, ◌-◌, ◌*◌, ◌/◌, ◌^◌, min, Bool, false, ◌&&◌, ◌||◌, Option, none, some, List, [], ◌∷◌, ◌++◌,
  Text, length, ltb, leb, ◌==◌, text_eq, if◌then◌else◌, ok, err,
}
use obs.Wire.Message.{Message}
use obs.Batch.Spool.{File, u32_max, read_file, remove}
use obs.Batch.Worker.State.{
  BatchBackend, BatchConfig, World, Reason, SelfEvent, Worker, fetch_add, described, label_of, emit,
}
use obs.Batch.Worker.Flush.{Uploaded, done, fatal, exhausted, upload_loop, reason_of}

pub record SpoolRecord (E : Type 0) : Type 0 where
  pub path : Text
  pub envelopes : List E
  pub first_failed_at_ms : ℕ
  pub partition_hex : Text

unfoldable pub has : ℕ → Text → Bool
has at [] = false
has at (c ∷ s) = (c == at) || has at s

-- The text behind the last `at`, and in front of it; the whole text if there is none.
unfoldable pub after_last : ℕ → Text → Text
unfolding has
after_last at [] = []
after_last at (c ∷ s) =
    let rest = after_last at s in if has at s then rest else if c == at then s else c ∷ s

unfoldable pub before_last : ℕ → Text → Text
unfolding has
before_last at [] = []
before_last at (c ∷ s) =
    let rest = before_last at s in if has at s then c ∷ rest else if c == at then [] else c ∷ s

unfoldable pub split_once : ℕ → Text → Option Text
split_once at [] = none
split_once at (c ∷ s) =
    let rest : Option Text = elim (split_once at s) [
      | none ↦ none
      | some front ↦ some (c ∷ front)
    ] in
    if c == at then some [] else rest

unfoldable pub parse_digits : ℕ → Text → Option ℕ
parse_digits n [] = some n
parse_digits n (c ∷ s) =
    let rest = parse_digits (n * 10 + (c - b'0')) s in
    if leb b'0' c && leb c b'9' then rest else none

-- `parse::<i64>()` of a text with no `-`.
unfoldable pub parse_i64 : Text → Option ℕ
unfolding parse_digits
parse_i64 [] = none
parse_i64 (c ∷ s) =
    let digits = (if c == b'+' then s else c ∷ s) in
    elim digits [
      | [] ↦ none
      | d ∷ ds ↦ elim (parse_digits 0 (d ∷ ds)) [
        | none ↦ none
        | some n ↦ if ltb n (2 ^ 63) then some n else none
      ]
    ]

unfoldable pub parse_timestamp : Text → ℕ
unfolding before_last after_last split_once parse_i64
parse_timestamp path = elim (split_once b'-' (before_last b'.' (after_last b'/' path))) [
  | none ↦ 0
  | some ts ↦ elim (parse_i64 ts) [ none ↦ 0 | some n ↦ n ]
]

module _ {E : Type 0} (m : Message E) where
  unfoldable pub read_record : File → Option (SpoolRecord E)
  unfolding read_file parse_timestamp before_last after_last
  read_record f = elim (read_file m f.content) [
    | none ↦ none
    | some r ↦ elim r [
      | err e ↦ none
      | ok envelopes ↦ some record {
        path = f.path;
        envelopes = envelopes;
        first_failed_at_ms = parse_timestamp f.path;
        partition_hex = after_last b'/' (before_last b'/' f.path);
      }
    ]
  ]

  -- The records, and the files that are then left: one that cannot be read is removed.
  unfoldable pub list : (Text → Bool) → List File → List (SpoolRecord E) × List File
  unfolding read_record
  list can_remove [] = ([], [])
  list can_remove (f ∷ fs) =
      let (records, files) = list can_remove fs in
      elim (read_record f) [
        | some r ↦ (r ∷ records, f ∷ files)
        | none ↦ (records, if can_remove f.path then files else f ∷ files)
      ]

unfoldable pub find_file : Text → List File → Option File
find_file path [] = none
find_file path (f ∷ fs) =
    let rest = find_file path fs in if text_eq f.path path then some f else rest

module _ {E K Body : Type 0} (m : Message E) (b : BatchBackend E K Body) (config : BatchConfig)
    (world : World K Body) where
  unfoldable pub remove_file : Text → Worker E K → Worker E K
  unfolding remove
  remove_file path w = record w {
    files = if world.can_remove path then remove path w.files else w.files;
  }

  unfoldable pub move_to_failed : Text → Worker E K → Option (Worker E K)
  unfolding find_file remove
  move_to_failed path w =
      if world.can_move path
      then elim (find_file path w.files) [
        | none ↦ none
        | some f ↦
            some record w { files = remove path w.files; failed_files = w.failed_files ++ (f ∷ []) }
      ]
      else none

  -- The age is compared as integers: a clock that went back gives a negative one.
  unfoldable pub escalate_if_stuck : Text → Text → ℕ → Reason → Worker E K → Worker E K
  unfolding move_to_failed emit fetch_add
  escalate_if_stuck path label first_failed_at_ms last_err w =
      if leb (first_failed_at_ms + config.escalate_after_ms) world.now
      then elim (move_to_failed path w) [
        | none ↦ w
        | some w' ↦
            emit
              (SelfEvent.escalated label (min ((world.now - first_failed_at_ms) / 60000) u32_max)
                last_err)
              (record w' {
                counters = record w'.counters { escalated = fetch_add w'.counters.escalated };
              })
      ]
      else w

  unfoldable pub after_reship : SpoolRecord E → Text → Uploaded × Worker E K → Worker E K
  unfolding remove_file emit fetch_add escalate_if_stuck reason_of
  after_reship rec label (done attempt, w) = remove_file rec.path (
      emit (SelfEvent.recovered label (length rec.envelopes))
        (record w { counters = record w.counters { recovered = fetch_add w.counters.recovered } }))
  after_reship rec label (fatal attempt msg, w) =
      escalate_if_stuck rec.path label rec.first_failed_at_ms (Reason.upload msg) w
  after_reship rec label (exhausted attempt last_err, w) =
      escalate_if_stuck rec.path label rec.first_failed_at_ms (reason_of last_err) w

  unfoldable pub reship_as : SpoolRecord E → Option K → Worker E K → Worker E K
  unfolding described label_of escalate_if_stuck upload_loop after_reship
  reship_as rec none w = w
  reship_as rec (some key) w =
      let (backend_key, partition) = b.describe_key key in
      let label = label_of rec.partition_hex partition in
      elim (b.encode_batch key rec.envelopes) [
        | err msg ↦ escalate_if_stuck rec.path label rec.first_failed_at_ms (Reason.encode msg) w
        | ok body ↦ after_reship rec label (
            upload_loop config (world.upload key body) backend_key label config.max_attempts 0 none
              w)
      ]

  unfoldable pub reship_envelopes : SpoolRecord E → List E → Worker E K → Worker E K
  unfolding remove_file reship_as
  reship_envelopes rec [] w = remove_file rec.path w
  reship_envelopes rec (first ∷ envs) w = reship_as rec (b.partition_key first) w

  unfoldable pub try_reship : SpoolRecord E → Worker E K → Worker E K
  unfolding reship_envelopes
  try_reship rec w = reship_envelopes rec rec.envelopes w

  unfoldable pub reship_all : List (SpoolRecord E) → Worker E K → Worker E K
  unfolding try_reship
  reship_all [] w = w
  reship_all (rec ∷ records) w = reship_all records (try_reship rec w)

  -- A tick of the retry timer: `recover_spool` at the first, which reports a list that fails, and
  -- `drive_spool_retry` at the others.
  unfoldable pub on_tick : Bool → Worker E K → Worker E K
  unfolding emit list reship_all
  on_tick is_first w =
      if world.can_list
      then (let (records, files) = list m world.can_remove w.files in
          reship_all records (record w { files = files }))
      else if is_first
      then emit (SelfEvent.failed [] [] 0 Reason.spool_list_failed) w
      else w
