-- ===== src/Sink/Rolling.antt =====
-- `RollingFileWriter` of crates/obs-core/src/sink/writer.rs.
pub mod Files
pub mod Log
pub mod Content
pub mod Daily
pub mod Named
mod Tests
use obs.Prelude.{
  ℕ, zero, suc, ◌+◌, ◌-◌, ◌*◌, ◌/◌, ◌%◌, ◌^◌, Bool, true, false, not, ◌&&◌, Option, none, some,
  List, [], ◌∷◌, ◌++◌, Text, Bytes, text_eq, length, take, drop, ltb, leb, ◌==◌, if◌then◌else◌,
}
use obs.Sink.Date.{ymd_from_secs}

pub data RollingPolicy : Type 0 where
  never daily hourly : RollingPolicy
  size_based : ℕ → RollingPolicy
  size_or_age : ℕ → ℕ → RollingPolicy

pub record File : Type 0 where
  pub path : Text
  pub content : Bytes

pub record RollingState : Type 0 where
  pub path : Text
  pub bytes : ℕ
  pub opened_at : ℕ

-- `files` are those of the directory, in the order of their last change.
pub record RollingInner : Type 0 where
  pub prefix : Text
  pub suffix : Text
  pub policy : RollingPolicy
  pub keep : Option ℕ
  pub current : Option RollingState
  pub files : List File
  pub roll_counter : ℕ

-- The clock, in nanoseconds since the epoch, and how the file operations of a call turn out; `written`
-- is how much a write that fails has put into the file.
pub record World : Type 0 where
  pub now : ℕ
  pub can_open : Bool
  pub written : Option ℕ
  pub can_list : Bool
  pub can_remove : Text → Bool

unfoldable pub secs_of : ℕ → ℕ
secs_of now = now / 10 ^ 9

-- 20 digits are enough for a u64.
unfoldable pub digits : ℕ → ℕ → Text
digits zero n = []
digits (suc fuel) n =
    let front = digits fuel (n / 10) in
    if ltb n 10 then (b'0' + n) ∷ [] else front ++ ((b'0' + n % 10) ∷ [])

unfoldable pub zeros : ℕ → Text
zeros zero = []
zeros (suc n) = b'0' ∷ zeros n

-- `{n:0width}`
unfoldable pub padded : ℕ → ℕ → Text
unfolding digits zeros
padded width n = zeros (width - length (digits 20 n)) ++ digits 20 n

unfoldable pub date_text : ℕ × ℕ × ℕ → Text
unfolding padded
date_text (y, m, d) = padded 4 y ++ (b'-' ∷ padded 2 m) ++ (b'-' ∷ padded 2 d)

unfoldable pub format_date_stamp : ℕ → Text
unfolding date_text
format_date_stamp secs = date_text (ymd_from_secs secs)

unfoldable pub format_hour_stamp : ℕ → Text
unfolding format_date_stamp padded
format_hour_stamp secs = format_date_stamp secs ++ (b'.' ∷ padded 2 ((secs / 3600) % 24))

unfoldable pub stamp : RollingPolicy → ℕ → ℕ → Text
unfolding format_date_stamp format_hour_stamp padded digits
stamp daily secs counter = format_date_stamp secs
stamp hourly secs counter = format_hour_stamp secs
stamp (size_based max_bytes) secs counter = padded 6 counter
stamp never secs counter = digits 20 secs ++ (b'-' ∷ digits 20 counter)
stamp (size_or_age max_bytes max_age) secs counter = digits 20 secs ++ (b'-' ∷ digits 20 counter)

unfoldable pub counts : RollingPolicy → Bool
counts daily = false
counts hourly = false
counts never = true
counts (size_based max_bytes) = true
counts (size_or_age max_bytes max_age) = true

unfoldable pub file_name : RollingInner → ℕ → Text
unfolding stamp secs_of
file_name i now = i.prefix ++ (b'.' ∷ stamp i.policy (secs_of now) i.roll_counter) ++ i.suffix

unfoldable pub has_file : Text → List File → Bool
has_file path [] = false
has_file path (f ∷ fs) = let rest = has_file path fs in if text_eq f.path path then true else rest

-- `OpenOptions::new().create(true).append(true).open(path)`
unfoldable pub open_file : Text → List File → List File
unfolding has_file
open_file path files =
    if has_file path files then files else files ++ (record { path = path; content = [] } ∷ [])

unfoldable pub open_new : World → RollingInner → Bool × RollingInner
unfolding file_name counts open_file
open_new world i =
    let path = file_name i world.now in
    let i' = record i {
      roll_counter = if counts i.policy then (i.roll_counter + 1) % 2 ^ 64 else i.roll_counter;
    } in
    if world.can_open
    then (
      true,
      record i' {
        files = open_file path i.files;
        current = some (record { path = path; bytes = 0; opened_at = world.now });
      },
    )
    else (false, i')

unfoldable pub should_rotate : RollingPolicy → ℕ → RollingState → Bool
unfolding secs_of
should_rotate never now s = false
should_rotate (size_based max_bytes) now s = leb max_bytes s.bytes
should_rotate daily now s = not (secs_of s.opened_at / 86400 == secs_of now / 86400)
should_rotate hourly now s = not (secs_of s.opened_at / 3600 == secs_of now / 3600)
should_rotate (size_or_age max_bytes max_age) now s =
    if leb max_bytes s.bytes then true else leb max_age (now - s.opened_at)

unfoldable pub starts_with : Text → Text → Bool
starts_with [] s = true
starts_with (c ∷ cs) [] = false
starts_with (c ∷ cs) (d ∷ ds) = let rest = starts_with cs ds in if c == d then rest else false

unfoldable pub ends_with : Text → Text → Bool
unfolding starts_with
ends_with suffix s = text_eq suffix (drop (length s - length suffix) s)

unfoldable pub matches : RollingInner → Text → Bool
unfolding starts_with ends_with
matches i name = starts_with i.prefix name && ends_with i.suffix name

unfoldable pub count_matches : RollingInner → List File → ℕ
unfolding matches
count_matches i [] = 0
count_matches i (f ∷ fs) =
    let rest = count_matches i fs in if matches i f.path then rest + 1 else rest

-- `extras` of the matching files go, the oldest first, each unless its removal fails.
unfoldable pub remove_extras : RollingInner → (Text → Bool) → ℕ → List File → List File
unfolding matches
remove_extras i can_remove zero files = files
remove_extras i can_remove (suc extras) [] = []
remove_extras i can_remove (suc extras) (f ∷ fs) =
    let gone = remove_extras i can_remove extras fs in
    let passed = f ∷ remove_extras i can_remove (suc extras) fs in
    if matches i f.path then (if can_remove f.path then gone else f ∷ gone) else passed

unfoldable pub evict_beyond : World → RollingInner → Option ℕ → RollingInner
unfolding remove_extras count_matches
evict_beyond world i none = i
evict_beyond world i (some keep) =
    if world.can_list
    then record i {
      files = remove_extras i world.can_remove (count_matches i i.files - keep) i.files;
    }
    else i

unfoldable pub maybe_evict_old : World → RollingInner → RollingInner
unfolding evict_beyond
maybe_evict_old world i = evict_beyond world i i.keep

unfoldable pub after_open : World → Bool × RollingInner → Bool × RollingInner
unfolding maybe_evict_old
after_open world (false, i) = (false, i)
after_open world (true, i) = (true, maybe_evict_old world i)

-- `with_state` behind its first lines, for the state that is then there.
unfoldable pub due : World → RollingInner → Option RollingState → Bool × RollingInner
unfolding should_rotate open_new after_open
due world i none = (false, i)
due world i (some s) =
    if should_rotate i.policy world.now s then after_open world (open_new world i) else (true, i)

unfoldable pub rotate_if_due : World → Bool × RollingInner → Bool × RollingInner
unfolding due
rotate_if_due world (false, i) = (false, i)
rotate_if_due world (true, i) = due world i i.current

unfoldable pub opened : World → RollingInner → Option RollingState → Bool × RollingInner
unfolding open_new
opened world i none = open_new world i
opened world i (some s) = (true, i)

-- `with_state` up to the call of its argument.
unfoldable pub ready : World → RollingInner → Bool × RollingInner
unfolding opened rotate_if_due
ready world i = rotate_if_due world (opened world i i.current)

unfoldable pub content : Text → List File → Bytes
content path [] = []
content path (f ∷ fs) =
    let rest = content path fs in if text_eq f.path path then f.content else rest

unfoldable pub without : Text → List File → List File
without path [] = []
without path (f ∷ fs) = let rest = without path fs in if text_eq f.path path then rest else f ∷ rest

-- What is appended to a file that was removed is in no file of the directory.
unfoldable pub append_to : Text → Bytes → List File → List File
unfolding has_file without content
append_to path [] files = files
append_to path (b ∷ bs) files =
    if has_file path files
    then without path files
      ++ (record { path = path; content = content path files ++ (b ∷ bs) } ∷ [])
    else files

unfoldable pub put : World → Bytes → Bytes
put world buf = elim world.written [ none ↦ buf | some n ↦ take n buf ]

unfoldable pub note_bytes : World → Bytes → RollingState → RollingState
note_bytes world buf s = elim world.written [
  | none ↦ record s { bytes = (s.bytes + length buf) % 2 ^ 64 }
  | some n ↦ s
]

unfoldable pub succeeds : World → Bool
succeeds world = elim world.written [ none ↦ true | some n ↦ false ]

unfoldable pub write_on : World → Bytes → RollingInner → Option RollingState → Bool × RollingInner
unfolding append_to put note_bytes succeeds
write_on world buf i none = (false, i)
write_on world buf i (some s) = (
  succeeds world,
  record i {
    files = append_to s.path (put world buf) i.files;
    current = some (note_bytes world buf s);
  },
)

unfoldable pub write_to : World → Bytes → Bool × RollingInner → Bool × RollingInner
unfolding write_on
write_to world buf (false, i) = (false, i)
write_to world buf (true, i) = write_on world buf i i.current

-- `RollingFileHandle::write`
unfoldable pub write : World → Bytes → RollingInner → Bool × RollingInner
unfolding ready write_to
write world buf i = write_to world buf (ready world i)

unfoldable pub run : List (World × Bytes) → RollingInner → RollingInner
unfolding write
run [] i = i
run ((world, buf) ∷ writes) i = run writes (write world buf i).1
