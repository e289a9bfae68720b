-- ===== src/Sink/Rolling/Log.antt =====
-- The writes of a run as a log.
use obs.Prelude.{
  ℕ, ◌≡◌, refl, inl, inr, Bool, true, false, Option, none, some, Option-cases, List, [], ◌∷◌, ◌++◌,
  Text, Bytes, text_eq, if◌then◌else◌,
}
use obs.Sink.Rolling.{RollingState, RollingInner, World, ready, put, note_bytes, write}

-- The file that a write goes to, with the time and the bytes that it gets.
unfoldable pub entry_of : World → Bytes → Option RollingState → List (ℕ × Text × Bytes)
entry_of world buf none = []
entry_of world buf (some s) = (world.now, s.path, put world buf) ∷ []

unfoldable pub entry : World → Bytes → Bool × RollingInner → List (ℕ × Text × Bytes)
unfolding entry_of
entry world buf (false, i) = []
entry world buf (true, i) = entry_of world buf i.current

unfoldable pub log : List (World × Bytes) → RollingInner → List (ℕ × Text × Bytes)
unfolding entry
log [] i = []
log ((world, buf) ∷ writes) i = entry world buf (ready world i) ++ log writes (write world buf i).1

-- What a file holds behind `held` when the entries of the log that name it are appended in order.
unfoldable pub replay : Text → Bytes → List (ℕ × Text × Bytes) → Bytes
replay path held [] = held
replay path held ((now, p, bs) ∷ log) =
    let grown = replay path (held ++ bs) log in
    let same = replay path held log in if text_eq p path then grown else same

pub note_bytes-path :
    (world : World) (buf : Bytes) (s : RollingState) → (note_bytes world buf s).path ≡ s.path
unfolding note_bytes
note_bytes-path world buf s = elim (Option-cases world.written) [
  | inl e ↦ rw (note_bytes, e) refl
  | inr (n, e) ↦ rw (note_bytes, e) refl
]

pub note_bytes-opened_at :
    (world : World) (buf : Bytes) (s : RollingState)
    → (note_bytes world buf s).opened_at ≡ s.opened_at
unfolding note_bytes
note_bytes-opened_at world buf s = elim (Option-cases world.written) [
  | inl e ↦ rw (note_bytes, e) refl
  | inr (n, e) ↦ rw (note_bytes, e) refl
]
