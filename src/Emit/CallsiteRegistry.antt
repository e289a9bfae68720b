-- ===== src/Emit/CallsiteRegistry.antt =====
-- crates/obs-core/src/registry/callsite_registry.rs: ids of callsites and their registry.
pub mod Ids
pub mod Insert
pub mod Digest
mod Tests
use obs.Prelude.{
  ℕ, ◌+◌, ◌/◌, ◌%◌, ◌^◌, bit_or, Bool, true, false, Option, none, some, List, [], ◌∷◌, ◌++◌, Bytes,
  Text, length, take, drop, ltb, ◌==◌, if◌then◌else◌,
}
use obs.Emit.Severity.{Severity, unspecified, trace, debug, info, warn, error, fatal}
use obs.Wire.Payload.{from_le_bytes}

pub data CallsiteSource : Type 0 where
  tracing_event tracing_span forensic instrument : CallsiteSource

unfoldable pub source_byte : CallsiteSource → ℕ
source_byte tracing_event = 1
source_byte tracing_span = 2
source_byte forensic = 3
source_byte instrument = 4

unfoldable pub severity_byte : Severity → ℕ
severity_byte unspecified = 0
severity_byte trace = 1
severity_byte debug = 2
severity_byte info = 3
severity_byte warn = 4
severity_byte error = 5
severity_byte fatal = 6

pub record CallsiteRecord : Type 0 where
  pub id : ℕ
  pub source : CallsiteSource
  pub target : Text
  pub name : Text
  pub module_path : Text
  pub file : Text
  pub line : Option ℕ
  pub sev : Severity
  pub field_names : List Text
  pub template : Text
  pub registered_ns : ℕ
  pub events_since_refresh : ℕ

unfoldable pub reset_count : CallsiteRecord → CallsiteRecord
reset_count r = record r { events_since_refresh = 0 }

-- `observe` with the count that it returns; the atomic wraps as a u64.
unfoldable pub observe : CallsiteRecord → ℕ × CallsiteRecord
observe r =
    let n = (r.events_since_refresh + 1) % 2 ^ 64 in (n, record r { events_since_refresh = n })

-- `unwrap_or(0)`, and the four bytes of a u32.
unfoldable pub line_bytes : Option ℕ → Bytes
line_bytes none = 0 ∷ 0 ∷ 0 ∷ 0 ∷ []
line_bytes (some n) = (n % 256) ∷ (n / 2 ^ 8 % 256) ∷ (n / 2 ^ 16 % 256) ∷ (n / 2 ^ 24 % 256) ∷ []

unfoldable pub names_bytes : List Text → Bytes
names_bytes [] = []
names_bytes (name ∷ names) = name ++ (0 ∷ names_bytes names)

unfoldable pub perturb_to_nonzero : Bytes → ℕ
unfolding from_le_bytes
perturb_to_nonzero raw =
    bit_or
      (from_le_bytes
        (if ltb (length raw) 16 then 0 ∷ 0 ∷ 0 ∷ 0 ∷ 0 ∷ 0 ∷ 0 ∷ 0 ∷ [] else take 8 (drop 8 raw)))
      1

-- What the hasher has been given, in the order of the updates.
unfoldable pub hash_input :
    CallsiteSource → Text → Text → Option ℕ → Severity → List Text → Text → Bytes
unfolding source_byte severity_byte line_bytes names_bytes
hash_input source target file line level field_names template =
    (source_byte source ∷ [])
    ++ (target
        ++ (file
            ++ (line_bytes line
                ++ ((severity_byte level ∷ []) ++ (names_bytes field_names ++ template)))))

-- The head of a hash, unless it is zero.
unfoldable pub id_of : Bytes → ℕ
unfolding from_le_bytes perturb_to_nonzero
id_of raw =
    let id =
      from_le_bytes
        (if ltb (length raw) 8 then 0 ∷ 0 ∷ 0 ∷ 0 ∷ 0 ∷ 0 ∷ 0 ∷ 0 ∷ [] else take 8 raw) in
    if id == 0 then perturb_to_nonzero raw else id

-- `blake3` is the third-party hash.
unfoldable pub callsite_id :
    (Bytes → Bytes) → CallsiteSource → Text → Text → Option ℕ → Severity → List Text → Text → ℕ
unfolding hash_input id_of
callsite_id blake3 source target file line level field_names template =
    id_of (blake3 (hash_input source target file line level field_names template))

-- The registry lists its records; a lookup is by id.
abbrev pub Registry : Type 0
Registry = List CallsiteRecord

unfoldable pub get : Registry → ℕ → Option CallsiteRecord
get [] id = none
get (r ∷ rs) id = let rest = get rs id in if r.id == id then some r else rest

-- `insert_if_absent`, with the map as the first lookup finds it and as the entry finds it: other
-- threads may have inserted in between. The record that is kept, whether it is new, and the map.
unfoldable pub insert_if_absent :
    CallsiteRecord → Registry → Registry → CallsiteRecord × Bool × Registry
unfolding get
insert_if_absent r at_get at_entry = elim (get at_get r.id) [
  | some existing ↦ (existing, false, at_entry)
  | none ↦ elim (get at_entry r.id) [
    | some existing ↦ (existing, false, at_entry)
    | none ↦ (r, true, r ∷ at_entry)
  ]
]
