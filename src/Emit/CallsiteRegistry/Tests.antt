-- ===== src/Emit/CallsiteRegistry/Tests.antt =====
-- Runs of the registry of callsites, and the theorems on it at concrete inputs.
use obs.Prelude.{◌≡◌, true, false, none, some, [], ◌∷◌, Text, arith}
use obs.Emit.Severity.{debug}
use obs.Emit.CallsiteRegistry.{forensic, CallsiteRecord, get, insert_if_absent}
use obs.Emit.CallsiteRegistry.Insert.{insert_if_absent_lem}

abbrev name : Text
name = b'a' ∷ b'.' ∷ b'B' ∷ []

abbrev record_of_one : CallsiteRecord
record_of_one = record {
  id = 1;
  source = forensic;
  target = name;
  name = name;
  module_path = [];
  file = [];
  line = none;
  sev = debug;
  field_names = [];
  template = [];
  registered_ns = 5;
  events_since_refresh = 0;
}

abbrev other_record : CallsiteRecord
other_record = record record_of_one { id = 2 }

insert_if_absent_lem_example :
    let (kept, is_new, map') = insert_if_absent record_of_one [] (other_record ∷ []) in
    (get map' 1 ≡ some kept)
    × (get map' 2 ≡ get (other_record ∷ []) 2)
    × (is_new ≡ (elim (get (other_record ∷ []) 1) [ some old ↦ false | none ↦ true ]))
unfolding get
insert_if_absent_lem_example =
    insert_if_absent_lem record_of_one [] (other_record ∷ []) 2 (λ old h. absurd (cc)) (omega arith)
