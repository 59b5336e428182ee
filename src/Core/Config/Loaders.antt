-- ===== src/Core/Config/Loaders.antt =====
-- What the loaders of cmd/core/pbconfig.go read from the rows of a collection.
use vantage_core.Prelude.{
  ◌≡◌, refl, List, [], ◌∷◌, Option, none, some, Str, lit, ◌==◌, ==_iff, arith, if◌then◌else◌,
}
use vantage_core.Prelude.Assoc
use vantage_core.Prelude.Assoc.{Map, Distinct}
use vantage_core.Core.Config.{DbRecord, set_raw, add_raw, schemas_from, load_agent_group_schemas}

add_raw-Distinct :
    (id : Str) (o : Option Str) (m : Map Str) → Distinct m → Distinct (add_raw id o m)
add_raw-Distinct id none m h = h
add_raw-Distinct id (some raw) m h = Assoc.put-Distinct m id raw h

-- A value that is there, or another one.
abbrev or_else : Option Str → Option Str → Option Str
or_else none o = o
or_else (some a) o = some a

get-add_raw :
    (id k : Str) (o : Option Str) (m : Map Str)
    → Assoc.get (add_raw id o m) k ≡ (if id == k then or_else o (Assoc.get m k) else Assoc.get m k)
get-add_raw id k none m = ground arith
get-add_raw id k (some raw) m = ground (arith, Assoc.get-put m id k raw)

get-nil : (k : Str) → Assoc.get {V = Str} [] k ≡ none
unfolding Assoc.get
get-nil k = refl

module _ {Number : Type 0} where
  -- The first row with a record id.
  abbrev pub find_row : List (DbRecord Number) → Str → Option (DbRecord Number)
  find_row [] id = none
  find_row (r ∷ rs) id = if r.id == id then some r else find_row rs id

  -- The database gives each record an id of its own.
  abbrev pub IdsDiffer : List (DbRecord Number) → Type 0
  IdsDiffer [] = Unit
  IdsDiffer (r ∷ rs) = (find_row rs r.id ≡ none) × IdsDiffer rs

  abbrev pub schema_of : Option (DbRecord Number) → Option Str
  schema_of none = none
  schema_of (some r) = set_raw (Assoc.get r.raws (lit "telemetry_schema"))

  schemas_from-Distinct :
      (rs : List (DbRecord Number)) (m : Map Str) → Distinct m → Distinct (schemas_from rs m)
  unfolding schemas_from
  schemas_from-Distinct [] m h = h
  schemas_from-Distinct (r ∷ rs) m h =
      let o = set_raw (Assoc.get r.raws (lit "telemetry_schema")) in
      schemas_from-Distinct rs (add_raw r.id o m) (add_raw-Distinct r.id o m h)

  pub load_agent_group_schemas-Distinct :
      (rs : List (DbRecord Number)) → Distinct (load_agent_group_schemas rs)
  load_agent_group_schemas-Distinct rs = schemas_from-Distinct rs [] tt

  get-schemas_from :
      (rs : List (DbRecord Number)) (m : Map Str) (k : Str)
      → IdsDiffer rs
      → Assoc.get (schemas_from rs m) k ≡ or_else (schema_of (find_row rs k)) (Assoc.get m k)
  unfolding schemas_from
  get-schemas_from [] m k u = refl
  get-schemas_from (r ∷ rs) m k (u, us) =
      let o = set_raw (Assoc.get r.raws (lit "telemetry_schema")) in
      ground
        (arith, get-schemas_from rs (add_raw r.id o m) k us, get-add_raw r.id k o m, ==_iff r.id k)

  -- The schema that a group is loaded with is the one of its own row, if that is set and not null.
  pub get-load_agent_group_schemas :
      (rs : List (DbRecord Number)) (k : Str)
      → IdsDiffer rs
      → Assoc.get (load_agent_group_schemas rs) k ≡ schema_of (find_row rs k)
  get-load_agent_group_schemas rs k u = ground (arith, get-schemas_from rs [] k u, get-nil k)
