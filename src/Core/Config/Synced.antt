-- ===== src/Core/Config/Synced.antt =====
-- The registries of core and its database, when collections change and reloads come late or fail.
use vantage_core.Prelude.{
  ℕ, zero, suc, Option, All, ◌≡◌, refl, Bool, true, false, ◌||◌, not, List, [], ◌∷◌, none, some,
  arith, if◌then◌else◌, Bool-cases, inl, inr, ◌↔◌, subst, sym, ◌++◌, map,
}
use vantage_core.Core.Config.{DbRecord, Decoder}
use vantage_core.Core.Config.Watch.{
  Collection, agents, missions, agent_layouts, agent_groups, telemetry_settings, Reload,
  reload_agents, reload_memberships, reload_missions, reload_layouts, reload_schemas,
  reload_mappings, reload_settings, collection_of, bound, Database, Configured, install,
}
use vantage_core.Core.Config.Shows.{Shows, install-Shows, install-IsCache, install-keeps}
use vantage_core.Telemetry.Registry.{Library}
use vantage_core.Telemetry.Registry.Loading.{IsCache}

Reload-discrete : Discrete Reload
Reload-discrete = hlevel

Collection-discrete : Discrete Collection
Collection-discrete = hlevel

abbrev is_reload : Reload → Reload → Bool
is_reload h k = elim (Reload-discrete h k) [ yes _ ↦ true | no _ ↦ false ]

abbrev is_collection : Collection → Collection → Bool
is_collection a b = elim (Collection-discrete a b) [ yes _ ↦ true | no _ ↦ false ]

is_reload_iff : (h k : Reload) → (is_reload h k ≡ true) ↔ (h ≡ k)
is_reload_iff h k =
    elim (Reload-discrete h k)
      as (λ x. ((elim x [ yes _ ↦ true | no _ ↦ false ]) ≡ true) ↔ (h ≡ k)) [
        | yes p ↦ (λ _. p, λ _. refl)
        | no n ↦ (λ e. cc, λ p. absurd (n p))
      ]

-- A reload that has read and not yet set, with the rows that it read, and whether its collection has not
-- changed since.
pub record Reading (Number : Type 0) : Type 0 where
  pub reload : Reload
  pub rows : List (DbRecord Number)
  pub current : Bool

-- The database, what was set from it, the reloads that are on their way, the last to read first, and the
-- parts for which the rows that were set last, if any, were read before the last change.
pub record Core (Number Stream Resolved : Type 0) : Type 0 where
  pub db : Database Number
  pub configured : Configured Number Stream Resolved
  pub reading : List (Reading Number)
  pub pending : Reload → Bool

-- `sets n` is of the n-th reload on its way.
pub data Happening (Number : Type 0) : Type 0 where
  changes : Collection → List (DbRecord Number) → Happening Number
  reads : Reload → Happening Number
  sets : ℕ → Happening Number
  fails_to_read : Reload → Happening Number

abbrev pub nth : {A : Type 0} → ℕ → List A → Option A
nth n [] = none
nth zero (x ∷ xs) = some x
nth (suc n) (x ∷ xs) = nth n xs

abbrev pub remove : {A : Type 0} → ℕ → List A → List A
remove n [] = []
remove zero (x ∷ xs) = xs
remove (suc n) (x ∷ xs) = x ∷ remove n xs

All-nth :
    {A : Type 0} (P : A → Type 0) (n : ℕ) (xs : List A) (x : A) → nth n xs ≡ some x → All P xs → P x
All-nth P n [] x e h = absurd (ground arith)
All-nth P zero (y ∷ ys) x e (h, hs) = let same : y ≡ x = cc in subst P same h
All-nth P (suc n) (y ∷ ys) x e (h, hs) = All-nth P n ys x e hs

All-remove : {A : Type 0} (P : A → Type 0) (n : ℕ) (xs : List A) → All P xs → All P (remove n xs)
All-remove P n [] h = tt
All-remove P zero (x ∷ xs) (h, hs) = hs
All-remove P (suc n) (x ∷ xs) (h, hs) = (h, All-remove P n xs hs)

module _ {Number : Type 0} where
  -- A reload that runs on its own.
  abbrev pub reloads : List Reload → List (Happening Number)
  reloads [] = []
  reloads (k ∷ ks) = reads k ∷ sets 0 ∷ reloads ks

  -- What the source does when a collection changes.
  abbrev pub reaction : Collection → List (DbRecord Number) → List (Happening Number)
  reaction coll rows = changes coll rows ∷ reloads (bound coll)

  abbrev pub reactions : List (Collection × List (DbRecord Number)) → List (Happening Number)
  reactions [] = []
  reactions ((coll, rows) ∷ cs) = reaction coll rows ++ reactions cs

  -- A change makes the readings of its collection old.
  abbrev aged : Collection → Reading Number → Reading Number
  aged coll x =
      if is_collection (collection_of x.reload) coll then record x { current = false } else x

  abbrev pub IsReading : Database Number → Reading Number → Type 0
  IsReading db x = x.current ≡ true → x.rows ≡ db (collection_of x.reload)

  abbrev changed : Collection → List (DbRecord Number) → Database Number → Database Number
  changed coll rows db = λ k. if is_collection k coll then rows else db k

  aged-IsReading :
      (coll : Collection) (rows : List (DbRecord Number)) (db : Database Number)
      (xs : List (Reading Number))
      → All (IsReading db) xs
      → All (IsReading (changed coll rows db)) (map (aged coll) xs)
  aged-IsReading coll rows db [] h = tt
  aged-IsReading coll rows db (x ∷ xs) (h, hs) =
      let rest = aged-IsReading coll rows db xs hs in
      elim (Bool-cases (is_collection (collection_of x.reload) coll)) [
        | inl same ↦ rw same (λ e. cc, rest)
        | inr other ↦ rw other (λ e. rw other (h e), rest)
      ]

module _ {Number Stream Schema Resolved : Type 0} (d : Decoder Number)
    (lib : Library Schema Resolved) where
  -- The end of a reload that has read.
  abbrev set_from :
      ℕ → Core Number Stream Resolved → Option (Reading Number) → Core Number Stream Resolved
  set_from n s none = s
  set_from n s (some x) = record s {
    configured = install d lib x.reload x.rows s.configured;
    reading = remove n s.reading;
    pending = λ h. if is_reload h x.reload then not x.current else s.pending h;
  }

  pub after : Happening Number → Core Number Stream Resolved → Core Number Stream Resolved
  after (changes coll rows) s = record s {
    db = changed coll rows s.db;
    reading = map (aged coll) s.reading;
    pending = λ h. is_collection (collection_of h) coll || s.pending h;
  }
  after (reads k) s = record s {
    reading = record { reload = k; rows = s.db (collection_of k); current = true } ∷ s.reading;
  }
  after (sets n) s = set_from n s (nth n s.reading)
  after (fails_to_read k) s = s

  pub after_all :
      List (Happening Number) → Core Number Stream Resolved → Core Number Stream Resolved
  after_all [] s = s
  after_all (x ∷ xs) s = after_all xs (after x s)

  -- Every part of the registries that is not pending is what its loader makes of the rows in the database.
  pub record IsSynced (s : Core Number Stream Resolved) : Type 0 where
    pub cache : IsCache lib s.configured.schema_registry.compiled
    pub shows :
        (h : Reload) → s.pending h ≡ false → Shows d lib h (s.db (collection_of h)) s.configured
    pub readings : All (IsReading s.db) s.reading

  set_from-IsSynced :
      (n : ℕ) (s : Core Number Stream Resolved) (o : Option (Reading Number))
      → nth n s.reading ≡ o
      → IsSynced s
      → IsSynced (set_from n s o)
  set_from-IsSynced n s none e v = v
  set_from-IsSynced n s (some x) e v = record {
    cache = install-IsCache d lib x.reload x.rows s.configured v.cache;
    shows = λ h p. elim (Bool-cases (is_reload h x.reload)) [
      | inl same ↦
          let now : x.current ≡ true = ground arith in
          let rows_now = All-nth (IsReading s.db) n s.reading x e v.readings now in
          let installed = install-Shows d lib x.reload x.rows s.configured v.cache in
          subst
            (λ k.
              Shows d lib k (s.db (collection_of k)) (install d lib x.reload x.rows s.configured))
            (sym ((is_reload_iff h x.reload).0 same))
            (subst (λ rs. Shows d lib x.reload rs (install d lib x.reload x.rows s.configured))
              rows_now installed)
      | inr other ↦
          install-keeps d lib h x.reload (s.db (collection_of h)) x.rows s.configured
            (λ q. cc ((is_reload_iff h x.reload).1 q)) (v.shows h (ground arith))
    ];
    readings = All-remove (IsReading s.db) n s.reading v.readings;
  }

  after-IsSynced :
      (x : Happening Number) (s : Core Number Stream Resolved) → IsSynced s → IsSynced (after x s)
  unfolding after
  after-IsSynced (changes coll rows) s v = record {
    cache = v.cache;
    shows = λ h e. elim (Bool-cases (is_collection (collection_of h) coll)) [
      | inl same ↦ absurd (ground arith)
      | inr other ↦ rw other (v.shows h (ground arith))
    ];
    readings = aged-IsReading coll rows s.db s.reading v.readings;
  }
  after-IsSynced (reads k) s v = record {
    cache = v.cache;
    shows = v.shows;
    readings = (λ e. refl, v.readings);
  }
  after-IsSynced (sets n) s v = set_from-IsSynced n s (nth n s.reading) refl v
  after-IsSynced (fails_to_read k) s v = v

  pub after_all-IsSynced :
      (xs : List (Happening Number)) (s : Core Number Stream Resolved)
      → IsSynced s
      → IsSynced (after_all xs s)
  unfolding after_all
  after_all-IsSynced [] s v = v
  after_all-IsSynced (x ∷ xs) s v = after_all-IsSynced xs (after x s) (after-IsSynced x s v)

  after_all-append :
      (xs ys : List (Happening Number)) (s : Core Number Stream Resolved)
      → after_all (xs ++ ys) s ≡ after_all ys (after_all xs s)
  unfolding after_all
  after_all-append [] ys s = refl
  after_all-append (x ∷ xs) ys s = after_all-append xs ys (after x s)

  reaction-pending :
      (coll : Collection) (rows : List (DbRecord Number)) (s : Core Number Stream Resolved)
      (h : Reload)
      → (after_all (reaction coll rows) s).pending h
        ≡ (if is_collection (collection_of h) coll then false else s.pending h)
  unfolding after_all after Reload-discrete Collection-discrete
  reaction-pending agents rows s reload_agents = refl
  reaction-pending agents rows s reload_memberships = refl
  reaction-pending agents rows s reload_missions = refl
  reaction-pending agents rows s reload_layouts = refl
  reaction-pending agents rows s reload_schemas = refl
  reaction-pending agents rows s reload_mappings = refl
  reaction-pending agents rows s reload_settings = refl
  reaction-pending missions rows s reload_agents = refl
  reaction-pending missions rows s _ = refl
  reaction-pending agent_layouts rows s reload_agents = refl
  reaction-pending agent_layouts rows s _ = refl
  reaction-pending agent_groups rows s reload_agents = refl
  reaction-pending agent_groups rows s _ = refl
  reaction-pending telemetry_settings rows s reload_agents = refl
  reaction-pending telemetry_settings rows s _ = refl

  reactions-pending :
      (cs : List (Collection × List (DbRecord Number))) (s : Core Number Stream Resolved)
      → ((h : Reload) → s.pending h ≡ false)
      → (h : Reload) → (after_all (reactions cs) s).pending h ≡ false
  unfolding after_all
  reactions-pending [] s n h = n h
  reactions-pending ((coll, rows) ∷ cs) s n h =
      rw (after_all-append (reaction coll rows) (reactions cs) s) (
        reactions-pending cs (after_all (reaction coll rows) s)
          (λ k. ground (arith, reaction-pending coll rows s k, n k)) h)

  -- From registries that are what the loaders make of the database, after any series of changes, each followed by its
  -- reloads as they are bound, one after the other, every part of the registries is again what its loader
  -- makes of the rows in the database.
  pub reactions-Shows :
      (cs : List (Collection × List (DbRecord Number))) (s : Core Number Stream Resolved)
      → IsSynced s
      → ((h : Reload) → s.pending h ≡ false)
      → (h : Reload)
      → Shows d lib h
          ((after_all (reactions cs) s).db (collection_of h))
          (after_all (reactions cs) s).configured
  reactions-Shows cs s v n h =
      (after_all-IsSynced (reactions cs) s v).shows h (reactions-pending cs s n h)
