-- ===== src/Telemetry/Registry/Loading.antt =====
-- The loop over the schemas of the groups.
use vantage_core.Prelude.{
  ◌≡◌, refl, ap, ◌∙◌, true, false, [], ◌∷◌, Option, none, some, is_some, Str, ◌==◌, ==_iff, ==_refl,
  if◌then◌else◌, arith, Option-cases, Bool-cases, inl, inr, subst,
}
use vantage_core.Prelude.Assoc
use vantage_core.Prelude.Assoc.{Map}
use vantage_core.Telemetry.Registry.{
  Library, CompiledSchema, Loaded, is_live, retain, digest, hash_schema, compile, is_unset,
  load_hashed, load, load_all,
}

pub get-retain :
    {Resolved : Type 0} (live : Map Str) (m : Map (CompiledSchema Resolved)) (hash : Str)
    → Assoc.get (retain live m) hash ≡ (if is_live live hash then Assoc.get m hash else none)
unfolding retain Assoc.get
get-retain live [] hash = ground arith
get-retain live ((h, c) ∷ m) hash = ground (arith, ==_iff h hash, get-retain live m hash)

pub is_live_pointed :
    (m : Map Str) (group hash : Str) → Assoc.get m group ≡ some hash → is_live m hash ≡ true
unfolding is_live Assoc.get
is_live_pointed [] group hash h = absurd (ground arith)
is_live_pointed ((g, x) ∷ m) group hash h =
    ground (arith, ==_refl hash, is_live_pointed m group hash)

pub get-nil : (k : Str) → Assoc.get {V = Str} [] k ≡ none
unfolding Assoc.get
get-nil k = refl

module _ {Schema Resolved : Type 0} (lib : Library Schema Resolved) where
  -- A compiled schema stands under the hash of its text, and is what this text compiles to.
  pub record IsCache (m : Map (CompiledSchema Resolved)) : Type 0 where
    pub at :
        (hash : Str) (c : CompiledSchema Resolved)
        → Assoc.get m hash ≡ some c
        → (digest lib c.raw ≡ hash) × (compile lib c.raw ≡ some c.resolved)

  -- Each group that has a hash has a compiled schema under it.
  pub record Pointed (l : Loaded Resolved) : Type 0 where
    pub cache : IsCache l.compiled
    pub pointed :
        (group hash : Str)
        → Assoc.get l.group_hash group ≡ some hash
        → is_some (Assoc.get l.compiled hash) ≡ true

  hash_schema-digest :
      (raw hash canon : Str) → hash_schema lib raw ≡ some (hash, canon) → digest lib canon ≡ hash
  unfolding hash_schema
  hash_schema-digest raw hash canon h = ground arith

  load_hashed-Pointed :
      (group : Str) (l : Loaded Resolved) (o : Option (Str × Str))
      → ((hash canon : Str) → o ≡ some (hash, canon) → digest lib canon ≡ hash)
      → Pointed l
      → Pointed (load_hashed lib group l o)
  load_hashed-Pointed group l none d h = record { cache = h.cache; pointed = h.pointed }
  load_hashed-Pointed group l (some (hash, canon)) d h =
      elim (Option-cases (Assoc.get l.compiled hash)) [
        | inr (c, e) ↦
            rw (e, load_hashed)
              (record {
                cache = h.cache;
                pointed =
                    λ g x q. ground (arith, Assoc.get-put l.group_hash group g hash, h.pointed g x);
              })
        | inl e ↦ elim (Option-cases (compile lib canon)) [
          | inl n ↦ rw (e, load_hashed, n) (record { cache = h.cache; pointed = h.pointed })
          | inr (x, n) ↦
              rw (e, load_hashed, n)
                (record {
                  cache = record {
                    at = λ i c q. ground (
                      arith,
                      Assoc.get-put l.compiled hash i (record { raw = canon; resolved = x }),
                      ==_iff hash i,
                      h.cache.at i c,
                      d hash canon refl,
                    );
                  };
                  pointed = λ g y q. ground (
                    arith,
                    Assoc.get-put l.group_hash group g hash,
                    Assoc.get-put l.compiled hash y (record { raw = canon; resolved = x }),
                    ==_refl hash,
                    h.pointed g y,
                  );
                })
        ]
      ]

  load-Pointed :
      (group raw : Str) (l : Loaded Resolved) → Pointed l → Pointed (load lib group raw l)
  unfolding load
  load-Pointed group raw l h = elim (Bool-cases (is_unset lib raw)) [
    | inl e ↦ rw (e, load) h
    | inr e ↦
        rw (e, load) (load_hashed-Pointed group l (hash_schema lib raw) (hash_schema-digest raw) h)
  ]

  pub load_all-Pointed :
      (schemas : Map Str) (l : Loaded Resolved) → Pointed l → Pointed (load_all lib schemas l)
  unfolding load_all
  load_all-Pointed [] l h = h
  load_all-Pointed ((g, raw) ∷ schemas) l h =
      load_all-Pointed schemas (load lib g raw l) (load-Pointed g raw l h)

  -- The contract that a group's schema asks for.
  abbrev pub contract : Str → Option (Str × Str)
  contract raw = if is_unset lib raw then none else hash_schema lib raw

  get-load_hashed :
      (group k : Str) (l : Loaded Resolved) (o : Option (Str × Str))
      → (group == k) ≡ false
      → Assoc.get (load_hashed lib group l o).group_hash k ≡ Assoc.get l.group_hash k
  get-load_hashed group k l none n = refl
  get-load_hashed group k l (some (hash, canon)) n =
      elim (Option-cases (Assoc.get l.compiled hash)) [
        | inr (c, e) ↦ rw (e, load_hashed) (ground (arith, Assoc.get-put l.group_hash group k hash))
        | inl e ↦ elim (Option-cases (compile lib canon)) [
          | inl m ↦ rw (e, load_hashed, m) refl
          | inr (x, m) ↦
              rw (e, load_hashed, m) (ground (arith, Assoc.get-put l.group_hash group k hash))
        ]
      ]

  get-load :
      (group raw k : Str) (l : Loaded Resolved)
      → (group == k) ≡ false
      → Assoc.get (load lib group raw l).group_hash k ≡ Assoc.get l.group_hash k
  unfolding load
  get-load group raw k l n = elim (Bool-cases (is_unset lib raw)) [
    | inl e ↦ rw (e, load) refl
    | inr e ↦ rw (e, load) (get-load_hashed group k l (hash_schema lib raw) n)
  ]

  load_unset :
      (group raw : Str) (l : Loaded Resolved)
      → contract raw ≡ none
      → (load lib group raw l).group_hash ≡ l.group_hash
  unfolding load
  load_unset group raw l h = elim (Bool-cases (is_unset lib raw)) [
    | inl e ↦ rw (e, load) refl
    | inr e ↦ rw (e, load, rw e at h) refl
  ]

  get-load_set :
      (group raw hash canon : Str) (x : Resolved) (l : Loaded Resolved)
      → contract raw ≡ some (hash, canon)
      → compile lib canon ≡ some x
      → Assoc.get (load lib group raw l).group_hash group ≡ some hash
  unfolding load
  get-load_set group raw hash canon x l h c = elim (Bool-cases (is_unset lib raw)) [
    | inl e ↦ absurd (ground arith)
    | inr e ↦ elim (Option-cases (Assoc.get l.compiled hash)) [
      | inr (y, g) ↦
          rw (e, load, rw e at h, load_hashed, g)
            (ground (arith, Assoc.get-put l.group_hash group group hash, ==_refl group))
      | inl g ↦
          rw (e, load, rw e at h, load_hashed, g, c)
            (ground (arith, Assoc.get-put l.group_hash group group hash, ==_refl group))
    ]
  ]

  pub load_all-absent :
      (schemas : Map Str) (k : Str) (l : Loaded Resolved)
      → Assoc.get schemas k ≡ none
      → Assoc.get (load_all lib schemas l).group_hash k ≡ Assoc.get l.group_hash k
  unfolding load_all Assoc.get
  load_all-absent [] k l h = refl
  load_all-absent ((g, raw) ∷ schemas) k l h =
      load_all-absent schemas k (load lib g raw l) (ground arith)
      ∙ get-load g raw k l (ground arith)

  pub load_all-unset :
      (schemas : Map Str) (k raw : Str) (l : Loaded Resolved)
      → Assoc.Distinct schemas
      → Assoc.get schemas k ≡ some raw
      → contract raw ≡ none
      → Assoc.get (load_all lib schemas l).group_hash k ≡ Assoc.get l.group_hash k
  unfolding load_all Assoc.get
  load_all-unset [] k raw l d h c = refl
  load_all-unset ((g, other) ∷ schemas) k raw l (d, ds) h c = elim (Bool-cases (g == k)) [
    | inr e ↦
        load_all-unset schemas k raw (load lib g other l) ds (ground arith) c
        ∙ get-load g other k l e
    | inl e ↦
        let same : other ≡ raw = ground arith in
        load_all-absent schemas k (load lib g other l) (ground (arith, ==_iff g k))
        ∙ ap (λ m. Assoc.get m k) (load_unset g other l (rw same c))
  ]

  pub load_all-set :
      (schemas : Map Str) (k raw hash canon : Str) (x : Resolved) (l : Loaded Resolved)
      → Assoc.Distinct schemas
      → Assoc.get schemas k ≡ some raw
      → contract raw ≡ some (hash, canon)
      → compile lib canon ≡ some x
      → Assoc.get (load_all lib schemas l).group_hash k ≡ some hash
  unfolding load_all Assoc.get
  load_all-set [] k raw hash canon x l d h c m = absurd (ground arith)
  load_all-set ((g, other) ∷ schemas) k raw hash canon x l (d, ds) h c m =
      elim (Bool-cases (g == k)) [
        | inr e ↦ load_all-set schemas k raw hash canon x (load lib g other l) ds (ground arith) c m
        | inl e ↦
            let same : other ≡ raw = ground arith in
            let key : g ≡ k = ground (arith, ==_iff g k) in
            load_all-absent schemas k (load lib g other l) (ground (arith, ==_iff g k))
            ∙ subst (λ j. Assoc.get (load lib g other l).group_hash j ≡ some hash) key
                (get-load_set g other hash canon x l (rw same c) m)
      ]
