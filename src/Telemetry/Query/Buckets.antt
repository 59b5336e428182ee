-- ===== src/Telemetry/Query/Buckets.antt =====
-- The rows that a query reads, one of each bucket.
use vantage_core.Prelude.{
  ℕ, ◌≤◌, ◌<◌, ◌≡◌, refl, ap, ◌∙◌, true, false, Bool, ◌&&◌, ◌||◌, not, List, [], ◌∷◌, Option, none,
  some, ltb, nat_eq, filter, All, arith, Bool-cases, inl, inr, sym,
}
use vantage_core.Telemetry.Query.{Point, last_per_bucket, selected}
use vantage_core.Telemetry.Query.Ascending.{StrictlyAscending, after, after_all}

filter_hit :
    (f : Point → Bool) (p : Point) (ps : List Point)
    → f p ≡ true
    → filter f (p ∷ ps) ≡ p ∷ filter f ps
filter_hit f p ps e = ground arith

filter_miss :
    (f : Point → Bool) (p : Point) (ps : List Point) → f p ≡ false → filter f (p ∷ ps) ≡ filter f ps
filter_miss f p ps e = ground arith

last_per_bucket_same :
    (bucket : ℕ → ℕ) (p q : Point) (ps : List Point)
    → nat_eq (bucket p.time) (bucket q.time) ≡ true
    → last_per_bucket bucket (p ∷ q ∷ ps) ≡ last_per_bucket bucket (q ∷ ps)
unfolding last_per_bucket
last_per_bucket_same bucket p q ps e = ground arith

last_per_bucket_other :
    (bucket : ℕ → ℕ) (p q : Point) (ps : List Point)
    → nat_eq (bucket p.time) (bucket q.time) ≡ false
    → last_per_bucket bucket (p ∷ q ∷ ps) ≡ p ∷ last_per_bucket bucket (q ∷ ps)
unfolding last_per_bucket
last_per_bucket_other bucket p q ps e = ground arith

All-last_per_bucket :
    (P : Point → Type 0) (bucket : ℕ → ℕ) (ps : List Point)
    → All P ps
    → All P (last_per_bucket bucket ps)
unfolding last_per_bucket
All-last_per_bucket P bucket [] h = tt
All-last_per_bucket P bucket (p ∷ []) h = h
All-last_per_bucket P bucket (p ∷ q ∷ ps) (h, hs) =
    let rest = All-last_per_bucket P bucket (q ∷ ps) hs in
    elim (Bool-cases (nat_eq (bucket p.time) (bucket q.time))) [
      | inl e ↦ rw (last_per_bucket, e) rest
      | inr e ↦ rw (last_per_bucket, e) (h, rest)
    ]

pub All-selected :
    (P : Point → Type 0) (bucket : Option (ℕ → ℕ)) (ps : List Point)
    → All P ps
    → All P (selected bucket ps)
All-selected P none ps h = h
All-selected P (some bucket) ps h = All-last_per_bucket P bucket ps h

last_per_bucket-StrictlyAscending :
    (bucket : ℕ → ℕ) (ps : List Point)
    → StrictlyAscending ps
    → StrictlyAscending (last_per_bucket bucket ps)
unfolding last_per_bucket
last_per_bucket-StrictlyAscending bucket [] h = tt
last_per_bucket-StrictlyAscending bucket (p ∷ []) h = h
last_per_bucket-StrictlyAscending bucket (p ∷ q ∷ ps) (h, hs) =
    let rest = last_per_bucket-StrictlyAscending bucket (q ∷ ps) hs in
    elim (Bool-cases (nat_eq (bucket p.time) (bucket q.time))) [
      | inl e ↦ rw (last_per_bucket, e) rest
      | inr e ↦
          rw (last_per_bucket, e)
            (All-last_per_bucket (λ x. p.time < x.time) bucket (q ∷ ps) h, rest)
    ]

pub selected-StrictlyAscending :
    (bucket : Option (ℕ → ℕ)) (ps : List Point)
    → StrictlyAscending ps
    → StrictlyAscending (selected bucket ps)
selected-StrictlyAscending none ps h = h
selected-StrictlyAscending (some bucket) ps h = last_per_bucket-StrictlyAscending bucket ps h

All-later :
    (t u : ℕ) (ps : List Point) → t < u → All (λ q. u < q.time) ps → All (λ q. t < q.time) ps
All-later t u [] l h = tt
All-later t u (p ∷ ps) l (h, hs) = (omega arith, All-later t u ps l hs)

-- Where every row is later, the time takes none away.
after-last_per_bucket_all :
    (t : ℕ) (bucket : ℕ → ℕ) (ps : List Point)
    → All (λ q. t < q.time) ps
    → after t (last_per_bucket bucket ps) ≡ last_per_bucket bucket (after t ps)
after-last_per_bucket_all t bucket ps h =
    after_all t (last_per_bucket bucket ps) (All-last_per_bucket (λ q. t < q.time) bucket ps h)
    ∙ ap (last_per_bucket bucket) (sym (after_all t ps h))

after-last_per_bucket :
    (t : ℕ) (bucket : ℕ → ℕ) (ps : List Point)
    → StrictlyAscending ps
    → after t (last_per_bucket bucket ps) ≡ last_per_bucket bucket (after t ps)
unfolding last_per_bucket
after-last_per_bucket t bucket [] h = refl
after-last_per_bucket t bucket (p ∷ []) h = ground arith
after-last_per_bucket t bucket (p ∷ q ∷ ps) (h, hs) =
    let ih = after-last_per_bucket t bucket (q ∷ ps) hs in
    elim (Bool-cases (ltb t p.time)) [
      | inl e ↦
          let later : t < p.time = ground arith in
          after-last_per_bucket_all t bucket (p ∷ q ∷ ps)
            (later, All-later t p.time (q ∷ ps) later h)
      | inr e ↦ elim (Bool-cases (nat_eq (bucket p.time) (bucket q.time))) [
        | inl same ↦
            ap (after t) (last_per_bucket_same bucket p q ps same)
            ∙ ih
            ∙ ap (last_per_bucket bucket) (sym (filter_miss (λ x. ltb t x.time) p (q ∷ ps) e))
        | inr other ↦
            ap (after t) (last_per_bucket_other bucket p q ps other)
            ∙ filter_miss (λ x. ltb t x.time) p (last_per_bucket bucket (q ∷ ps)) e
            ∙ ih
            ∙ ap (last_per_bucket bucket) (sym (filter_miss (λ x. ltb t x.time) p (q ∷ ps) e))
      ]
    ]

pub after-selected :
    (t : ℕ) (bucket : Option (ℕ → ℕ)) (ps : List Point)
    → StrictlyAscending ps
    → after t (selected bucket ps) ≡ selected bucket (after t ps)
after-selected t none ps h = refl
after-selected t (some bucket) ps h = after-last_per_bucket t bucket ps h

-- Buckets are stretches of time, in its order.
abbrev pub Monotone : Option (ℕ → ℕ) → Type 0
Monotone none = Unit
Monotone (some bucket) = (t u : ℕ) → t ≤ u → bucket t ≤ bucket u

-- Whether one of the rows is later than this one and in its bucket.
unfoldable pub superseded : (ℕ → ℕ) → List Point → Point → Bool
superseded bucket [] p = false
superseded bucket (q ∷ qs) p =
    (nat_eq (bucket q.time) (bucket p.time) && ltb p.time q.time) || superseded bucket qs p

-- The rows that no later row of their bucket stands for.
abbrev pub newest : Option (ℕ → ℕ) → List Point → List Point
newest none ps = ps
newest (some bucket) ps = filter (λ p. not (superseded bucket ps p)) ps

filter-cong :
    (f g : Point → Bool) (ps : List Point) → All (λ p. f p ≡ g p) ps → filter f ps ≡ filter g ps
filter-cong f g [] h = refl
filter-cong f g (p ∷ ps) (h, hs) = ground (arith, filter-cong f g ps hs)

superseded_by_none :
    (bucket : ℕ → ℕ) (p : Point) (n : ℕ) (qs : List Point)
    → bucket p.time < n
    → All (λ q. n ≤ bucket q.time) qs
    → superseded bucket qs p ≡ false
unfolding superseded
superseded_by_none bucket p n [] l h = refl
superseded_by_none bucket p n (q ∷ qs) l (h, hs) =
    ground (arith, superseded_by_none bucket p n qs l hs)

superseded_by_earlier :
    (bucket : ℕ → ℕ) (p : Point) (ps qs : List Point)
    → All (λ q. p.time < q.time) qs
    → All (λ q. not (superseded bucket ps q) ≡ not (superseded bucket (p ∷ ps) q)) qs
unfolding superseded
superseded_by_earlier bucket p ps [] h = tt
superseded_by_earlier bucket p ps (q ∷ qs) (h, hs) =
    (ground arith, superseded_by_earlier bucket p ps qs hs)

All-bucket :
    (bucket : ℕ → ℕ) (m : Monotone (some bucket)) (q : Point) (ps : List Point)
    → All (λ p. q.time < p.time) ps
    → All (λ p. bucket q.time ≤ bucket p.time) ps
All-bucket bucket m q [] h = tt
All-bucket bucket m q (p ∷ ps) (h, hs) =
    (m q.time p.time (omega arith), All-bucket bucket m q ps hs)

last_per_bucket-newest :
    (bucket : ℕ → ℕ) (m : Monotone (some bucket)) (ps : List Point)
    → StrictlyAscending ps
    → last_per_bucket bucket ps ≡ newest (some bucket) ps
unfolding last_per_bucket superseded
last_per_bucket-newest bucket m [] h = refl
last_per_bucket-newest bucket m (p ∷ []) h = ground arith
last_per_bucket-newest bucket m (p ∷ q ∷ ps) (h, hs) =
    let ih = last_per_bucket-newest bucket m (q ∷ ps) hs in
    let rest =
      filter-cong (λ x. not (superseded bucket (q ∷ ps) x))
        (λ x. not (superseded bucket (p ∷ q ∷ ps) x)) (q ∷ ps)
        (superseded_by_earlier bucket p (q ∷ ps) (q ∷ ps) h) in
    elim (Bool-cases (nat_eq (bucket p.time) (bucket q.time))) [
      | inl e ↦
          last_per_bucket_same bucket p q ps e
          ∙ ih
          ∙ rest
          ∙ sym (
              filter_miss (λ x. not (superseded bucket (p ∷ q ∷ ps) x)) p (q ∷ ps)
                (ground (arith, h.0)))
      | inr e ↦
          let none_later =
            superseded_by_none bucket p (bucket q.time) (q ∷ ps)
              (ground (arith, m p.time q.time (omega (arith, h.0))))
              (omega arith, All-bucket bucket m q ps hs.0) in
          last_per_bucket_other bucket p q ps e
          ∙ ap (◌∷◌ p) (ih ∙ rest)
          ∙ sym (
              filter_hit (λ x. not (superseded bucket (p ∷ q ∷ ps) x)) p (q ∷ ps)
                (ground (arith, none_later)))
    ]

-- The rows that a query reads are the newest of their buckets.
pub selected-newest :
    (bucket : Option (ℕ → ℕ)) (ps : List Point)
    → Monotone bucket
    → StrictlyAscending ps
    → selected bucket ps ≡ newest bucket ps
selected-newest none ps m h = refl
selected-newest (some bucket) ps m h = last_per_bucket-newest bucket m ps h
