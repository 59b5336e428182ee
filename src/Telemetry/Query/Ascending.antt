-- ===== src/Telemetry/Query/Ascending.antt =====
-- Rows in the order of time, and what is after a time, between two, or first.
use vantage_core.Prelude.{
  ℕ, suc, zero, ◌≤◌, ◌<◌, ◌≡◌, refl, ap, List, [], ◌∷◌, some, ltb, take, drop, length, filter,
  get_last?, All, arith,
}
use vantage_core.Telemetry.Query.{Point, between}

abbrev pub StrictlyAscending : List Point → Type 0
StrictlyAscending [] = Unit
StrictlyAscending (p ∷ ps) = All (λ q. p.time < q.time) ps × StrictlyAscending ps

abbrev pub after : ℕ → List Point → List Point
after t = filter (λ p. ltb t p.time)

pub after_all : (t : ℕ) (ps : List Point) → All (λ q. t < q.time) ps → after t ps ≡ ps
after_all t [] h = refl
after_all t (p ∷ ps) (h, hs) = ground (arith, after_all t ps hs)

All-between :
    (t from to : ℕ) (ps : List Point)
    → All (λ q. t < q.time) ps
    → All (λ q. t < q.time) (between from to ps)
All-between t from to [] h = tt
All-between t from to (p ∷ ps) (h, hs) = ground (arith, All-between t from to ps hs)

pub between-StrictlyAscending :
    (from to : ℕ) (ps : List Point) → StrictlyAscending ps → StrictlyAscending (between from to ps)
between-StrictlyAscending from to [] h = tt
between-StrictlyAscending from to (p ∷ ps) (h, hs) =
    ground (arith, All-between p.time from to ps h, between-StrictlyAscending from to ps hs)

pub between-later : (from to : ℕ) (ps : List Point) → All (λ q. from < q.time) (between from to ps)
between-later from to [] = tt
between-later from to (p ∷ ps) = ground (arith, between-later from to ps)

pub after-between :
    (t from to : ℕ) (ps : List Point) → from ≤ t → after t (between from to ps) ≡ between t to ps
after-between t from to [] h = refl
after-between t from to (p ∷ ps) h = ground (arith, after-between t from to ps h)

-- The last of the first rows exists, stands behind a bound of all of them, and the rows after it are
-- the others.
pub last_of_take :
    (n b : ℕ) (ps : List Point)
    → StrictlyAscending ps
    → All (λ q. b < q.time) ps
    → n < length ps
    → (p : Point) × (get_last? (take (suc n) ps) ≡ some p)
      × (b < p.time)
      × (after p.time ps ≡ drop (suc n) ps)
last_of_take n b [] a h l = absurd (omega arith)
last_of_take zero b (p ∷ ps) (a, aq) (h, hs) l = (p, refl, h, ground (arith, after_all p.time ps a))
last_of_take (suc n) b (p ∷ []) (a, aq) (h, hs) l = absurd (omega arith)
last_of_take (suc n) b (p ∷ q ∷ ps) (a, aq) (h, hs) l =
    let (x, e, c, d) = last_of_take n p.time (q ∷ ps) aq a (omega arith) in
    (x, e, omega (arith, c, h), ground (arith, d))

pub take_long : (n : ℕ) (ps : List Point) → length (take (suc n) ps) ≤ n → take (suc n) ps ≡ ps
take_long n [] h = refl
take_long zero (p ∷ ps) h = absurd (omega arith)
take_long (suc n) (p ∷ ps) h = ap (◌∷◌ p) (take_long n ps (omega arith))

pub take-take : (n : ℕ) (ps : List Point) → take n (take (suc n) ps) ≡ take n ps
take-take zero ps = refl
take-take (suc n) [] = refl
take-take (suc n) (p ∷ ps) = ap (◌∷◌ p) (take-take n ps)

pub longer : (n : ℕ) (ps : List Point) → n < length (take (suc n) ps) → n < length ps
longer n [] h = absurd (omega arith)
longer zero (p ∷ ps) h = omega arith
longer (suc n) (p ∷ ps) h = omega (arith, longer n ps (omega arith))
