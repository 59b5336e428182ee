-- ===== src/Telemetry/Mapping/Paths.antt =====
-- Paths into a payload.
use vantage_core.Prelude.{
  ℕ, ◌<◌, ◌≡◌, ◌↔◌, refl, sym, ap, ◌∙◌, false, List, [], ◌∷◌, ◌++◌, some, Str, lit, nat_eq, length,
  has_prefix, cut_prefix, trim_prefix, Lacks, All, arith, Option-cases, inl, inr, subst,
}
use vantage_core.Telemetry.Json.{
  Json, Fields, get_field, object, null, boolean, number, string, array,
}
use vantage_core.Telemetry.Mapping.{split, dot, stripped, walk, extract}

-- `strings.Join` at a separator of one byte
abbrev pub join : ℕ → List Str → Str
join c [] = []
join c (p ∷ []) = p
join c (p ∷ q ∷ ps) = p ++ c ∷ join c (q ∷ ps)

split-Lacks : (c : ℕ) (p : Str) → Lacks c p → split c p ≡ p ∷ []
unfolding split
split-Lacks c [] h = refl
split-Lacks c (a ∷ p) (h, hs) = ground (arith, split-Lacks c p hs)

split-append : (c : ℕ) (p s : Str) → Lacks c p → split c (p ++ c ∷ s) ≡ p ∷ split c s
unfolding split
split-append c [] s h = ground arith
split-append c (a ∷ p) s (h, hs) = ground (arith, split-append c p s hs)

-- Splitting what was joined.
pub split-join :
    (c : ℕ) (p : Str) (ps : List Str) → All (Lacks c) (p ∷ ps) → split c (join c (p ∷ ps)) ≡ p ∷ ps
split-join c p [] (h, hs) = split-Lacks c p h
split-join c p (q ∷ ps) (h, hs) =
    split-append c p (join c (q ∷ ps)) h ∙ ap (◌∷◌ p) (split-join c q ps hs)

-- The value that stands in a payload at the end of a chain of keys.
pub data At : Json → List Str → Json → Type 0 where
  here : {v : Json} → At v [] v
  below :
      {fs : Fields} {k : Str} {ks : List Str} {u v : Json}
      → get_field fs k ≡ some u
      → At u ks v
      → At (object fs) (k ∷ ks) v

walk-At : {u v : Json} {ks : List Str} → At u ks v → walk ks u ≡ some v
unfolding walk
walk-At here = refl
walk-At (below e a) = rw (walk, e) (walk-At a)

At-walk : (ks : List Str) (u v : Json) → walk ks u ≡ some v → At u ks v
unfolding walk
At-walk [] u v h = subst (λ x. At u [] x) (ground arith) here
At-walk (k ∷ ks) (object fs) v h = elim (Option-cases (get_field fs k)) [
  | inl e ↦ absurd (ground arith)
  | inr (u, e) ↦ below e (At-walk ks u v (ground arith))
]
At-walk (k ∷ ks) null v h = absurd (ground arith)
At-walk (k ∷ ks) (boolean _) v h = absurd (ground arith)
At-walk (k ∷ ks) (number _) v h = absurd (ground arith)
At-walk (k ∷ ks) (string _) v h = absurd (ground arith)
At-walk (k ∷ ks) (array _) v h = absurd (ground arith)

stripped_dollar : (s : Str) → has_prefix s (lit "$") ≡ false → stripped (lit "$." ++ s) ≡ s
unfolding trim_prefix cut_prefix has_prefix
stripped_dollar s h = ground arith

-- A path that is written `$.k1.k2...` leads to a value exactly if the value stands in the payload at
-- the end of this chain of keys. No key has a dot, and the part after `$.` is not empty and does not
-- start with another `$`.
pub extract-eq-some_iff :
    (payload v : Json) (k : Str) (ks : List Str)
    → All (Lacks dot) (k ∷ ks)
    → 0 < length (join dot (k ∷ ks))
    → has_prefix (join dot (k ∷ ks)) (lit "$") ≡ false
    → (extract payload (lit "$." ++ join dot (k ∷ ks)) ≡ some v) ↔ At payload (k ∷ ks) v
unfolding extract
extract-eq-some_iff payload v k ks h n d =
    let p = join dot (k ∷ ks) in
    let some_path : nat_eq (length p) 0 ≡ false = ground arith in
    let same : extract payload (lit "$." ++ p) ≡ walk (k ∷ ks) payload =
      rw (extract, stripped_dollar p d, some_path, split-join dot k ks h) refl in
    (λ e. At-walk (k ∷ ks) payload v (sym same ∙ e), λ a. same ∙ walk-At a)
