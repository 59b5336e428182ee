-- ===== src/Sdk/LinkedList/Pointers.antt =====
-- Laws of the elements of a list, whose pointers are distinct.
use vantage_core.Prelude.{
  ℕ, suc, ◌<◌, ◌≡◌, refl, List, [], ◌∷◌, none, some, nat_eq, length, get_last?, All, if◌then◌else◌,
  is_some, arith, Bool-cases, Option-cases, inl, inr, subst,
}
use vantage_core.Sdk.LinkedList.{find, without, to_front, assign}

module _ {ℓ} {A : Type ℓ} where
  abbrev pub DistinctPointers : List (ℕ × A) → Type ℓ
  DistinctPointers [] = Unit
  DistinctPointers ((d, v) ∷ l) = (find l d ≡ none) × DistinctPointers l

  pub find-without :
      (l : List (ℕ × A)) (e f : ℕ) → find (without l e) f ≡ (if nat_eq e f then none else find l f)
  unfolding find without
  find-without [] e f = ground arith
  find-without ((d, v) ∷ l) e f = ground (arith, find-without l e f)

  pub find-assign :
      (l : List (ℕ × A)) (e f : ℕ) (v : A)
      → find (assign e v l) f
        ≡ (if nat_eq e f then (if is_some (find l f) then some v else none) else find l f)
  unfolding find assign
  find-assign [] e f v = ground arith
  find-assign ((d, w) ∷ l) e f v = ground (arith, find-assign l e f v)

  pub without-DistinctPointers :
      (l : List (ℕ × A)) (e : ℕ) → DistinctPointers l → DistinctPointers (without l e)
  unfolding without
  without-DistinctPointers [] e h = tt
  without-DistinctPointers ((d, v) ∷ l) e (h, hs) =
      ground (arith, find-without l e d, without-DistinctPointers l e hs)

  pub assign-DistinctPointers :
      (l : List (ℕ × A)) (e : ℕ) (v : A) → DistinctPointers l → DistinctPointers (assign e v l)
  unfolding assign
  assign-DistinctPointers [] e v h = tt
  assign-DistinctPointers ((d, w) ∷ l) e v (h, hs) =
      ground (arith, find-assign l e d v, assign-DistinctPointers l e v hs)

  pub find_absent : (l : List (ℕ × A)) (n : ℕ) → All (λ x. x.0 < n) l → find l n ≡ none
  unfolding find
  find_absent [] n h = refl
  find_absent ((d, v) ∷ l) n (h, hs) = ground (arith, find_absent l n hs)

  pub All-without {κ} :
      (P : ℕ × A → Type κ) (l : List (ℕ × A)) (e : ℕ) → All P l → All P (without l e)
  unfolding without
  All-without P [] e h = tt
  All-without P ((d, v) ∷ l) e (h, hs) = ground (arith, All-without P l e hs)

  pub All-find {κ} :
      (P : ℕ × A → Type κ) (l : List (ℕ × A)) (e : ℕ) (v : A)
      → All P l
      → find l e ≡ some v
      → P (e, v)
  unfolding find
  All-find P [] e v h f = absurd (cc)
  All-find P ((d, w) ∷ l) e v (h, hs) f = elim (Bool-cases (nat_eq d e)) [
    | inl t ↦ let same : ◌≡◌ {A = ℕ × A} (d, w) (e, v) = ground arith in subst P same h
    | inr t ↦ All-find P l e v hs (ground arith)
  ]

  pub find_last :
      (l : List (ℕ × A)) (e : ℕ) (v : A)
      → DistinctPointers l
      → get_last? l ≡ some (e, v)
      → find l e ≡ some v
  unfolding find
  find_last [] e v h f = absurd (cc)
  find_last ((d, w) ∷ []) e v h f = ground arith
  find_last ((d, w) ∷ x ∷ l) e v (h, hs) f = ground (arith, find_last (x ∷ l) e v hs f)

  without_absent : (l : List (ℕ × A)) (e : ℕ) → find l e ≡ none → length (without l e) ≡ length l
  unfolding find without
  without_absent [] e h = refl
  without_absent ((d, v) ∷ l) e h = ground (arith, without_absent l e)

  pub length-without :
      (l : List (ℕ × A)) (e : ℕ)
      → DistinctPointers l
      → (if is_some (find l e) then suc (length (without l e)) else length (without l e)) ≡ length l
  unfolding find without
  length-without [] e h = refl
  length-without ((d, v) ∷ l) e (h, hs) = ground (arith, without_absent l e, length-without l e hs)

  pub get_last?-ne-none : (l : List (ℕ × A)) → get_last? l ≡ none → length l ≡ 0
  get_last?-ne-none [] h = refl
  get_last?-ne-none (x ∷ []) h = absurd (cc)
  get_last?-ne-none (x ∷ y ∷ l) h = absurd (ground (arith, get_last?-ne-none (y ∷ l) h))

  pub find-to_front : (l : List (ℕ × A)) (e f : ℕ) → find (to_front e l) f ≡ find l f
  unfolding find to_front
  find-to_front l e f = elim (Option-cases (find l e)) [
    | inl h ↦ ground arith
    | inr (v, h) ↦ ground (arith, find-without l e f)
  ]

  pub to_front-DistinctPointers :
      (l : List (ℕ × A)) (e : ℕ) → DistinctPointers l → DistinctPointers (to_front e l)
  unfolding to_front
  to_front-DistinctPointers l e h =
      ground (arith, find-without l e e, without-DistinctPointers l e h)

  pub All-to_front {κ} :
      (P : ℕ × A → Type κ) (l : List (ℕ × A)) (e : ℕ) → All P l → All P (to_front e l)
  unfolding to_front
  All-to_front P l e h = elim (Option-cases (find l e)) [
    | inl g ↦ rw (g, to_front) h
    | inr (v, g) ↦ rw (g, to_front) (All-find P l e v h g, All-without P l e h)
  ]

  pub length-to_front :
      (l : List (ℕ × A)) (e : ℕ) → DistinctPointers l → length (to_front e l) ≡ length l
  unfolding to_front
  length-to_front l e h = ground (arith, length-without l e h)

  pub length-assign : (l : List (ℕ × A)) (e : ℕ) (v : A) → length (assign e v l) ≡ length l
  unfolding assign
  length-assign [] e v = refl
  length-assign ((d, w) ∷ l) e v = ground (arith, length-assign l e v)

-- A predicate on the pointers alone outlives an assignment.
pub All-assign {ℓ κ} :
    {A : Type ℓ} (P : ℕ → Type κ) (l : List (ℕ × A)) (e : ℕ) (v : A)
    → All (λ x. P x.0) l
    → All (λ x. P x.0) (assign e v l)
unfolding assign
All-assign P [] e v h = tt
All-assign P ((d, w) ∷ l) e v (h, hs) = ground (arith, All-assign P l e v hs)
