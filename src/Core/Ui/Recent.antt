-- ===== src/Core/Ui/Recent.antt =====
-- Which tasks the page of core lists.
use vantage_core.Prelude.{
  ℕ, zero, suc, ◌+◌, ◌≤◌, ◌≡◌, ◌⊎◌, inl, inr, refl, ap, sym, ◌∙◌, subst, Bool, List, [], ◌∷◌, ◌++◌,
  length, take, drop, map, filter, leb, arith, All, if◌then◌else◌, Bool-cases, length-take,
  take-append-drop,
}
use vantage_core.Core.Repo.{list_tasks}
use vantage_core.Core.Task.{Task}
use vantage_core.Core.Ui.{Ui, insert, recent_first, recent_limit, task_view, stats}

-- Received no later.
abbrev pub Before : Task → Task → Type 0
Before x y = y.received_at ≤ x.received_at

-- The last received first.
abbrev pub IsRecentFirst : List Task → Type 0
IsRecentFirst [] = Unit
IsRecentFirst (x ∷ xs) = All (Before x) xs × IsRecentFirst xs

All-insert :
    (x t : Task) (us : List Task) → Before x t → All (Before x) us → All (Before x) (insert t us)
unfolding insert
All-insert x t [] h hs = (h, hs)
All-insert x t (u ∷ us) h (k, ks) = elim (Bool-cases (leb u.received_at t.received_at)) [
  | inl e ↦ rw (e, insert) (h, (k, ks))
  | inr e ↦ rw (e, insert) (k, All-insert x t us h ks)
]

All-Before : (x y : Task) (us : List Task) → Before x y → All (Before y) us → All (Before x) us
All-Before x y [] h hs = hs
All-Before x y (u ∷ us) h (k, ks) = (omega (arith, h, k), All-Before x y us h ks)

insert-IsRecentFirst : (t : Task) (us : List Task) → IsRecentFirst us → IsRecentFirst (insert t us)
unfolding insert
insert-IsRecentFirst t [] h = (tt, tt)
insert-IsRecentFirst t (u ∷ us) (h, hs) = elim (Bool-cases (leb u.received_at t.received_at)) [
  | inl e ↦
      let k : Before t u = ground arith in rw (e, insert) ((k, All-Before t u us k h), (h, hs))
  | inr e ↦ rw (e, insert) (All-insert u t us (ground arith) h, insert-IsRecentFirst t us hs)
]

recent_first-IsRecentFirst : (ts : List Task) → IsRecentFirst (recent_first ts)
unfolding recent_first
recent_first-IsRecentFirst [] = tt
recent_first-IsRecentFirst (t ∷ ts) =
    insert-IsRecentFirst t (recent_first ts) (recent_first-IsRecentFirst ts)

module _ (p : Task → Bool) where
  length-filter-insert :
      (t : Task) (us : List Task)
      → length (filter p (insert t us)) ≡ length (filter p us) + (if p t then 1 else 0)
  unfolding insert
  length-filter-insert t [] = ground arith
  length-filter-insert t (u ∷ us) = ground (arith, length-filter-insert t us)

  length-filter-recent_first :
      (ts : List Task) → length (filter p (recent_first ts)) ≡ length (filter p ts)
  unfolding recent_first
  length-filter-recent_first [] = refl
  length-filter-recent_first (t ∷ ts) =
      ground (arith, length-filter-insert t (recent_first ts), length-filter-recent_first ts)

All-append-right : (x : Task) (xs ys : List Task) → All (Before x) (xs ++ ys) → All (Before x) ys
All-append-right x [] ys h = h
All-append-right x (z ∷ zs) ys (h, hs) = All-append-right x zs ys hs

-- In an ordered list what comes first was received no earlier than what comes later.
split-IsRecentFirst :
    (xs ys : List Task) → IsRecentFirst (xs ++ ys) → All (λ x. All (Before x) ys) xs
split-IsRecentFirst [] ys h = tt
split-IsRecentFirst (x ∷ xs) ys (h, hs) = (All-append-right x xs ys h, split-IsRecentFirst xs ys hs)

All-append-left : (x : Task) (xs ys : List Task) → All (Before x) (xs ++ ys) → All (Before x) xs
All-append-left x [] ys h = tt
All-append-left x (z ∷ zs) ys (h, hs) = (h, All-append-left x zs ys hs)

init-IsRecentFirst : (xs ys : List Task) → IsRecentFirst (xs ++ ys) → IsRecentFirst xs
init-IsRecentFirst [] ys h = tt
init-IsRecentFirst (x ∷ xs) ys (h, hs) = (All-append-left x xs ys h, init-IsRecentFirst xs ys hs)

-- Nothing is left out, or as many are taken as are wanted.
all_or_full : (n : ℕ) (ts : List Task) → (drop n ts ≡ []) ⊎ (length (take n ts) ≡ n)
all_or_full zero ts = inr refl
all_or_full (suc n) [] = inl refl
all_or_full (suc n) (t ∷ ts) = elim (all_or_full n ts) [
  | inl e ↦ inl e
  | inr e ↦ inr (omega (arith, e))
]

-- The page lists the tasks that were received last: those of the repository are the listed ones and the
-- others, each as often as before; a listed one was received no earlier than the listed ones after it
-- and than the others; and all are listed, or twenty.
pub recent_tasks-stats :
    {Number Stream : Type 0} (now : ℕ) (r : Ui Number Stream)
    → (listed : List Task) × (others : List Task) × ((stats now r).recent_tasks
        ≡ map (task_view r.ar) listed)
      × ((p : Task → Bool)
          → length (filter p (listed ++ others)) ≡ length (filter p (list_tasks r.task_repo [])))
      × IsRecentFirst listed
      × All (λ x. All (Before x) others) listed
      × ((others ≡ []) ⊎ (length listed ≡ 20))
      × (length listed ≤ 20)
unfolding stats
recent_tasks-stats now r =
    let all = list_tasks r.task_repo [] in
    let sorted = recent_first all in
    let whole = take-append-drop recent_limit sorted in
    let order : IsRecentFirst (take 20 sorted ++ drop 20 sorted) =
      subst IsRecentFirst (sym whole) (recent_first-IsRecentFirst all) in
    (
      take 20 sorted,
      drop 20 sorted,
      refl,
      λ p. ap (λ l. length (filter p l)) whole ∙ length-filter-recent_first p all,
      init-IsRecentFirst (take 20 sorted) (drop 20 sorted) order,
      split-IsRecentFirst (take 20 sorted) (drop 20 sorted) order,
      all_or_full 20 sorted,
      omega (arith, length-take 20 sorted),
    )
