-- ===== src/Sdk/LinkedList.antt =====
-- container/list of the standard library: a list of elements, each known by a pointer. Pointers are
-- numbers; a new element gets the next one.
pub mod Pointers
use vantage_core.Prelude.{
  ℕ, suc, Bool, true, false, List, [], ◌∷◌, Option, none, some, nat_eq, length, get_last?,
  if◌then◌else◌,
}

pub record LinkedList {ℓ} (A : Type ℓ) : Type ℓ where
  pub next : ℕ
  pub nodes : List (ℕ × A)

abbrev pub empty {ℓ} : {A : Type ℓ} → LinkedList A
empty = record { next = 0; nodes = [] }

module _ {ℓ} {A : Type ℓ} where
  -- `e.Value`, for an element of the list
  unfoldable pub find : List (ℕ × A) → ℕ → Option A
  find [] e = none
  find ((d, v) ∷ l) e = if nat_eq d e then some v else find l e

  unfoldable pub without : List (ℕ × A) → ℕ → List (ℕ × A)
  without [] e = []
  without ((d, v) ∷ l) e = let rest = without l e in if nat_eq d e then rest else (d, v) ∷ rest

  -- `l.PushFront(v)`, which returns the new element
  abbrev pub push_front : A → LinkedList A → LinkedList A × ℕ
  push_front v l = (record { next = suc l.next; nodes = (l.next, v) ∷ l.nodes }, l.next)

  -- `l.Remove(e)`
  abbrev pub remove : ℕ → LinkedList A → LinkedList A
  remove e l = record l { nodes = without l.nodes e }

  -- `l.MoveToFront(e)`: an element of another list stays where it is
  unfoldable pub to_front : ℕ → List (ℕ × A) → List (ℕ × A)
  to_front e l = elim (find l e) [ none ↦ l | some v ↦ (e, v) ∷ without l e ]

  abbrev pub move_to_front : ℕ → LinkedList A → LinkedList A
  move_to_front e l = record l { nodes = to_front e l.nodes }

  -- an assignment to `e.Value`
  unfoldable pub assign : ℕ → A → List (ℕ × A) → List (ℕ × A)
  assign e v [] = []
  assign e v ((d, w) ∷ l) = if nat_eq d e then (d, v) ∷ l else (d, w) ∷ assign e v l

  -- `l.Back()` with its value
  abbrev pub back : LinkedList A → Option (ℕ × A)
  back l = get_last? l.nodes

  -- `l.Len()`
  abbrev pub size : LinkedList A → ℕ
  size l = length l.nodes
