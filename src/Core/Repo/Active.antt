-- ===== src/Core/Repo/Active.antt =====
-- How a write to the repository changes the active tasks of an agent.
use vantage_core.Prelude.{
  ◌+◌, ◌≤◌, ◌≡◌, ◌≢◌, Bool, true, false, [], ◌∷◌, some, Str, ==_iff, length, arith, if◌then◌else◌,
}
use vantage_core.Prelude.Assoc
use vantage_core.Prelude.Assoc.{Map}
use vantage_core.Core.Task.{Task}
use vantage_core.Core.Repo.{select}

-- A write adds one selected task at most, and none that the test rejects.
pub length-select-put :
    (p : Task → Bool) (ts : Map Task) (k : Str) (t : Task)
    → length (select p (Assoc.put ts k t)) ≤ length (select p ts) + (if p t then 1 else 0)
unfolding select Assoc.put
length-select-put p [] k t = ground arith
length-select-put p ((j, u) ∷ ts) k t = ground (arith, length-select-put p ts k t)

-- Overwriting a selected task adds none.
pub length-select-put_over :
    (p : Task → Bool) (ts : Map Task) (k : Str) (t u : Task)
    → Assoc.get ts k ≡ some u
    → p u ≡ true
    → length (select p (Assoc.put ts k t)) ≤ length (select p ts)
unfolding select Assoc.put Assoc.get
length-select-put_over p [] k t u h a = ground arith
length-select-put_over p ((j, v) ∷ ts) k t u h a = ground (arith, length-select-put_over p ts k t u)

pub length-select-pos :
    (p : Task → Bool) (ts : Map Task) (k : Str) (t : Task)
    → Assoc.get ts k ≡ some t
    → p t ≡ true
    → 1 ≤ length (select p ts)
unfolding select Assoc.get
length-select-pos p [] k t h a = ground arith
length-select-pos p ((j, v) ∷ ts) k t h a = ground (arith, length-select-pos p ts k t)

-- Two selected tasks under different ids are two.
pub length-select-two :
    (p : Task → Bool) (ts : Map Task) (j k : Str) (t u : Task)
    → j ≢ k
    → Assoc.get ts j ≡ some t
    → Assoc.get ts k ≡ some u
    → p t ≡ true
    → p u ≡ true
    → 2 ≤ length (select p ts)
unfolding select Assoc.get
length-select-two p [] j k t u n ht hu pt pu = ground arith
length-select-two p ((i, v) ∷ ts) j k t u n ht hu pt pu = ground (
  arith,
  ==_iff i j,
  ==_iff i k,
  length-select-two p ts j k t u n,
  length-select-pos p ts j t,
  length-select-pos p ts k u,
)

-- Overwriting a selected task with one that is not selected takes it off.
pub length-select-put_off :
    (p : Task → Bool) (ts : Map Task) (k : Str) (t u : Task)
    → Assoc.get ts k ≡ some u
    → p u ≡ true
    → p t ≡ false
    → length (select p (Assoc.put ts k t)) + 1 ≡ length (select p ts)
unfolding select Assoc.put Assoc.get
length-select-put_off p [] k t u h a b = ground arith
length-select-put_off p ((j, v) ∷ ts) k t u h a b = ground (arith, length-select-put_off p ts k t u)
