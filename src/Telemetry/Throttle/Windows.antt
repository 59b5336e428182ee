-- ===== src/Telemetry/Throttle/Windows.antt =====
-- The agreement of the windows of an agent with the list of their signatures, and their bound.
use vantage_core.Prelude.{
  ℕ, suc, ◌≤◌, ◌<◌, ◌≡◌, true, false, List, [], ◌∷◌, none, some, Str, ◌==◌, ==_iff, nat_eq,
  if◌then◌else◌, arith, All, Bool-cases, is_some, inl, inr,
}
use vantage_core.Prelude.Assoc
use vantage_core.Prelude.Assoc.{Map}
use vantage_core.Sdk.LinkedList
use vantage_core.Sdk.LinkedList.{LinkedList, find}
use vantage_core.Sdk.LinkedList.Pointers.{
  DistinctPointers, find-without, without-DistinctPointers, find_absent, All-without, find-to_front,
  to_front-DistinctPointers, All-to_front,
}
use vantage_core.Telemetry.Throttle.{Throttler, Window, windows_of, lru_of, set_agent}

pub record Agrees (ws : Map Window) (lru : LinkedList Str) : Type 0 where
  pub distinct : DistinctPointers lru.nodes
  pub fresh : All (λ x. x.0 < lru.next) lru.nodes
  pub pointed :
      (k : Str) (w : Window) → Assoc.get ws k ≡ some w → find lru.nodes w.lru_elem ≡ some k
  pub mapped :
      (e : ℕ) (k : Str)
      → find lru.nodes e ≡ some k
      → (w : Window) × (Assoc.get ws k ≡ some w) × (w.lru_elem ≡ e)

pub Agrees-empty : Agrees [] LinkedList.empty
unfolding find Assoc.get
Agrees-empty = record {
  distinct = tt;
  fresh = tt;
  pointed = λ k w h. absurd (ground arith);
  mapped = λ e k h. absurd (ground arith);
}

below_suc : (n : ℕ) (l : List (ℕ × Str)) → All (λ x. x.0 < n) l → All (λ x. x.0 < suc n) l
below_suc n [] h = tt
below_suc n (x ∷ l) (h, hs) = (omega arith, below_suc n l hs)

pub Agrees-opened :
    (k : Str) (w : Window) (ws : Map Window) (lru : LinkedList Str)
    → w.lru_elem ≡ lru.next
    → Assoc.get ws k ≡ none
    → Agrees ws lru
    → Agrees (Assoc.put ws k w) (LinkedList.push_front k lru).0
unfolding find
Agrees-opened k w ws lru e new h =
    let absent = find_absent lru.nodes lru.next h.fresh in
    record {
      distinct = (absent, h.distinct);
      fresh = (omega arith, below_suc lru.next lru.nodes h.fresh);
      pointed = λ j u g. ground (arith, Assoc.get-put ws k j w, ==_iff k j, h.pointed j u, absent);
      mapped = λ d j g. elim (Bool-cases (nat_eq lru.next d)) [
        | inl y ↦ (w, ground (arith, Assoc.get-put ws k j w, ==_iff k j), ground arith)
        | inr z ↦
            let (u, a, b) = h.mapped d j (ground arith) in
            (u, ground (arith, Assoc.get-put ws k j w, ==_iff k j), b)
      ];
    }

pub Agrees-counted :
    (k : Str) (w u : Window) (ws : Map Window) (lru : LinkedList Str)
    → u.lru_elem ≡ w.lru_elem
    → Assoc.get ws k ≡ some w
    → Agrees ws lru
    → Agrees (Assoc.put ws k u) (LinkedList.move_to_front w.lru_elem lru)
Agrees-counted k w u ws lru e old h = record {
  distinct = to_front-DistinctPointers lru.nodes w.lru_elem h.distinct;
  fresh = All-to_front _ lru.nodes w.lru_elem h.fresh;
  pointed = λ j x g. ground (
    arith,
    Assoc.get-put ws k j u,
    ==_iff k j,
    h.pointed j x,
    h.pointed k w old,
    find-to_front lru.nodes w.lru_elem x.lru_elem,
  );
  mapped = λ d j g.
      let (x, a, b) = h.mapped d j (ground (arith, find-to_front lru.nodes w.lru_elem d)) in
      elim (Bool-cases (k == j)) [
        | inl y ↦ (u, ground (arith, Assoc.get-put ws k j u), ground (arith, ==_iff k j))
        | inr z ↦ (x, ground (arith, Assoc.get-put ws k j u), b)
      ];
}

pub Agrees-removed :
    (k : Str) (e : ℕ) (ws : Map Window) (lru : LinkedList Str)
    → find lru.nodes e ≡ some k
    → Agrees ws lru
    → Agrees (Assoc.del ws k) (LinkedList.remove e lru)
Agrees-removed k e ws lru here h = record {
  distinct = without-DistinctPointers lru.nodes e h.distinct;
  fresh = All-without _ lru.nodes e h.fresh;
  pointed = λ j w g.
      ground (
        arith,
        Assoc.get-del ws k j,
        ==_iff k j,
        h.pointed j w,
        find-without lru.nodes e w.lru_elem,
      );
  mapped = λ d j g.
      let (x, a, b) = h.mapped d j (ground (arith, find-without lru.nodes e d)) in
      let (y, c, i) = h.mapped e k here in
      (x, ground (arith, Assoc.get-del ws k j, ==_iff k j, find-without lru.nodes e d), b);
}

-- Every agent's windows agree with its list and are at most as many as the cap, and the two maps have
-- the same agents.
pub record IsValid (t : Throttler) : Type 0 where
  pub positive : 1 ≤ t.per_agent_cap
  pub paired : (a : Str) → is_some (Assoc.get t.by_agent a) ≡ is_some (Assoc.get t.lru_lists a)
  pub agrees : (a : Str) → Agrees (windows_of t a) (lru_of t a)
  pub bounded : (a : Str) → LinkedList.size (lru_of t a) ≤ t.per_agent_cap

-- A state in which only the agent `a` may have one window too many.
pub record Crowded (a : Str) (t : Throttler) : Type 0 where
  pub positive : 1 ≤ t.per_agent_cap
  pub paired : (b : Str) → is_some (Assoc.get t.by_agent b) ≡ is_some (Assoc.get t.lru_lists b)
  pub agrees : (b : Str) → Agrees (windows_of t b) (lru_of t b)
  pub bounded : (b : Str) → LinkedList.size (lru_of t b) ≤ suc t.per_agent_cap
  pub others : (b : Str) → (a == b) ≡ false → LinkedList.size (lru_of t b) ≤ t.per_agent_cap

abbrev Chosen : Str → Str → Map Window → LinkedList Str → Throttler → Type 0
Chosen a b ws lru t =
    (windows_of (set_agent a ws lru t) b ≡ (if a == b then ws else windows_of t b))
    × (lru_of (set_agent a ws lru t) b ≡ (if a == b then lru else lru_of t b))
    × (is_some (Assoc.get (set_agent a ws lru t).by_agent b)
        ≡ (if a == b then true else is_some (Assoc.get t.by_agent b)))
    × (is_some (Assoc.get (set_agent a ws lru t).lru_lists b)
        ≡ (if a == b then true else is_some (Assoc.get t.lru_lists b)))

set_agent-at :
    (a b : Str) (ws : Map Window) (lru : LinkedList Str) (t : Throttler) → Chosen a b ws lru t
set_agent-at a b ws lru t =
    ground (arith, Assoc.get-put t.by_agent a b ws, Assoc.get-put t.lru_lists a b lru)

-- An agent's entries are replaced by entries that agree.
pub set_agent-IsValid :
    (a : Str) (ws : Map Window) (lru : LinkedList Str) (t : Throttler)
    → Agrees ws lru
    → LinkedList.size lru ≤ t.per_agent_cap
    → Crowded a t
    → IsValid (set_agent a ws lru t)
set_agent-IsValid a ws lru t g b h = record {
  positive = h.positive;
  paired = λ c. ground (arith, set_agent-at a c ws lru t, h.paired c);
  agrees = λ c.
      let (x, y, _, _) = set_agent-at a c ws lru t in
      elim (Bool-cases (a == c)) [ inl e ↦ rw (x, y, e) g | inr e ↦ rw (x, y, e) (h.agrees c) ];
  bounded = λ c. ground (arith, set_agent-at a c ws lru t, h.others c);
}

pub set_agent-Crowded :
    (a : Str) (ws : Map Window) (lru : LinkedList Str) (t : Throttler)
    → Agrees ws lru
    → LinkedList.size lru ≤ suc t.per_agent_cap
    → IsValid t
    → Crowded a (set_agent a ws lru t)
set_agent-Crowded a ws lru t g b h = record {
  positive = h.positive;
  paired = λ c. ground (arith, set_agent-at a c ws lru t, h.paired c);
  agrees = λ c.
      let (x, y, _, _) = set_agent-at a c ws lru t in
      elim (Bool-cases (a == c)) [ inl e ↦ rw (x, y, e) g | inr e ↦ rw (x, y, e) (h.agrees c) ];
  bounded = λ c. ground (arith, set_agent-at a c ws lru t, h.bounded c);
  others = λ c n. ground (arith, set_agent-at a c ws lru t, h.bounded c);
}

pub relaxed : (a : Str) (t : Throttler) → IsValid t → Crowded a t
relaxed a t h = record {
  positive = h.positive;
  paired = h.paired;
  agrees = h.agrees;
  bounded = λ c. omega (arith, h.bounded c);
  others = λ c n. h.bounded c;
}
