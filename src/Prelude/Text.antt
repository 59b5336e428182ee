-- ===== src/Prelude/Text.antt =====
-- Go strings as lists of bytes, and what the source uses of the packages `strings` and `bytes`.
use Prim.Native.Char.{code}
use Prim.Native.Nat.{ℕ, zero, suc, ◌-◌}
use Prim.Native.String.{String}
use mathlib.Core.Bool.{Bool, true, false, ◌&&◌, ◌||◌}
use mathlib.Core.List.{List, [], ◌∷◌, ◌++◌}
use mathlib.Core.Logic.{◌↔◌, ◌≢◌}
use mathlib.Core.Option.{Option, none, some}
use mathlib.Core.Path.{◌≡◌, refl, ap}
use native.Mathlib.Omega.{arith}
use vantage_core.Prelude.Tests.{nat_eq, leb, get_or, if◌then◌else◌}
use vantage_core.Prelude.Lists.{
  length, take, drop, All, length-append, take-append-drop, take_of_append, drop_of_append,
}

abbrev pub Str : Type 0
Str = List ℕ

-- The bytes of an ASCII literal.
abbrev pub lit : String → Str
lit String.[] = []
lit (String.◌∷◌ c s) = code c ∷ lit s

infix 50 ◌==◌
unfoldable pub ◌==◌ : Str → Str → Bool
[] == [] = true
[] == (b ∷ t) = false
(a ∷ s) == [] = false
(a ∷ s) == (b ∷ t) = nat_eq a b && s == t

==_sound : (s t : Str) → (s == t) ≡ true → s ≡ t
unfolding ◌==◌
==_sound [] [] h = refl
==_sound [] (b ∷ t) h = ground arith
==_sound (a ∷ s) [] h = ground arith
==_sound (a ∷ s) (b ∷ t) h = ground (arith, ==_sound s t)

pub ==_refl : (s : Str) → (s == s) ≡ true
unfolding ◌==◌
==_refl [] = refl
==_refl (a ∷ s) = ground (arith, ==_refl s)

==_complete : (s t : Str) → s ≡ t → (s == t) ≡ true
==_complete s t e = rw e (==_refl t)

pub ==_iff : (s t : Str) → ((s == t) ≡ true) ↔ (s ≡ t)
==_iff s t = (==_sound s t, ==_complete s t)

-- `strings.HasPrefix(s, prefix)`
unfoldable pub has_prefix : Str → Str → Bool
has_prefix s [] = true
has_prefix [] (b ∷ p) = false
has_prefix (a ∷ s) (b ∷ p) = nat_eq a b && has_prefix s p

pub has_prefix_append : (p s : Str) → has_prefix (p ++ s) p ≡ true
unfolding has_prefix
has_prefix_append [] s = refl
has_prefix_append (b ∷ p) s = ground (arith, has_prefix_append p s)

pub has_prefix-split : (s p : Str) → has_prefix s p ≡ true → s ≡ p ++ drop (length p) s
unfolding has_prefix
has_prefix-split s [] h = refl
has_prefix-split [] (b ∷ p) h = ground arith
has_prefix-split (a ∷ s) (b ∷ p) h = ground (arith, has_prefix-split s p)

-- `strings.HasSuffix(s, suffix)`
unfoldable pub has_suffix : Str → Str → Bool
has_suffix s q = leb (length q) (length s) && drop (length s - length q) s == q

-- `strings.TrimSuffix(s, suffix)`
unfoldable pub trim_suffix : Str → Str → Str
trim_suffix s q = if has_suffix s q then take (length s - length q) s else s

pub has_suffix-split : (s q : Str) → has_suffix s q ≡ true → s ≡ trim_suffix s q ++ q
unfolding has_suffix trim_suffix
has_suffix-split s q h =
    ground
      (arith, ==_iff (drop (length s - length q) s) q, take-append-drop (length s - length q) s)

pub has_suffix_append : (s q : Str) → has_suffix (s ++ q) q ≡ true
unfolding has_suffix
has_suffix_append s q = ground (
  arith,
  length-append s q,
  drop_of_append s q,
  ==_iff (drop (length (s ++ q) - length q) (s ++ q)) q,
  ap (λ (n : ℕ). drop n (s ++ q)) (minus s q),
)
  where
    minus : (s q : Str) → length (s ++ q) - length q ≡ length s
    minus s q = omega (arith, length-append s q)

pub trim_suffix_append : (s q : Str) → trim_suffix (s ++ q) q ≡ s
unfolding trim_suffix
trim_suffix_append s q = rw (has_suffix_append s q) (rw minus (take_of_append s q))
  where
    minus : length (s ++ q) - length q ≡ length s
    minus = omega (arith, length-append s q)

-- `strings.Contains(s, "c")` at one byte, and `strings.ContainsAny(s, "cd")` at two
unfoldable pub contains_byte : Str → ℕ → Bool
contains_byte [] c = false
contains_byte (a ∷ s) c = nat_eq a c || contains_byte s c

-- No byte of `s` is `c`.
abbrev pub Lacks : ℕ → Str → Type 0
Lacks c = All (λ a. a ≢ c)

Lacks-of_contains_byte : (s : Str) (c : ℕ) → contains_byte s c ≡ false → Lacks c s
unfolding contains_byte
Lacks-of_contains_byte [] c h = tt
Lacks-of_contains_byte (a ∷ s) c h = (ground arith, Lacks-of_contains_byte s c (ground arith))

contains_byte_of_Lacks : (s : Str) (c : ℕ) → Lacks c s → contains_byte s c ≡ false
unfolding contains_byte
contains_byte_of_Lacks [] c h = refl
contains_byte_of_Lacks (a ∷ s) c (h, hs) = ground (arith, contains_byte_of_Lacks s c hs)

pub contains_byte-eq-false_iff : (s : Str) (c : ℕ) → (contains_byte s c ≡ false) ↔ Lacks c s
contains_byte-eq-false_iff s c = (Lacks-of_contains_byte s c, contains_byte_of_Lacks s c)

-- `strings.IndexByte(s, c)`, with `none` for -1
unfoldable pub index_byte : Str → ℕ → Option ℕ
index_byte [] c = none
index_byte (a ∷ s) c =
    let rest = index_byte s c in
    if nat_eq a c then some 0 else elim rest [ none ↦ none | some i ↦ some (suc i) ]

-- The first `c` stands behind a part that has none.
pub index_byte-append :
    (p s : Str) (c : ℕ) → Lacks c p → index_byte (p ++ c ∷ s) c ≡ some (length p)
unfolding index_byte
index_byte-append [] s c h = ground arith
index_byte-append (a ∷ p) s c (h, hs) = ground (arith, index_byte-append p s c hs)

pub index_byte-eq-some :
    (s : Str) (c i : ℕ)
    → index_byte s c ≡ some i
    → Lacks c (take i s) × (s ≡ take i s ++ c ∷ drop (suc i) s) × (length (take i s) ≡ i)
unfolding index_byte
index_byte-eq-some [] c i h = absurd (ground arith)
index_byte-eq-some (a ∷ s) c zero h = (tt, ground arith, refl)
index_byte-eq-some (a ∷ s) c (suc i) h =
    let (hl, hs, hn) = index_byte-eq-some s c i (ground arith) in
    ((ground arith, hl), ap (◌∷◌ a) hs, ap suc hn)

-- `strings.CutPrefix(s, prefix)`
unfoldable pub cut_prefix : Str → Str → Option Str
cut_prefix s p = if has_prefix s p then some (drop (length p) s) else none

-- `strings.TrimPrefix(s, prefix)`
unfoldable pub trim_prefix : Str → Str → Str
trim_prefix s p = get_or (cut_prefix s p) s
