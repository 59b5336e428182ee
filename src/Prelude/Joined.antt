-- ===== src/Prelude/Joined.antt =====
-- A list of strings in one string, for texts that are read back.
use vantage_core.Prelude.{ℕ, zero, suc, ◌≡◌, refl, ap, List, [], ◌∷◌, ◌++◌, Str, map}

-- Lists of strings as one string: each byte one higher, and a zero behind each string.
abbrev pub join : List Str → Str
join [] = []
join (p ∷ ps) = map suc p ++ 0 ∷ join ps

abbrev into_first : ℕ → List Str → List Str
into_first c [] = []
into_first c (p ∷ ps) = (c ∷ p) ∷ ps

abbrev pub split : Str → List Str
split [] = []
split (zero ∷ s) = [] ∷ split s
split (suc c ∷ s) = into_first c (split s)

split-append : (p s : Str) → split (map suc p ++ 0 ∷ s) ≡ p ∷ split s
split-append [] s = refl
split-append (c ∷ p) s = ap (into_first c) (split-append p s)

pub split-join : (ps : List Str) → split (join ps) ≡ ps
split-join [] = refl
split-join (p ∷ ps) = rw (split-append p (join ps), split-join ps) refl
