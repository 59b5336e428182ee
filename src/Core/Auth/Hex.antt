-- ===== src/Core/Auth/Hex.antt =====
-- `hex.EncodeToString` of the standard library: two lower-case digits a byte, the high one first.
use vantage_core.Prelude.{
  ℕ, ◌+◌, ◌-◌, ◌*◌, ◌/◌, ◌%◌, ◌<◌, ◌≡◌, refl, [], ◌∷◌, Str, ltb, length, All, arith, if◌then◌else◌,
}

digit : ℕ → ℕ
digit n = if ltb n 10 then n + b'0' else n - 10 + b'a'

unfoldable pub encode_to_string : Str → Str
unfolding digit
encode_to_string [] = []
encode_to_string (c ∷ s) = digit (c / 16) ∷ digit (c % 16) ∷ encode_to_string s

abbrev pub AreBytes : Str → Type 0
AreBytes = All (λ c. c < 256)

digit_injective : (m n : ℕ) → m < 16 → n < 16 → digit m ≡ digit n → m ≡ n
unfolding digit
digit_injective m n hm hn h = ground arith

pub length-encode_to_string : (s : Str) → length (encode_to_string s) ≡ 2 * length s
unfolding encode_to_string
length-encode_to_string [] = refl
length-encode_to_string (c ∷ s) = omega (arith, length-encode_to_string s)

-- Different bytes give different texts.
pub encode_to_string_injective :
    (s t : Str) → AreBytes s → AreBytes t → encode_to_string s ≡ encode_to_string t → s ≡ t
unfolding encode_to_string
encode_to_string_injective [] [] hs ht h = refl
encode_to_string_injective [] (d ∷ t) hs ht h = cc
encode_to_string_injective (c ∷ s) [] hs ht h = cc
encode_to_string_injective (c ∷ s) (d ∷ t) (hc, hs) (hd, ht) h = ground (
  arith,
  encode_to_string_injective s t hs ht,
  digit_injective (c / 16) (d / 16),
  digit_injective (c % 16) (d % 16),
)
