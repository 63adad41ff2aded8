-- ===== src/Base/Text.antt =====
-- Go's string functions that the program calls, over the native `String`.
-- `strings.ToLower` is modelled for the comparison with ASCII names: besides A to Z, U+212A and
-- U+0130 are the only runes whose lower case is an ASCII letter. Other runes stay as they are.
use Prim.Native.Char.{code}
use Prim.Native.Nat.{ℕ, ◌+◌}
use Prim.Native.String.{String}
use text.Mathlib.TextEquality.{Char-path}
use mathlib.Core.Path.{◌≡◌, refl, ap₂}
use native.Mathlib.Omega.{arith}
use mathlib.Core.Bool.{Bool, true, false, ◌&&◌, ◌||◌}
use mathlib.Core.List.{List, [], ◌∷◌, map, reverse}
use burnmon.Base.Tests.{ltb, leb, nat_beq, if◌then◌else◌}

abbrev pub codes : String → List ℕ
codes String.[] = []
codes (String.◌∷◌ c s) = code c ∷ codes s

-- The order of two texts by code points, which is Go's order of their UTF-8 bytes.
abbrev pub codes_lt : List ℕ → List ℕ → Bool
codes_lt [] [] = false
codes_lt [] (y ∷ ys) = true
codes_lt (x ∷ xs) [] = false
codes_lt (x ∷ xs) (y ∷ ys) = ltb x y || (nat_beq x y && codes_lt xs ys)

abbrev pub str_lt : String → String → Bool
str_lt s t = codes_lt (codes s) (codes t)

abbrev pub codes_beq : List ℕ → List ℕ → Bool
codes_beq [] [] = true
codes_beq [] (y ∷ ys) = false
codes_beq (x ∷ xs) [] = false
codes_beq (x ∷ xs) (y ∷ ys) = nat_beq x y && codes_beq xs ys

-- strings.HasPrefix s p, the prefix first.
abbrev pub has_prefix : List ℕ → List ℕ → Bool
has_prefix [] s = true
has_prefix (p ∷ ps) [] = false
has_prefix (p ∷ ps) (c ∷ s) = nat_beq p c && has_prefix ps s

unfoldable pub lower_rune : ℕ → ℕ
lower_rune c =
    if leb b'A' c && leb c b'Z'
    then c + 32
    else if nat_beq c 0x212a
    then b'k'
    else if nat_beq c 0x130
    then b'i'
    else c

-- strings.ToLower
unfoldable pub to_lower : List ℕ → List ℕ
unfolding lower_rune
to_lower s = map lower_rune s

-- unicode.IsSpace
unfoldable pub is_space : ℕ → Bool
is_space c =
    (leb 9 c && leb c 13)
    || nat_beq c 32
    || nat_beq c 0x85
    || nat_beq c 0xa0
    || nat_beq c 0x1680
    || (leb 0x2000 c && leb c 0x200a)
    || nat_beq c 0x2028
    || nat_beq c 0x2029
    || nat_beq c 0x202f
    || nat_beq c 0x205f
    || nat_beq c 0x3000

unfoldable pub trim_left : List ℕ → List ℕ
unfolding is_space
trim_left [] = []
trim_left (c ∷ s) = let rest = trim_left s in if is_space c then rest else c ∷ s

-- strings.TrimSpace
unfoldable pub trim_space : List ℕ → List ℕ
unfolding trim_left
trim_space s = reverse (trim_left (reverse (trim_left s)))

pub codes_lt_irrefl : (s : List ℕ) → codes_lt s s ≡ false
codes_lt_irrefl [] = refl
codes_lt_irrefl (c ∷ s) = ground (arith, codes_lt_irrefl s)

pub codes_lt_trans :
    (s t u : List ℕ) → codes_lt s t ≡ true → codes_lt t u ≡ true → codes_lt s u ≡ true
codes_lt_trans [] [] u h k = cc
codes_lt_trans [] (y ∷ ys) [] h k = cc
codes_lt_trans [] (y ∷ ys) (z ∷ zs) h k = refl
codes_lt_trans (x ∷ xs) [] u h k = cc
codes_lt_trans (x ∷ xs) (y ∷ ys) [] h k = cc
codes_lt_trans (x ∷ xs) (y ∷ ys) (z ∷ zs) h k = ground (arith, codes_lt_trans xs ys zs)

-- Of two texts that are not the same one comes first.
pub codes_lt_total : (s t : List ℕ) → codes_lt s t ≡ false → codes_lt t s ≡ false → s ≡ t
codes_lt_total [] [] h k = refl
codes_lt_total [] (y ∷ ys) h k = cc
codes_lt_total (x ∷ xs) [] h k = cc
codes_lt_total (x ∷ xs) (y ∷ ys) h k = ground (arith, codes_lt_total xs ys)

pub codes_injective : (s t : String) → codes s ≡ codes t → s ≡ t
codes_injective String.[] String.[] h = refl
codes_injective String.[] (String.◌∷◌ d t) h = cc
codes_injective (String.◌∷◌ c s) String.[] h = cc
codes_injective (String.◌∷◌ c s) (String.◌∷◌ d t) h =
    ap₂ String.◌∷◌ (Char-path c d (ground (arith, h))) (codes_injective s t (ground (arith, h)))

pub str_lt_total : (s t : String) → str_lt s t ≡ false → str_lt t s ≡ false → s ≡ t
str_lt_total s t h k = codes_injective s t (codes_lt_total (codes s) (codes t) h k)
