-- ===== src/Text/Trim.antt =====
-- `strings.TrimSpace`. White space is what `unicode.IsSpace` accepts, by its bytes in UTF-8: the ASCII
-- blanks, and U+0085, U+00A0, U+1680, U+2000 to U+200A, U+2028, U+2029, U+202F, U+205F, U+3000.
use mathlib.Core.List.{reverse}
use argocd_notifier.Prelude.{
  ℕ, zero, suc, ◌≡◌, refl, Bool, ◌&&◌, ◌||◌, [], ◌∷◌, ◌==◌, nat_eq, leb, if◌then◌else◌,
}
use argocd_notifier.Text.Core.{GoString, bytes}

-- \t \n \v \f \r and the space
abbrev is_ascii_space : ℕ → Bool
is_ascii_space c = (leb 9 c && leb c 13) || c == 32

abbrev is_space_2 : ℕ → ℕ → Bool
is_space_2 a b = a == 0xc2 && (b == 0x85 || b == 0xa0)

abbrev is_space_3 : ℕ → ℕ → ℕ → Bool
is_space_3 a b c =
    (a == 0xe1 && (b == 0x9a && c == 0x80))
    || ((a == 0xe2
          && ((b == 0x80 && ((leb 0x80 c && leb c 0x8a) || (c == 0xa8 || (c == 0xa9 || c == 0xaf))))
              || (b == 0x81 && c == 0x9f)))
        || (a == 0xe3 && (b == 0x80 && c == 0x80)))

-- The number of bytes of the blank that `s` begins with, 0 if it begins with none.
blank_width : GoString → ℕ
blank_width [] = 0
blank_width (a ∷ []) = if is_ascii_space a then 1 else 0
blank_width (a ∷ b ∷ []) = if is_ascii_space a then 1 else if is_space_2 a b then 2 else 0
blank_width (a ∷ b ∷ c ∷ s) =
    if is_ascii_space a then 1 else if is_space_2 a b then 2 else if is_space_3 a b c then 3 else 0

-- The same of a reversed string, whose blanks are reversed.
blank_width_back : GoString → ℕ
blank_width_back [] = 0
blank_width_back (a ∷ []) = if is_ascii_space a then 1 else 0
blank_width_back (a ∷ b ∷ []) = if is_ascii_space a then 1 else if is_space_2 b a then 2 else 0
blank_width_back (a ∷ b ∷ c ∷ s) =
    if is_ascii_space a then 1 else if is_space_2 b a then 2 else if is_space_3 c b a then 3 else 0

-- Skips `n` bytes, and then every blank.
trim_blanks : (GoString → ℕ) → ℕ → GoString → GoString
trim_blanks width n [] = []
trim_blanks width (suc n) (c ∷ s) = trim_blanks width n s
trim_blanks width zero (c ∷ s) = elim (width (c ∷ s)) [
  | zero ↦ c ∷ s
  | suc n ↦ trim_blanks width n s
]

unfoldable pub trim_space : GoString → GoString
unfolding blank_width blank_width_back trim_blanks
trim_space s = reverse (trim_blanks blank_width_back 0 (reverse (trim_blanks blank_width 0 s)))

trim_space_test : trim_space (bytes "  a b ") ≡ bytes "a b"
unfolding trim_space
trim_space_test = refl

trim_space_wide : trim_space (0xe2 ∷ 0x80 ∷ 0x83 ∷ 97 ∷ 0xc2 ∷ 0xa0 ∷ 32 ∷ []) ≡ bytes "a"
unfolding trim_space
trim_space_wide = refl
