-- ===== src/Text/Core.antt =====
-- Bytes, literals, and `strings.Join`, `strings.TrimPrefix`, `strings.TrimSuffix`, `strings.TrimRight`
-- (one byte to cut), `strings.ToLower` (of ASCII) and `strings.Cut` (a separator of one byte).
use Prim.Native.Char.{code}
use mathlib.Core.List.{reverse}
use argocd_notifier.Prelude.{
  ℕ, ◌+◌, String, ◌≡◌, refl, Bool, ◌&&◌, Option, none, some, List, [], ◌∷◌, ◌++◌, arith, ◌==◌,
  nat_eq, leb, if◌then◌else◌, All, ◌≢◌, nat_beq_iff, nat_beq, Eq, map, ◌↔◌,
}

abbrev pub GoString : Type 0
GoString = List ℕ

unfoldable pub str_eq : GoString → GoString → Bool
str_eq [] [] = Bool.true
str_eq [] (d ∷ t) = Bool.false
str_eq (c ∷ s) [] = Bool.false
str_eq (c ∷ s) (d ∷ t) = nat_beq c d && str_eq s t

pub str_eq_iff : (s t : GoString) → (str_eq s t ≡ Bool.true) ↔ (s ≡ t)
unfolding str_eq
str_eq_iff [] [] = ground arith
str_eq_iff [] (d ∷ t) = ground arith
str_eq_iff (c ∷ s) [] = ground arith
str_eq_iff (c ∷ s) (d ∷ t) = ground (arith, str_eq_iff s t)

instance abbrev pub text_eq : Eq GoString
text_eq = record { beq = str_eq; beq_iff = str_eq_iff }

-- An ASCII literal. (Other literals are written by their bytes.)
abbrev pub bytes : String → GoString
bytes String.[] = []
bytes (String.◌∷◌ c s) = code c ∷ bytes s

-- s == ""
unfoldable pub is_empty : GoString → Bool
is_empty s = elim s [ [] ↦ Bool.true | _ ↦ Bool.false ]

pub is_empty_iff : (s : GoString) → (is_empty s ≡ Bool.true) ↔ (s ≡ [])
unfolding is_empty
is_empty_iff [] = ground arith
is_empty_iff (c ∷ s) = ground arith

unfoldable pub join : GoString → List GoString → GoString
join sep [] = []
join sep (p ∷ []) = p
join sep (p ∷ q ∷ ps) = p ++ (sep ++ join sep (q ∷ ps))

-- The rest of `s` behind the prefix, if it has it.
unfoldable pub strip_prefix? : GoString → GoString → Option GoString
strip_prefix? [] s = some s
strip_prefix? (p ∷ ps) [] = none
strip_prefix? (p ∷ ps) (c ∷ s) = if p == c then strip_prefix? ps s else none

unfoldable pub or_else : Option GoString → GoString → GoString
or_else none s = s
or_else (some t) s = t

unfoldable pub trim_prefix : GoString → GoString → GoString
unfolding strip_prefix? or_else
trim_prefix s p = or_else (strip_prefix? p s) s

unfoldable pub trim_suffix : GoString → GoString → GoString
unfolding trim_prefix
trim_suffix s p = reverse (trim_prefix (reverse s) (reverse p))

unfoldable pub trim_left_byte : GoString → ℕ → GoString
trim_left_byte [] b = []
trim_left_byte (c ∷ s) b = if c == b then trim_left_byte s b else c ∷ s

unfoldable pub trim_right : GoString → ℕ → GoString
unfolding trim_left_byte
trim_right s b = reverse (trim_left_byte (reverse s) b)

unfoldable pub to_lower : GoString → GoString
to_lower s = map (λ c. if leb b'A' c && leb c b'Z' then c + 32 else c) s

unfoldable pub cut_cons : ℕ → Option (GoString × GoString) → Option (GoString × GoString)
cut_cons c none = none
cut_cons c (some (a, b)) = some (c ∷ a, b)

-- The text before and after the first separator.
unfoldable pub cut : GoString → ℕ → Option (GoString × GoString)
unfolding cut_cons
cut [] sep = none
cut (c ∷ s) sep = if c == sep then some ([], s) else cut_cons c (cut s sep)

-- A separator that does not stand in `a` is found behind `a`.
pub cut-append :
    (a b : GoString) (sep : ℕ) → All (λ c. c ≢ sep) a → cut (a ++ sep ∷ b) sep ≡ some (a, b)
unfolding cut
cut-append [] b sep h = ground (arith, nat_beq_iff sep sep)
cut-append (c ∷ a) b sep h = ground (arith, nat_beq_iff c sep, cut-append a b sep h.1)

pub cut-none : (s : GoString) (sep : ℕ) → All (λ c. c ≢ sep) s → cut s sep ≡ none
unfolding cut
cut-none [] sep h = refl
cut-none (c ∷ s) sep h = ground (arith, nat_beq_iff c sep, cut-none s sep h.1)
