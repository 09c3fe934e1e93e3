-- ===== src/Text/Order.antt =====
-- The order of Go strings, and `sort.Strings`. Its result is the only sorted arrangement, so any
-- sorting routine gives it: here insertion.
use argocd_notifier.Prelude.{
  ◌≡◌, refl, ap, ◌∙◌, Bool, true, false, ◌⊎◌, List, [], ◌∷◌, ◌++◌, arith, ltb, nat_beq,
  if◌then◌else◌, Reorders, same, skip, swap, chain, Bool-cases, inl, inr,
}
use argocd_notifier.Text.Core.{GoString}

-- a <= b
unfoldable pub str_leb : GoString → GoString → Bool
str_leb [] b = true
str_leb (x ∷ a) [] = false
str_leb (x ∷ a) (y ∷ b) = if ltb x y then true else if nat_beq x y then str_leb a b else false

pub str_leb_total : (a b : GoString) → (str_leb a b ≡ true) ⊎ (str_leb b a ≡ true)
unfolding str_leb
str_leb_total [] b = ground arith
str_leb_total (x ∷ a) [] = ground arith
str_leb_total (x ∷ a) (y ∷ b) = ground (arith, str_leb_total a b)

pub str_leb_antisymm : (a b : GoString) → str_leb a b ≡ true → str_leb b a ≡ true → a ≡ b
unfolding str_leb
str_leb_antisymm [] [] h k = refl
str_leb_antisymm [] (y ∷ b) h k = ground arith
str_leb_antisymm (x ∷ a) [] h k = ground arith
str_leb_antisymm (x ∷ a) (y ∷ b) h k = ground (arith, str_leb_antisymm a b)

pub str_leb_trans :
    (a b c : GoString) → str_leb a b ≡ true → str_leb b c ≡ true → str_leb a c ≡ true
unfolding str_leb
str_leb_trans [] b c h k = refl
str_leb_trans (x ∷ a) [] c h k = ground arith
str_leb_trans (x ∷ a) (y ∷ b) [] h k = ground arith
str_leb_trans (x ∷ a) (y ∷ b) (z ∷ c) h k = ground (arith, str_leb_trans a b c)

unfoldable pub insert_sorted : GoString → List GoString → List GoString
insert_sorted x [] = x ∷ []
insert_sorted x (y ∷ ys) = if str_leb x y then x ∷ y ∷ ys else y ∷ insert_sorted x ys

unfoldable pub sort_strings : List GoString → List GoString
unfolding insert_sorted
sort_strings [] = []
sort_strings (x ∷ xs) = insert_sorted x (sort_strings xs)

pub insert_sorted_comm :
    (x y : GoString) (zs : List GoString)
    → insert_sorted x (insert_sorted y zs) ≡ insert_sorted y (insert_sorted x zs)
unfolding insert_sorted
insert_sorted_comm x y [] = ground (arith, str_leb_total x y, str_leb_antisymm x y)
insert_sorted_comm x y (z ∷ zs) = ground (
  arith,
  str_leb_total x y,
  str_leb_antisymm x y,
  str_leb_trans x y z,
  str_leb_trans y x z,
  insert_sorted_comm x y zs,
)

-- The order in which the strings come does not matter.
pub sort_strings-Reorders :
    {xs ys : List GoString} → Reorders xs ys → sort_strings xs ≡ sort_strings ys
unfolding sort_strings
sort_strings-Reorders same = refl
sort_strings-Reorders (skip {x} r) = ap (insert_sorted x) (sort_strings-Reorders r)
sort_strings-Reorders (swap {x} {y} {xs}) = insert_sorted_comm x y (sort_strings xs)
sort_strings-Reorders (chain r t) = sort_strings-Reorders r ∙ sort_strings-Reorders t

pub sort_strings-append :
    (xs : List GoString) (x : GoString)
    → sort_strings (xs ++ x ∷ []) ≡ insert_sorted x (sort_strings xs)
unfolding sort_strings
sort_strings-append [] x = refl
sort_strings-append (y ∷ xs) x =
    ap (insert_sorted y) (sort_strings-append xs x) ∙ insert_sorted_comm y x (sort_strings xs)

-- The list is in order: each string is at most the next.
abbrev pub IsSorted : List GoString → Type 0
IsSorted [] = Unit
IsSorted (x ∷ []) = Unit
IsSorted (x ∷ y ∷ ys) = (str_leb x y ≡ true) × IsSorted (y ∷ ys)

insert_sorted-IsSorted :
    (x : GoString) (ys : List GoString) → IsSorted ys → IsSorted (insert_sorted x ys)
unfolding insert_sorted
insert_sorted-IsSorted x [] h = tt
insert_sorted-IsSorted x (y ∷ []) h = ground (arith, str_leb_total x y)
insert_sorted-IsSorted x (y ∷ z ∷ zs) h =
    ground (arith, str_leb_total x y, insert_sorted-IsSorted x (z ∷ zs))

pub sort_strings-IsSorted : (xs : List GoString) → IsSorted (sort_strings xs)
unfolding sort_strings
sort_strings-IsSorted [] = tt
sort_strings-IsSorted (x ∷ xs) =
    insert_sorted-IsSorted x (sort_strings xs) (sort_strings-IsSorted xs)

Reorders-insert_sorted :
    (x : GoString) (ys : List GoString) → Reorders (x ∷ ys) (insert_sorted x ys)
unfolding insert_sorted
Reorders-insert_sorted x [] = same
Reorders-insert_sorted x (y ∷ ys) = elim (Bool-cases (str_leb x y)) [
  | inl le ↦ rw le same
  | inr gt ↦ rw gt (chain swap (skip (Reorders-insert_sorted x ys)))
]

pub Reorders-sort_strings : (xs : List GoString) → Reorders xs (sort_strings xs)
unfolding sort_strings
Reorders-sort_strings [] = same
Reorders-sort_strings (x ∷ xs) =
    chain (skip (Reorders-sort_strings xs)) (Reorders-insert_sorted x (sort_strings xs))
