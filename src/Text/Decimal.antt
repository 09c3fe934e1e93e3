-- ===== src/Text/Decimal.antt =====
-- The verb `%d` of `fmt`, at a number that is not negative, and the reading of such a text.
use argocd_notifier.Prelude.{
  ℕ, zero, suc, ◌+◌, ◌-◌, ◌*◌, ◌/◌, ◌%◌, ◌<◌, ◌≡◌, refl, [], ◌∷◌, arith, ltb, if◌then◌else◌,
}
use argocd_notifier.Text.Core.{GoString, bytes}

digits : ℕ → ℕ → GoString → GoString
digits zero n acc = acc
digits (suc f) n acc =
    let acc' : GoString = (b'0' + n % 10) ∷ acc in
    let rest = digits f (n / 10) acc' in if ltb n 10 then acc' else rest

-- A number has at most as many digits as it counts, and one more for 0.
unfoldable pub itoa : ℕ → GoString
unfolding digits
itoa n = digits (suc n) n []

unfoldable pub atoi_from : ℕ → GoString → ℕ
atoi_from n [] = n
atoi_from n (c ∷ s) = atoi_from (n * 10 + (c - b'0')) s

pub atoi : GoString → ℕ
unfolding atoi_from
atoi s = atoi_from 0 s

atoi_from-digits :
    (f n : ℕ) (acc : GoString) → n < f → atoi_from 0 (digits f n acc) ≡ atoi_from n acc
unfolding digits atoi_from
atoi_from-digits zero n acc h = elim h [ ]
atoi_from-digits (suc f) n acc h =
    ground (arith, atoi_from-digits f (n / 10) ((b'0' + n % 10) ∷ acc))

-- What is printed reads back as the number: the fuel of `itoa` is enough.
pub atoi-itoa : (n : ℕ) → atoi (itoa n) ≡ n
unfolding atoi itoa atoi_from
atoi-itoa n = atoi_from-digits (suc n) n [] (omega arith)

itoa_test : itoa 1907 ≡ bytes "1907"
unfolding itoa
itoa_test = refl
