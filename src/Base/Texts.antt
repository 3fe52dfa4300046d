-- ===== src/Base/Texts.antt =====
-- Texts as lists of bytes, and the comparison of texts and of lists of texts.
use Prim.Native.Nat.{ℕ, zero, suc, ◌+◌, ◌/◌, ◌%◌}
use mathlib.Core.Path.{◌≡◌, refl, ap, ◌∙◌}
use mathlib.Core.Logic.{◌↔◌}
use mathlib.Core.Bool.{Bool, true, false, ◌&&◌}
use mathlib.Core.List.{List, [], ◌∷◌, ◌++◌}
use native.Mathlib.Omega.{arith}
use skywalking_satellite.Base.Tests.{◌==◌, ltb, ==_iff, if◌then◌else◌}

abbrev pub Text : Type 0
Text = List ℕ

-- The comparison of two lists by that of their elements.
unfoldable pub list_eq {ℓ} : {A : Type ℓ} → (A → A → Bool) → List A → List A → Bool
list_eq eq [] [] = true
list_eq eq [] (y ∷ ys) = false
list_eq eq (x ∷ xs) [] = false
list_eq eq (x ∷ xs) (y ∷ ys) = eq x y && list_eq eq xs ys

pub list_eq_iff {ℓ} :
    {A : Type ℓ} (eq : A → A → Bool)
    → ((x y : A) → (eq x y ≡ true) ↔ (x ≡ y))
    → (xs ys : List A) → (list_eq eq xs ys ≡ true) ↔ (xs ≡ ys)
unfolding list_eq
list_eq_iff eq sound [] [] = (λ h. refl, λ h. refl)
list_eq_iff eq sound [] (y ∷ ys) = (λ h. cc, λ h. cc)
list_eq_iff eq sound (x ∷ xs) [] = (λ h. cc, λ h. cc)
list_eq_iff eq sound (x ∷ xs) (y ∷ ys) =
    let s = sound x y in
    let r = list_eq_iff eq sound xs ys in (λ h. ground (arith, s, r), λ h. ground (arith, s, r))

abbrev pub text_eq : Text → Text → Bool
text_eq = list_eq ◌==◌

pub text_eq_iff : (a b : Text) → (text_eq a b ≡ true) ↔ (a ≡ b)
text_eq_iff = list_eq_iff ◌==◌ ==_iff

abbrev pub texts_eq : List Text → List Text → Bool
texts_eq = list_eq text_eq

pub texts_eq_iff : (a b : List Text) → (texts_eq a b ≡ true) ↔ (a ≡ b)
texts_eq_iff = list_eq_iff text_eq text_eq_iff

-- strconv.Itoa of a number that is not negative; an int has less than twenty digits.
unfoldable pub itoa_from : ℕ → ℕ → Text → Text
itoa_from zero n digits = digits
itoa_from (suc fuel) n digits =
    let rest = itoa_from fuel (n / 10) ((48 + n % 10) ∷ digits) in
    if ltb n 10 then (48 + n) ∷ digits else rest

unfoldable pub itoa : ℕ → Text
itoa n = itoa_from 20 n []

-- strings.Split by a separator of one byte: the pieces between the separators, at least one.
abbrev pub put_byte : ℕ → List Text → List Text
put_byte b [] = (b ∷ []) ∷ []
put_byte b (p ∷ ps) = (b ∷ p) ∷ ps

unfoldable pub split : ℕ → Text → List Text
split sep [] = [] ∷ []
split sep (b ∷ s) = let rest = split sep s in if b == sep then [] ∷ rest else put_byte b rest

-- strings.Join
unfoldable pub join : ℕ → List Text → Text
join sep [] = []
join sep (p ∷ []) = p
join sep (p ∷ q ∷ ps) = p ++ (sep ∷ join sep (q ∷ ps))

-- The pieces have no separator in them.
abbrev pub Lacks : ℕ → Text → Type 0
Lacks sep [] = Unit {0}
Lacks sep (b ∷ s) = (b == sep ≡ false) × Lacks sep s

abbrev pub AllLack : ℕ → List Text → Type 0
AllLack sep [] = Unit {0}
AllLack sep (p ∷ ps) = Lacks sep p × AllLack sep ps

split-append :
    (sep : ℕ) (p : Text) (s : Text) → Lacks sep p → split sep (p ++ (sep ∷ s)) ≡ p ∷ split sep s
unfolding split
split-append sep [] s h = rw ((==_iff sep sep).1 refl)
split-append sep (b ∷ p) s h = rw (h.0, split-append sep p s h.1)

split-Lacks : (sep : ℕ) (p : Text) → Lacks sep p → split sep p ≡ p ∷ []
unfolding split
split-Lacks sep [] h = refl
split-Lacks sep (b ∷ p) h = rw (h.0, split-Lacks sep p h.1)

-- Pieces without the separator come back from their join.
pub split-join :
    (sep : ℕ) (p : Text) (ps : List Text)
    → AllLack sep (p ∷ ps)
    → split sep (join sep (p ∷ ps)) ≡ p ∷ ps
unfolding join
split-join sep p [] h = split-Lacks sep p h.0
split-join sep p (q ∷ ps) h =
    split-append sep p (join sep (q ∷ ps)) h.0 ∙ ap (λ l. p ∷ l) (split-join sep q ps h.1)
