-- ===== src/Base/StringLaws.antt =====
-- What the string functions mean: prefixes, occurrences, trimming.
use mathlib.Core.Path.{◌≡◌, refl, ap}
use mathlib.Core.Logic.{◌↔◌, inl, inr}
use mathlib.Core.Bool.{Bool, true, false, ◌||◌}
use mathlib.Core.List.{[], ◌∷◌, ◌++◌, reverse, reverse-cons, reverse-reverse}
use native.Mathlib.Omega.{arith}
use opus8_cf.Base.Tests.{Bool-cases}
use opus8_cf.Base.Lists.{All, All-append}
use opus8_cf.Base.Strings.{Text, starts_with, trim, trim_start, is_space}

-- `s.includes(p)`.
unfoldable pub has_text : Text → Text → Bool
has_text [] p = starts_with [] p
has_text (c ∷ s) p = starts_with (c ∷ s) p || has_text s p

starts_with_sound : (s p : Text) → starts_with s p ≡ true → (t : Text) × (s ≡ p ++ t)
unfolding starts_with
starts_with_sound s [] h = (s, refl)
starts_with_sound [] (d ∷ p) h = cc
starts_with_sound (c ∷ s) (d ∷ p) h =
    let (t, e) = starts_with_sound s p (ground arith) in (t, ground (arith, e))

pub starts_with-append : (p t : Text) → starts_with (p ++ t) p ≡ true
unfolding starts_with
starts_with-append [] [] = refl
starts_with-append [] (c ∷ t) = refl
starts_with-append (c ∷ p) t = ground (arith, starts_with-append p t)

pub starts_with_iff : (s p : Text) → (starts_with s p ≡ true) ↔ ((t : Text) × (s ≡ p ++ t))
starts_with_iff s p = (starts_with_sound s p, λ (t, e). rw e (starts_with-append p t))

has_text_sound : (s p : Text) → has_text s p ≡ true → (a b : Text) × (s ≡ a ++ (p ++ b))
unfolding has_text
has_text_sound [] p h = let (t, e) = starts_with_sound [] p h in ([], t, e)
has_text_sound (c ∷ s) p h = elim (Bool-cases (starts_with (c ∷ s) p)) [
  | inl here ↦ (let (t, e) = starts_with_sound (c ∷ s) p here in ([], t, e))
  | inr later ↦ (let (a, b, e) = has_text_sound s p (ground arith) in (c ∷ a, b, ap (◌∷◌ c) e))
]

has_text-append : (a p b : Text) → has_text (a ++ (p ++ b)) p ≡ true
unfolding has_text
has_text-append [] [] [] = starts_with-append [] []
has_text-append [] [] (c ∷ b) = rw (starts_with-append [] (c ∷ b)) refl
has_text-append [] (c ∷ p) b = rw (starts_with-append (c ∷ p) b) refl
has_text-append (c ∷ a) p b = ground (arith, has_text-append a p b)

pub has_text_iff : (s p : Text) → (has_text s p ≡ true) ↔ ((a b : Text) × (s ≡ a ++ (p ++ b)))
has_text_iff s p = (has_text_sound s p, λ (a, b, e). rw e (has_text-append a p b))

abbrev pub NoSpace : Text → Type 0
NoSpace s = All (λ c. is_space c ≡ false) s

trim_start_of_NoSpace : (s : Text) → NoSpace s → trim_start s ≡ s
unfolding trim_start
trim_start_of_NoSpace [] h = refl
trim_start_of_NoSpace (c ∷ s) h = rw (h.0) refl

NoSpace-reverse : (s : Text) → NoSpace s → NoSpace (reverse s)
NoSpace-reverse [] h = tt
NoSpace-reverse (c ∷ s) h =
    rw (reverse-cons c s) (All-append _ (reverse s) (c ∷ []) (NoSpace-reverse s h.1) (h.0, tt))

-- Trimming leaves a string with no white space alone.
pub trim_of_NoSpace : (s : Text) → NoSpace s → trim s ≡ s
unfolding trim
trim_of_NoSpace s h =
    rw (trim_start_of_NoSpace s h, trim_start_of_NoSpace (reverse s) (NoSpace-reverse s h))
      (reverse-reverse s)
