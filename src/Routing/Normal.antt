-- ===== src/Routing/Normal.antt =====
-- A host that normalizeOne of packages/control-plane/src/routing.ts gives is its own normal form.
use mathlib.Core.List.{reverse, reverse-cons}
use opus8_cf.Base.{
  ℕ, ap, subst, ◌≤◌, ◌≡◌, refl, arith, true, false, ◌||◌, List, [], ◌∷◌, ◌++◌, some, ◌==◌, length,
  all, any, Text, codes, truthy, lower, is_space, to_lower, split, split_from, starts_with,
  has_text, Value, str, Bool-cases, inl, inr, All, NoSpace, trim_of_NoSpace,
}
use opus8_cf.Enrollment.Fields.{drop_last_dot}
use opus8_cf.Routing.{
  is_part_char, is_part, later_parts, domain_parts, domain_re, is_bad_char, drop_wildcard,
  check_host, normalize_one,
}

abbrev IsHostChar : ℕ → Type 0
IsHostChar c = (is_part_char c || c == b'.') ≡ true

-- A part that is not empty, of the characters of a part.
abbrev IsSolid : Text → Type 0
IsSolid l = (1 ≤ length l) × All IsHostChar l

all-All : (l : Text) → all is_part_char l ≡ true → All IsHostChar l
all-All [] h = tt
all-All (c ∷ l) h = (ground arith, all-All l (ground arith))

part-IsSolid : (l : Text) → is_part l ≡ true → IsSolid l
unfolding is_part
part-IsSolid l h = (ground arith, all-All l (ground arith))

later-AllSolid : (ls : List Text) → later_parts ls ≡ true → All IsSolid ls
unfolding later_parts
later-AllSolid [] h = tt
later-AllSolid (l ∷ []) h = (part-IsSolid l (ground arith), tt)
later-AllSolid (l ∷ m ∷ ls) h =
    (part-IsSolid l (ground arith), later-AllSolid (m ∷ ls) (ground arith))

domain-AllSolid : (ls : List Text) → domain_parts ls ≡ true → All IsSolid ls
unfolding domain_parts
domain-AllSolid [] h = tt
domain-AllSolid (l ∷ ls) h = (part-IsSolid l (ground arith), later-AllSolid ls (ground arith))

All-snoc : (xs : Text) (c : ℕ) → All IsHostChar (xs ++ (c ∷ [])) → All IsHostChar xs × IsHostChar c
All-snoc [] c h = (tt, h.0)
All-snoc (x ∷ xs) c h = let rest = All-snoc xs c h.1 in ((h.0, rest.0), rest.1)

split-dot :
    (cur : Text) (c : ℕ) (s : Text)
    → (c == b'.') ≡ true
    → split_from b'.' cur (c ∷ s) ≡ reverse cur ∷ split_from b'.' [] s
unfolding split_from
split-dot cur c s dot = rw (split_from, dot) refl

split-other :
    (cur : Text) (c : ℕ) (s : Text)
    → (c == b'.') ≡ false
    → split_from b'.' cur (c ∷ s) ≡ split_from b'.' (c ∷ cur) s
unfolding split_from
split-other cur c s other = rw (split_from, other) refl

-- Where all parts of a text are solid, so is what was read of the first one, and the text has the
-- characters of a host.
split-All :
    (cur s : Text)
    → All IsSolid (split_from b'.' cur s)
    → All IsHostChar (reverse cur) × All IsHostChar s
unfolding split_from
split-All cur [] h = (h.0.1, tt)
split-All cur (c ∷ s) h = elim (Bool-cases (c == b'.')) [
  | inl dot ↦
      let parts = subst (All IsSolid) (split-dot cur c s dot) h in
      (parts.0.1, (ground (arith, dot), (split-All [] s parts.1).1))
  | inr other ↦
      let (read, rest) =
        split-All (c ∷ cur) s (subst (All IsSolid) (split-other cur c s other) h) in
      let (before, here) =
        All-snoc (reverse cur) c (subst (All IsHostChar) (reverse-cons c cur) read) in
      (before, (here, rest))
]

no_part : ¬ (1 ≤ length (reverse {A = ℕ} []))
no_part h = ground arith

drop_last_dot-solid : (cur s : Text) → All IsSolid (split_from b'.' cur s) → drop_last_dot s ≡ s
unfolding split_from drop_last_dot
drop_last_dot-solid cur [] h = refl
drop_last_dot-solid cur (c ∷ []) h = elim (Bool-cases (c == b'.')) [
  | inl dot ↦
      let parts = subst (All IsSolid) (split-dot cur c [] dot) h in absurd (no_part parts.1.0.0)
  | inr other ↦ rw other refl
]
drop_last_dot-solid cur (c ∷ d ∷ s) h = elim (Bool-cases (c == b'.')) [
  | inl dot ↦
      let parts = subst (All IsSolid) (split-dot cur c (d ∷ s) dot) h in
      ap (λ z. c ∷ z) (drop_last_dot-solid [] (d ∷ s) parts.1)
  | inr other ↦
      ap (λ z. c ∷ z)
        (drop_last_dot-solid (c ∷ cur) (d ∷ s)
          (subst (All IsSolid) (split-other cur c (d ∷ s) other) h))
]

kept : (c : ℕ) → IsHostChar c → (is_space c ≡ false) × (to_lower c ≡ c) × (is_bad_char c ≡ false)
kept c h = (ground arith, ground arith, ground arith)

kept_star : (c : ℕ) → IsHostChar c → (c == b'*') ≡ false
kept_star c h = ground arith

kept_colon : (c : ℕ) → IsHostChar c → (c == b':') ≡ false
kept_colon c h = ground arith

host-NoSpace : (s : Text) → All IsHostChar s → NoSpace s
host-NoSpace [] h = tt
host-NoSpace (c ∷ s) h = ((kept c h.0).0, host-NoSpace s h.1)

lower_of_host : (s : Text) → All IsHostChar s → lower s ≡ s
lower_of_host [] h = refl
lower_of_host (c ∷ s) h = rw ((kept c h.0).1, lower_of_host s h.1) refl

drop_wildcard_of_host : (s : Text) → All IsHostChar s → drop_wildcard s ≡ s
unfolding starts_with
drop_wildcard_of_host [] h = refl
drop_wildcard_of_host (c ∷ s) h = rw (starts_with, kept_star c h.0) refl

any_bad_of_host : (s : Text) → All IsHostChar s → any is_bad_char s ≡ false
any_bad_of_host [] h = refl
any_bad_of_host (c ∷ s) h = rw ((kept c h.0).2, any_bad_of_host s h.1) refl

no_scheme : (s : Text) → All IsHostChar s → has_text s (codes "://") ≡ false
unfolding has_text starts_with
no_scheme [] h = refl
no_scheme (c ∷ s) h = rw (kept_colon c h.0, no_scheme s h.1) refl

truthy_of_domain : (s : Text) → domain_re s ≡ true → truthy s ≡ true
unfolding domain_re
truthy_of_domain [] h = absurd (ground arith)
truthy_of_domain (c ∷ s) h = refl

-- A host that matches the pattern is its own normal form.
pub normalize_of_domain : (s : Text) → domain_re s ≡ true → normalize_one (str s) ≡ some s
unfolding normalize_one check_host domain_re split
normalize_of_domain s h =
    let solid = domain-AllSolid (split b'.' s) (ground arith) in
    let chars = (split-All [] s solid).1 in
    rw
      (
        trim_of_NoSpace s (host-NoSpace s chars),
        lower_of_host s chars,
        drop_wildcard_of_host s chars,
        drop_last_dot-solid [] s solid,
        truthy_of_domain s h,
        no_scheme s chars,
        any_bad_of_host s chars,
        h,
      )
      refl

pub normalize-domain : (v : Value) (s : Text) → normalize_one v ≡ some s → domain_re s ≡ true
unfolding normalize_one check_host
normalize-domain v s h = ground arith
