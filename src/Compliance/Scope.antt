-- ===== src/Compliance/Scope.antt =====
-- A change that packages/control-plane/src/compliance.ts takes for one that widens nothing.
use opus8_cf.Base.{
  ℕ, ◌≡◌, refl, arith, Bool, true, false, not, List, [], ◌∷◌, ◌++◌, some, any, Text, text_eq,
  text_eq_iff, starts_with, ends_with, Bool-cases, inl, inr, subst,
}
use mathlib.Core.List.{reverse, reverse-cons}
use opus8_cf.Admission.{in_quota}
use opus8_cf.Compliance.{covers, host_covered, domain_scope_increases, traffic_limit_increases}

-- The hosts that a list serves: with the flag, an empty list stands for every host.
abbrev pub serves : Bool → List Text → Text → Bool
serves true [] host = true
serves _ allowed host = host_covered host allowed

starts_with_trans :
    (s t u : Text) → starts_with s t ≡ true → starts_with t u ≡ true → starts_with s u ≡ true
unfolding starts_with
starts_with_trans s t [] h k = refl
starts_with_trans s [] (c ∷ u) h k = cc
starts_with_trans [] (d ∷ t) (c ∷ u) h k = cc
starts_with_trans (e ∷ s) (d ∷ t) (c ∷ u) h k = ground (arith, starts_with_trans s t u)

starts_with_front : (s t u : Text) → starts_with s (t ++ u) ≡ true → starts_with s t ≡ true
unfolding starts_with
starts_with_front s [] u h = refl
starts_with_front [] (c ∷ t) u h = cc
starts_with_front (d ∷ s) (c ∷ t) u h = ground (arith, starts_with_front s t u)

ends_trans :
    (host p q : Text)
    → ends_with host (b'.' ∷ p) ≡ true
    → ends_with p (b'.' ∷ q) ≡ true
    → ends_with host (b'.' ∷ q) ≡ true
ends_trans host p q h k =
    let front =
      starts_with_front (reverse host) (reverse p) (b'.' ∷ [])
        (subst (λ z. starts_with (reverse host) z ≡ true) (reverse-cons b'.' p) h) in
    starts_with_trans (reverse host) (reverse p) (reverse (b'.' ∷ q)) front k

covers_trans : (host p q : Text) → covers host p ≡ true → covers p q ≡ true → covers host q ≡ true
covers_trans host p q h k = elim (Bool-cases (text_eq host p)) [
  | inl same ↦ rw ((text_eq_iff host p).0 same) k
  | inr other ↦ elim (Bool-cases (text_eq p q)) [
    | inl equal ↦ rw (← (text_eq_iff p q).0 equal) h
    | inr below ↦ ground (arith, ends_trans host p q)
  ]
]

covered-by :
    (host p : Text) (qs : List Text)
    → covers host p ≡ true
    → host_covered p qs ≡ true
    → host_covered host qs ≡ true
unfolding host_covered
covered-by host p [] h k = cc
covered-by host p (q ∷ qs) h k = ground (arith, covers_trans host p q, covered-by host p qs)

-- A list all of whose hosts are covered serves no host that the other does not.
covered-all :
    (host : Text) (current requested : List Text)
    → any (λ p. not (host_covered p current)) requested ≡ false
    → host_covered host requested ≡ true
    → host_covered host current ≡ true
unfolding host_covered
covered-all host current [] h k = cc
covered-all host current (p ∷ ps) h k = elim (Bool-cases (covers host p)) [
  | inl here ↦ covered-by host p current here (ground arith)
  | inr below ↦ covered-all host current ps (ground arith) (ground arith)
]

-- Where domainScopeIncreases answers no, every host that the requested list serves is served by the
-- current one, as an entry or below an entry; with the flag an empty list serves every host.
pub no_increase-serves :
    (current requested : List Text) (empty_means_all : Bool) (host : Text)
    → domain_scope_increases current requested empty_means_all ≡ false
    → serves empty_means_all requested host ≡ true
    → serves empty_means_all current host ≡ true
unfolding domain_scope_increases
no_increase-serves current requested false host h k = covered-all host current requested h k
no_increase-serves [] requested true host h k = refl
no_increase-serves (c ∷ cs) [] true host h k = cc
no_increase-serves (c ∷ cs) (r ∷ rs) true host h k = covered-all host (c ∷ cs) (r ∷ rs) h k

-- Where trafficLimitIncreases answers no to a requested limit, every use that this limit lets through
-- passes the current one as well, by the quota test of the admission; a limit of 0 is none at all.
pub traffic_no_increase-quota :
    (current requested used : ℕ)
    → traffic_limit_increases current (some requested) ≡ false
    → in_quota requested used ≡ true
    → in_quota current used ≡ true
unfolding traffic_limit_increases
traffic_no_increase-quota current requested used h k = ground arith
