-- ===== src/Routing/Stored.antt =====
-- The hosts that validateUnlockHosts of packages/control-plane/src/routing.ts accepts are kept as they
-- are when they are stored.
use mathlib.Core.List.{append_assoc, append-nil}
use opus8_cf.Base.{
  All-take, take_all, ℕ, zero, suc, ◌∙◌, ap, sym, subst, ◌≤◌, ◌≡◌, refl, arith, true, false, List,
  [], ◌∷◌, ◌++◌, Option, none, some, ltb, length, take, length-take-le, Text, truthy, includes,
  whole, Value, str, arr, num, values, Bool-cases, inl, inr, All, All-append, Option-cases,
}
use opus8_cf.Routing.{
  custom, add_host, entry, domain_re, normalize_one, Validated, InvalidHost, collect_hosts,
  limit_hosts, validate_unlock_hosts, texts, StoredCodec, get_unlock_hosts, stored_hosts,
  custom_hosts, put_unlock_hosts, max_unlock_hosts,
}
use opus8_cf.Routing.Normal.{normalize_of_domain, normalize-domain}

-- Hosts of which none is in the list before it.
abbrev IsNew : List Text → List Text → Type 0
IsNew before [] = Unit
IsNew before (y ∷ ys) = (includes before y ≡ false) × IsNew (before ++ (y ∷ [])) ys

abbrev pub IsHosts : List Text → Type 0
IsHosts hosts = IsNew [] hosts × All (λ h. domain_re h ≡ true) hosts

IsNew-snoc :
    (xs ys : List Text) (h : Text)
    → IsNew xs ys
    → includes (xs ++ ys) h ≡ false
    → IsNew xs (ys ++ (h ∷ []))
IsNew-snoc xs [] h k l = (subst (λ z. includes z h ≡ false) (append-nil xs) l, tt)
IsNew-snoc xs (y ∷ ys) h k l = (
  k.0,
  IsNew-snoc (xs ++ (y ∷ [])) ys h k.1
      (subst (λ z. includes z h ≡ false) (sym (append_assoc xs (y ∷ []) ys)) l),
)

IsNew-take : (n : ℕ) (xs ys : List Text) → IsNew xs ys → IsNew xs (take n ys)
IsNew-take zero xs ys h = tt
IsNew-take (suc n) xs [] h = tt
IsNew-take (suc n) xs (y ∷ ys) h = (h.0, IsNew-take n (xs ++ (y ∷ [])) ys h.1)

few_hosts : (n : ℕ) → n ≤ max_unlock_hosts → ltb max_unlock_hosts n ≡ false
few_hosts n h = ground arith

collect-good :
    (value : Value) (vs : List Value) (v : Validated) (host : Text)
    → normalize_one value ≡ some host
    → collect_hosts (value ∷ vs) v
      ≡ collect_hosts vs
          (record { hosts = add_host (some host) v.hosts; invalid_hosts = v.invalid_hosts })
unfolding collect_hosts
collect-good value vs v host good = rw good refl

collect-bad :
    (value : Value) (vs : List Value) (v : Validated)
    → normalize_one value ≡ none
    → collect_hosts (value ∷ vs) v
      ≡ collect_hosts vs
          (record { hosts = v.hosts; invalid_hosts = v.invalid_hosts ++ (entry value ∷ []) })
unfolding collect_hosts
collect-bad value vs v bad = rw bad refl

add_host-IsHosts :
    (hosts : List Text) (host : Text)
    → IsHosts hosts
    → domain_re host ≡ true
    → IsHosts (add_host (some host) hosts)
add_host-IsHosts hosts host h k = elim (Bool-cases (includes hosts host)) [
  | inl there ↦ rw there h
  | inr new ↦ rw new (IsNew-snoc [] hosts host h.0 new, All-append _ hosts (host ∷ []) h.1 (k, tt))
]

collect-IsHosts :
    (vs : List Value) (v : Validated) → IsHosts v.hosts → IsHosts (collect_hosts vs v).hosts
unfolding collect_hosts
collect-IsHosts [] v h = h
collect-IsHosts (value ∷ vs) v h = elim (Option-cases (normalize_one value)) [
  | inl bad ↦
      subst (λ w. IsHosts w.hosts) (sym (collect-bad value vs v bad)) (collect-IsHosts vs _ h)
  | inr (host, good) ↦
      subst (λ w. IsHosts w.hosts) (sym (collect-good value vs v host good))
        (collect-IsHosts vs _ (add_host-IsHosts v.hosts host h (normalize-domain value host good)))
]

added :
    (hosts : List Text) (host : Text)
    → includes hosts host ≡ false
    → add_host (some host) hosts ≡ hosts ++ (host ∷ [])
added hosts host h = rw h refl

abbrev validated : List InvalidHost → List Text → Validated
validated invalid hosts = record { hosts = hosts; invalid_hosts = invalid }

collect_again :
    (ys xs : List Text) (invalid : List InvalidHost)
    → IsNew xs ys
    → All (λ h. domain_re h ≡ true) ys
    → collect_hosts (values (texts ys)) (validated invalid xs) ≡ validated invalid (xs ++ ys)
unfolding collect_hosts
collect_again [] xs invalid h k = ap (validated invalid) (sym (append-nil xs))
collect_again (y ∷ ys) xs invalid h k =
    collect-good (str y) (values (texts ys)) (validated invalid xs) y (normalize_of_domain y k.0)
    ∙ ap (λ z. collect_hosts (values (texts ys)) (validated invalid z)) (added xs y h.0)
    ∙ collect_again ys (xs ++ (y ∷ [])) invalid h.1 k.1
    ∙ ap (validated invalid) (append_assoc xs (y ∷ []) ys)

limit_again :
    (hosts : List Text)
    → length hosts ≤ max_unlock_hosts
    → limit_hosts (validated [] hosts) ≡ validated [] hosts
unfolding limit_hosts
limit_again hosts h = rw (take_all max_unlock_hosts hosts h, few_hosts (length hosts) h) refl

validate-IsHosts : (v : Value) → IsHosts (validate_unlock_hosts v).hosts
unfolding validate_unlock_hosts limit_hosts
validate-IsHosts (arr vs) =
    let (new, fine) = collect-IsHosts (values vs) (validated [] []) (tt, tt) in
    (IsNew-take max_unlock_hosts [] _ new, All-take _ max_unlock_hosts _ fine)
validate-IsHosts _ = (tt, tt)

validate-length : (v : Value) → length (validate_unlock_hosts v).hosts ≤ max_unlock_hosts
unfolding validate_unlock_hosts limit_hosts
validate-length (arr vs) = length-take-le max_unlock_hosts _
validate-length _ = omega arith

-- The hosts that validateUnlockHosts gives are given again, without an error, when they are validated
-- once more.
pub validate_again :
    (v : Value)
    → validate_unlock_hosts (arr (texts (validate_unlock_hosts v).hosts))
      ≡ record { hosts = (validate_unlock_hosts v).hosts; invalid_hosts = [] }
unfolding validate_unlock_hosts
validate_again v =
    let (new, fine) = validate-IsHosts v in
    ap limit_hosts (collect_again (validate_unlock_hosts v).hosts [] [] new fine)
    ∙ limit_again (validate_unlock_hosts v).hosts (validate-length v)

-- What the code takes from JSON: a configuration that is stored is read back, and numbers are numbers.
pub record IsCodec (codec : StoredCodec) : Type 0 where
  pub filled : (hosts : List Text) (now : ℕ) → truthy (codec.stringify hosts now) ≡ true
  pub read :
      (hosts : List Text) (now : ℕ)
      → codec.parse (codec.stringify hosts now)
        ≡ some (record { hosts = arr (texts hosts); updated_at = num (whole now) })
  pub number : (n : ℕ) → codec.number_or_zero (num (whole n)) ≡ whole n

custom_hosts_of :
    (codec : StoredCodec) (at value : Value) (hosts : List Text)
    → validate_unlock_hosts value ≡ validated [] hosts
    → custom_hosts codec (some (record { hosts = value; updated_at = at }))
      ≡ some (record { hosts = hosts; updated_at = codec.number_or_zero at; source = custom })
unfolding custom_hosts
custom_hosts_of codec at value hosts h = rw h refl

-- Hosts that were validated before they are stored are read back as the configuration that
-- putUnlockHosts answers, whatever the default is. JSON gives back what it is given.
pub put-get :
    (codec : StoredCodec) (configured : Option Text) (v : Value) (now : ℕ)
    → IsCodec codec
    → get_unlock_hosts codec configured
        (put_unlock_hosts codec (validate_unlock_hosts v).hosts now).0
      ≡ (put_unlock_hosts codec (validate_unlock_hosts v).hosts now).1
unfolding get_unlock_hosts put_unlock_hosts stored_hosts
put-get codec configured v now h =
    let hosts = (validate_unlock_hosts v).hosts in
    rw
      (
        h.filled hosts now,
        h.read hosts now,
        custom_hosts_of codec (num (whole now)) _ hosts (validate_again v),
        h.number now,
      )
      refl
