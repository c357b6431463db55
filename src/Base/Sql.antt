-- ===== src/Base/Sql.antt =====
-- Tables as lists of rows, with the statements of SQL that the source sends to its database.
use Prim.Native.Nat.{ℕ, suc, ◌≤◌}
use mathlib.Core.Path.{◌≡◌, refl, ap}
use mathlib.Core.Bool.{Bool, true, false, not}
use mathlib.Core.List.{List, [], ◌∷◌}
use mathlib.Core.Option.{Option, none, some}
use native.Mathlib.Omega.{arith}
use opus8_cf.Base.Tests.{if◌then◌else◌, Bool-cases}
use mathlib.Core.Logic.{inl, inr}
use opus8_cf.Base.Lists.{keep}

module _ {ℓ} {A : Type ℓ} where
  -- `SELECT … WHERE p LIMIT 1`.
  unfoldable pub first_where : (A → Bool) → List A → Option A
  first_where p [] = none
  first_where p (r ∷ t) = let rest = first_where p t in if p r then some r else rest

  -- `UPDATE … SET f WHERE p`.
  unfoldable pub update_where : (A → Bool) → (A → A) → List A → List A
  update_where p f [] = []
  update_where p f (r ∷ t) = (if p r then f r else r) ∷ update_where p f t

  -- `DELETE … WHERE p`.
  abbrev pub delete_where : (A → Bool) → List A → List A
  delete_where p t = keep (λ r. not (p r)) t

  -- `meta.changes` of an UPDATE or a DELETE, and `COUNT(*)`.
  unfoldable pub count_where : (A → Bool) → List A → ℕ
  count_where p [] = 0
  count_where p (r ∷ t) = if p r then suc (count_where p t) else count_where p t

  -- `INSERT … ON CONFLICT(key) DO UPDATE SET merge`, where `same` tells the rows of one key.
  unfoldable pub upsert : (A → Bool) → (A → A) → A → List A → List A
  upsert same merge new [] = new ∷ []
  upsert same merge new (r ∷ t) =
      let rest = upsert same merge new t in if same r then merge r ∷ t else r ∷ rest

  pub first_where-holds :
      (p : A → Bool) (t : List A) (r : A) → first_where p t ≡ some r → p r ≡ true
  unfolding first_where
  first_where-holds p [] r e = cc
  first_where-holds p (x ∷ t) r e = ground (arith, first_where-holds p t r)

  pub count-update_zero :
      (p : A → Bool) (f : A → A) (t : List A)
      → ((r : A) → p (f r) ≡ false)
      → count_where p (update_where p f t) ≡ 0
  unfolding count_where update_where
  count-update_zero p f [] h = refl
  count-update_zero p f (x ∷ t) h = ground (arith, h x, count-update_zero p f t h)

  pub update_where-none :
      (p : A → Bool) (f : A → A) (t : List A) → count_where p t ≡ 0 → update_where p f t ≡ t
  unfolding count_where update_where
  update_where-none p f [] h = refl
  update_where-none p f (x ∷ t) h = ground (arith, update_where-none p f t)

  -- A lookup that the update does not touch, or that finds the updated row.
  pub first-update_other :
      (p q : A → Bool) (f : A → A) (t : List A)
      → ((r : A) → q (if p r then f r else r) ≡ q r)
      → ((r : A) → q r ≡ true → p r ≡ false)
      → first_where q (update_where p f t) ≡ first_where q t
  unfolding first_where update_where
  first-update_other p q f [] h k = refl
  first-update_other p q f (x ∷ t) h k = ground (arith, h x, k x, first-update_other p q f t h k)

  pub first-update :
      (p q : A → Bool) (f : A → A) (t : List A) (r : A)
      → ((r : A) → q (if p r then f r else r) ≡ q r)
      → first_where q t ≡ some r
      → first_where q (update_where p f t) ≡ some (if p r then f r else r)
  unfolding first_where update_where
  first-update p q f [] r h e = cc
  first-update p q f (x ∷ t) r h e = ground (arith, h x, h r, first-update p q f t r h)

  -- The row that an upsert leaves, by the row that it finds.
  abbrev pub merged : A → (A → A) → Option A → A
  merged new merge none = new
  merged new merge (some r) = merge r

  pub first-upsert :
      (same : A → Bool) (merge : A → A) (new : A) (t : List A)
      → same new ≡ true
      → ((r : A) → same (merge r) ≡ same r)
      → first_where same (upsert same merge new t) ≡ some (merged new merge (first_where same t))
  unfolding first_where upsert
  first-upsert same merge new [] h k = rw h
  first-upsert same merge new (x ∷ t) h k = elim (Bool-cases (same x)) [
    | inl hit ↦ rw (hit, k x, hit) refl
    | inr miss ↦ rw (miss, miss) (first-upsert same merge new t h k)
  ]

  -- An upsert that writes the whole row.
  pub first-upsert_set :
      (same : A → Bool) (new : A) (t : List A)
      → same new ≡ true
      → first_where same (upsert same (λ _. new) new t) ≡ some new
  unfolding first_where upsert
  first-upsert_set same new [] h = rw h refl
  first-upsert_set same new (x ∷ t) h = elim (Bool-cases (same x)) [
    | inl hit ↦ rw (hit, h) refl
    | inr miss ↦ rw (miss, miss) (first-upsert_set same new t h)
  ]

  pub first-upsert_other :
      (same q : A → Bool) (merge : A → A) (new : A) (t : List A)
      → q new ≡ false
      → ((r : A) → same r ≡ true → (q (merge r) ≡ false) × (q r ≡ false))
      → first_where q (upsert same merge new t) ≡ first_where q t
  unfolding first_where upsert
  first-upsert_other same q merge new [] h k = rw h
  first-upsert_other same q merge new (x ∷ t) h k =
      ground (arith, k x, first-upsert_other same q merge new t h k)

  -- An upsert whose merge changes nothing of the row that it finds changes nothing at all.
  pub upsert_same :
      (same : A → Bool) (merge : A → A) (new : A) (t : List A) (r : A)
      → first_where same t ≡ some r
      → merge r ≡ r
      → upsert same merge new t ≡ t
  unfolding first_where upsert
  upsert_same same merge new [] r e m = cc
  upsert_same same merge new (x ∷ t) r e m =
      ground (arith, upsert_same same merge new t r, ap (λ z. z ∷ t) m)

  -- An update whose rows are all as they would be changes nothing.
  pub update_where_same :
      (p : A → Bool) (f : A → A) (t : List A)
      → ((x : A) → p x ≡ true → f x ≡ x)
      → update_where p f t ≡ t
  unfolding update_where
  update_where_same p f [] h = refl
  update_where_same p f (x ∷ t) h = ground (arith, h x, update_where_same p f t h)

  pub first-none : (p : A → Bool) (t : List A) → ((r : A) → p r ≡ false) → first_where p t ≡ none
  unfolding first_where
  first-none p [] h = refl
  first-none p (x ∷ t) h = rw (h x) (first-none p t h)

  pub count_where-none : (p : A → Bool) (t : List A) → first_where p t ≡ none → count_where p t ≡ 0
  unfolding first_where count_where
  count_where-none p [] h = refl
  count_where-none p (x ∷ t) h = ground (arith, count_where-none p t)

  -- Rows that fail the first test cannot pass the second after the update.
  pub count-update-le :
      (p q s : A → Bool) (f : A → A) (t : List A)
      → ((r : A) → q (if s r then f r else r) ≡ true → p r ≡ true)
      → count_where q (update_where s f t) ≤ count_where p t
  unfolding count_where update_where
  count-update-le p q s f [] h = omega arith
  count-update-le p q s f (x ∷ t) h = ground (arith, h x, count-update-le p q s f t h)

  pub count-keep-le :
      (p q s : A → Bool) (t : List A)
      → ((r : A) → q r ≡ true → p r ≡ true)
      → count_where q (keep s t) ≤ count_where p t
  unfolding count_where
  count-keep-le p q s [] h = omega arith
  count-keep-le p q s (x ∷ t) h = ground (arith, h x, count-keep-le p q s t h)

  pub count_mono :
      (p q : A → Bool) (t : List A)
      → ((r : A) → q r ≡ true → p r ≡ true)
      → count_where q t ≤ count_where p t
  unfolding count_where
  count_mono p q [] h = omega arith
  count_mono p q (x ∷ t) h = ground (arith, h x, count_mono p q t h)

  -- Deleting rows that the test refuses leaves the count.
  pub count-keep_same :
      (p s : A → Bool) (t : List A)
      → ((r : A) → p r ≡ true → s r ≡ true)
      → count_where p (keep s t) ≡ count_where p t
  unfolding count_where
  count-keep_same p s [] h = refl
  count-keep_same p s (x ∷ t) h = ground (arith, h x, count-keep_same p s t h)
