-- ===== src/PolicyCache/Versions.antt =====
-- The order of the policy versions, and the summary of a push.
use opus8_cf.Base.{
  ◌==◌, if◌then◌else◌, false, ◌∙◌, text_eq, text_eq_iff, first-upsert_other, true, ℕ, suc, ◌+◌, ◌<◌,
  ◌≤◌, ◌≡◌, ◌≢◌, refl, ap, arith, Bool, not, List, [], ◌∷◌, Option, none, some, length, keep, map,
  max, first_where, first-upsert, merged, text_eq_refl,
}
use opus8_cf.Nodes.{Node}
use opus8_cf.Maintenance.{RuntimeRow, success_key, note_success}
use opus8_cf.PolicyCache.{
  Target, policy_version_key, version_row, version_or_one, get_edge_policy_version,
  advance_edge_policy_version, publish_edge_policy_change, invalidate_edge_policy_caches, targets,
}

version-advanced :
    (found : Option RuntimeRow) (now : ℕ) (before after : ℕ)
    → 1 < now
    → before ≡ max 1 (version_or_one found)
    → after
      ≡ max 1 (
          version_or_one (
            some (
              merged
                (record { key = policy_version_key; value = now; updated_at = now })
                (λ r. record r { value = max (r.value + 1) now; updated_at = now })
                found)))
    → (now ≤ after) × (found ≢ none → before < after)
version-advanced none now before after h b a = ground arith
version-advanced (some r) now before after h b a = ground arith

-- The rows after runs of the maintenance, each with the number of the rows that it deleted and its time.
unfoldable pub after_maintenance : List RuntimeRow → List (ℕ × ℕ) → List RuntimeRow
unfolding note_success
after_maintenance rows [] = rows
after_maintenance rows ((deleted, now) ∷ runs) =
    after_maintenance (note_success deleted now rows) runs

apart : (r : RuntimeRow) → text_eq r.key success_key ≡ true → version_row r ≡ false
unfolding text_eq
apart r h = rw ((text_eq_iff r.key success_key).0 h) refl

noted-version :
    (deleted now : ℕ) (rows : List RuntimeRow)
    → first_where version_row (note_success deleted now rows) ≡ first_where version_row rows
unfolding note_success text_eq
noted-version deleted now rows =
    first-upsert_other (λ r. text_eq r.key success_key) version_row
      (λ r. record r { value = deleted; updated_at = now })
      (record { key = success_key; value = deleted; updated_at = now }) rows refl
      (λ r h. (apart r h, apart r h))

maintained-version :
    (runs : List (ℕ × ℕ)) (rows : List RuntimeRow)
    → first_where version_row (after_maintenance rows runs) ≡ first_where version_row rows
unfolding after_maintenance
maintained-version [] rows = refl
maintained-version ((deleted, now) ∷ runs) rows =
    maintained-version runs (note_success deleted now rows) ∙ noted-version deleted now rows

advanced-row :
    (rows : List RuntimeRow) (now : ℕ)
    → first_where version_row (advance_edge_policy_version rows now)
      ≡ some (
          merged
            (record { key = policy_version_key; value = now; updated_at = now })
            (λ r. record r { value = max (r.value + 1) now; updated_at = now })
            (first_where version_row rows))
unfolding advance_edge_policy_version
advanced-row rows now =
    first-upsert version_row (λ r. record r { value = max (r.value + 1) now; updated_at = now })
      (record { key = policy_version_key; value = now; updated_at = now }) rows
      (text_eq_refl policy_version_key) (λ r. refl)

stored-version :
    (rows : List RuntimeRow) (r : RuntimeRow)
    → first_where version_row rows ≡ some r
    → get_edge_policy_version rows ≡ max 1 (version_or_one (some r))
unfolding get_edge_policy_version
stored-version rows r h = ap (λ o. max 1 (version_or_one o)) h

merged-value :
    (found : Option RuntimeRow) (now : ℕ)
    → now
      ≤ (merged
          (record { key = policy_version_key; value = now; updated_at = now })
          (λ r. record r { value = max (r.value + 1) now; updated_at = now })
          found).value
merged-value none now = omega arith
merged-value (some r) now = ground arith

grown :
    (v now : ℕ)
    → 1 < v
    → max 1 (if v == 0 then 1 else v) < max 1 (if max (v + 1) now == 0 then 1 else max (v + 1) now)
grown v now h = ground arith

-- A version of more than 1 is followed by a later one, whatever the clock says.
advance-later :
    (rows : List RuntimeRow) (r : RuntimeRow) (now : ℕ)
    → first_where version_row rows ≡ some r
    → 1 < r.value
    → get_edge_policy_version rows < get_edge_policy_version (advance_edge_policy_version rows now)
advance-later rows r now h k =
    let next : RuntimeRow = record r { value = max (r.value + 1) now; updated_at = now } in
    let after : first_where version_row (advance_edge_policy_version rows now) ≡ some next =
      rw h at (advanced-row rows now) in
    rw (stored-version rows r h, stored-version (advance_edge_policy_version rows now) next after)
      (grown r.value now k)

version_of :
    (rows : List RuntimeRow)
    → get_edge_policy_version rows ≡ max 1 (version_or_one (first_where version_row rows))
unfolding get_edge_policy_version
version_of rows = refl

version_same :
    (rows rows' : List RuntimeRow)
    → first_where version_row rows ≡ first_where version_row rows'
    → get_edge_policy_version rows ≡ get_edge_policy_version rows'
unfolding get_edge_policy_version
version_same rows rows' h = ap (λ o. max 1 (version_or_one o)) h

-- A published change gives the nodes a version that is later than the one before and not before the
-- clock. getEdgePolicyVersion answers that version after any runs of the maintenance, and the next change
-- that is published after them gets a later one, even if the clock has been set back. The table has the
-- version's row, and the clock is after its second millisecond.
pub publish-version :
    (reached : ℕ → Target → Bool) (nodes : List Node) (rows : List RuntimeRow) (now : ℕ)
    (runs : List (ℕ × ℕ)) (next : ℕ)
    → 1 < now
    → first_where version_row rows ≢ none
    → let (left, version, _) = publish_edge_policy_change reached nodes rows now in
      (get_edge_policy_version rows < version)
      × (now ≤ version)
      × (get_edge_policy_version (after_maintenance left runs) ≡ version)
      × (version < (publish_edge_policy_change reached nodes (after_maintenance left runs) next).1)
unfolding publish_edge_policy_change
publish-version reached nodes rows now runs next h k =
    let left = advance_edge_policy_version rows now in
    let found = first_where version_row rows in
    let (le, lt) =
      version-advanced found now (get_edge_policy_version rows) (get_edge_policy_version left) h
        (version_of rows) (stored-version left _ (advanced-row rows now)) in
    let kept = maintained-version runs left in
    let same = version_same (after_maintenance left runs) left kept in
    let value = merged-value found now in
    (
      lt k,
      le,
      same,
      rw same at (
          advance-later (after_maintenance left runs) _ next (kept ∙ advanced-row rows now)
            (omega (arith, value, h))),
    )

kept_or_not :
    {A : Type 0} (p : A → Bool) (xs : List A)
    → length (keep p xs) + length (keep (λ x. not (p x)) xs) ≡ length xs
kept_or_not p [] = omega arith
kept_or_not p (x ∷ xs) = ground (arith, kept_or_not p xs)

length-map : {A B : Type 0} (f : A → B) (xs : List A) → length (map f xs) ≡ length xs
length-map f [] = refl
length-map f (x ∷ xs) = ap suc (length-map f xs)

-- Every node that a push has tried is counted once, as acknowledged or as failed.
push-counts :
    (reached : Target → Bool) (nodes : List Node)
    → (invalidate_edge_policy_caches reached nodes).acknowledged
        + length (invalidate_edge_policy_caches reached nodes).failed_nodes
      ≡ (invalidate_edge_policy_caches reached nodes).attempted
unfolding invalidate_edge_policy_caches
push-counts reached nodes =
    rw (length-map (λ t. t.id) (keep (λ t. not (reached t)) (targets nodes)))
      (kept_or_not reached (targets nodes))
