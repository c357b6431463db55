-- ===== src/Metering/Once.antt =====
-- A batch that is sent again to `recordUsage` (packages/control-plane/src/usage.ts).
use opus8_cf.Base.{
  ℕ, ◌+◌, ◌*◌, ◌<◌, ◌≡◌, refl, sym, true, false, inl, inr, List, [], ◌∷◌, arith, any, keep, map,
  All, Text, text_eq_refl, update_where, delete_where, Bool-cases, subst,
}
use opus8_cf.Admission.{day_ms}
use opus8_cf.Metering.{
  UsageEvent, StoredEvent, MeterDb, metered, event_is, stored_event, is_new, insert_events, waits,
  mark, outlived, add_events, record_usage,
}

abbrev pub IsYoung : ℕ → StoredEvent → Type 0
IsYoung now r = now < r.created_at + 2 * day_ms

-- The rows that the inserts leave.
abbrev after_inserts : MeterDb → Text → ℕ → List UsageEvent → List StoredEvent → List StoredEvent
after_inserts db node_id now es t = (insert_events db node_id now es t).0

module _ (db : MeterDb) (node_id : Text) (now : ℕ) where
  insert_new :
      (e : UsageEvent) (es : List UsageEvent) (t : List StoredEvent)
      → is_new db e t ≡ true
      → after_inserts db node_id now (e ∷ es) t
        ≡ after_inserts db node_id now es (stored_event node_id now e ∷ t)
  unfolding insert_events
  insert_new e es t h = ground arith

  insert_old :
      (e : UsageEvent) (es : List UsageEvent) (t : List StoredEvent)
      → is_new db e t ≡ false
      → after_inserts db node_id now (e ∷ es) t ≡ after_inserts db node_id now es t
  unfolding insert_events
  insert_old e es t h = ground arith

  inserts-IsYoung :
      (es : List UsageEvent) (t : List StoredEvent)
      → All (IsYoung now) t
      → All (IsYoung now) (after_inserts db node_id now es t)
  unfolding stored_event insert_events
  inserts-IsYoung [] t h = h
  inserts-IsYoung (e ∷ es) t h = elim (Bool-cases (is_new db e t)) [
    | inl new ↦
        rw (insert_new e es t new)
          (inserts-IsYoung es (stored_event node_id now e ∷ t) (omega arith, h))
    | inr old ↦ rw (insert_old e es t old) (inserts-IsYoung es t h)
  ]

  inserts_keep :
      (id : Text) (es : List UsageEvent) (t : List StoredEvent)
      → any (event_is id) t ≡ true
      → any (event_is id) (after_inserts db node_id now es t) ≡ true
  unfolding stored_event insert_events
  inserts_keep id [] t h = h
  inserts_keep id (e ∷ es) t h = elim (Bool-cases (is_new db e t)) [
    | inl new ↦
        rw (insert_new e es t new)
          (inserts_keep id es (stored_event node_id now e ∷ t) (ground (arith, h)))
    | inr old ↦ rw (insert_old e es t old) (inserts_keep id es t h)
  ]

  -- Every event of a metered user is stored then.
  inserts_store :
      (es : List UsageEvent) (t : List StoredEvent)
      → All (λ e. is_new db e (after_inserts db node_id now es t) ≡ false) es
  unfolding stored_event insert_events
  inserts_store [] t = tt
  inserts_store (e ∷ es) t = elim (Bool-cases (is_new db e t)) [
    | inl new ↦
        let t' : List StoredEvent = stored_event node_id now e ∷ t in
        settled (insert_new e es t new)
          (inserts_keep e.id es t' (ground (arith, text_eq_refl e.id))) (inserts_store es t')
    | inr old ↦
        subst (λ (x : List StoredEvent). All (λ k. is_new db k x ≡ false) (e ∷ es))
          (sym (insert_old e es t old)) (ground (arith, inserts_keep e.id es t), inserts_store es t)
  ]
    where
      settled :
          {x y : List StoredEvent}
          → y ≡ x
          → any (event_is e.id) x ≡ true
          → All (λ k. is_new db k x ≡ false) es
          → All (λ k. is_new db k y ≡ false) (e ∷ es)
      settled {x} same h k =
          subst (λ (z : List StoredEvent). All (λ k. is_new db k z ≡ false) (e ∷ es)) (sym same)
            (ground (arith, h), k)

young-kept :
    (now : ℕ) (t : List StoredEvent) → All (IsYoung now) t → delete_where (outlived now) t ≡ t
young-kept now [] h = refl
young-kept now (r ∷ t) h = ground (arith, young-kept now t h.1)

mark-IsYoung :
    (now : ℕ) (ids : List Text) (t : List StoredEvent)
    → All (IsYoung now) t
    → All (IsYoung now) (update_where (waits ids) mark t)
unfolding update_where
mark-IsYoung now ids [] h = tt
mark-IsYoung now ids (r ∷ t) h = (ground (arith, h.0), mark-IsYoung now ids t h.1)

mark-event :
    (ids : List Text) (id : Text) (t : List StoredEvent)
    → any (event_is id) (update_where (waits ids) mark t) ≡ any (event_is id) t
unfolding update_where
mark-event ids id [] = refl
mark-event ids id (r ∷ t) = ground (arith, mark-event ids id t)

none_waits :
    (ids : List Text) (t : List StoredEvent)
    → keep (waits ids) (update_where (waits ids) mark t) ≡ []
unfolding update_where
none_waits ids [] = refl
none_waits ids (r ∷ t) = ground (arith, none_waits ids t)

inserts_nothing :
    (db : MeterDb) (node_id : Text) (now : ℕ) (es : List UsageEvent) (t : List StoredEvent)
    → All (λ e. is_new db e t ≡ false) es
    → insert_events db node_id now es t ≡ (t, 0)
unfolding insert_events
inserts_nothing db node_id now [] t h = refl
inserts_nothing db node_id now (e ∷ es) t h = rw h.0 (inserts_nothing db node_id now es t h.1)

is_new-other :
    (db db' : MeterDb) (t t' : List StoredEvent) (es : List UsageEvent)
    → ((id : Text) → metered db' id ≡ metered db id)
    → ((id : Text) → any (event_is id) t' ≡ any (event_is id) t)
    → All (λ e. is_new db e t ≡ false) es
    → All (λ e. is_new db' e t' ≡ false) es
is_new-other db db' t t' [] m k h = tt
is_new-other db db' t t' (e ∷ es) m k h =
    (rw (m e.user_id, k e.id) h.0, is_new-other db db' t t' es m k h.1)

-- Sent again on the tables that it left, whenever it is, a batch changes no total and no event
-- of it is accepted, where no event of the table was older than the two days for which events
-- are kept.
pub record_usage_twice :
    (db : MeterDb) (node_id : Text) (events : List UsageEvent) (now later : ℕ)
    → All (IsYoung now) db.events
    → let once = (record_usage db node_id events now).0 in
      ((record_usage once node_id events later).0.totals ≡ once.totals)
      × ((record_usage once node_id events later).1 ≡ 0)
unfolding record_usage add_events metered
record_usage_twice db node_id [] now later h = (refl, refl)
record_usage_twice db node_id (e ∷ es) now later h =
    let events : List UsageEvent = e ∷ es in
    let ids : List Text = map (λ x. x.id) events in
    let stored = after_inserts db node_id now events db.events in
    let once = (record_usage db node_id events now).0 in
    let kept : once.events ≡ update_where (waits ids) mark stored =
      young-kept now _
        (mark-IsYoung now ids stored (inserts-IsYoung db node_id now events db.events h)) in
    let same : insert_events once node_id later events once.events ≡ (once.events, 0) =
      inserts_nothing once node_id later events once.events (
        is_new-other db once stored once.events events (λ id. refl)
          (λ id. rw kept (mark-event ids id stored))
          (inserts_store db node_id now events db.events)) in
    let quiet : keep (waits ids) once.events ≡ [] = rw kept (none_waits ids stored) in
    rw (same, quiet) (refl, refl)
