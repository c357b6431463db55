-- ===== src/Metering/Intake.antt =====
-- The whole of `recordUsage` of packages/control-plane/src/usage.ts: the checks of the events and the
-- owners of their credentials, before the batch.
use opus8_cf.Base.{
  ℕ, suc, ap, subst, ◌≤◌, ◌≡◌, refl, arith, Bool, true, ◌&&◌, List, [], ◌∷◌, Option, none, some,
  leb, if◌then◌else◌, length, All, Text, lower, Number, whole, Value, Result, ok, guard, or_throw,
  ◌>>=◌, ◌>>◌, >>=-eq-ok, >>-eq-ok, or_throw-eq-ok, ok_injective,
}
use opus8_cf.Enrollment.Fields.{Runtime, to_number}
use opus8_cf.Enrollment.Create.{max_safe_integer}
use opus8_cf.Nodes.{Node}
use opus8_cf.Users.Tables.{Device}
use opus8_cf.Admission.Owner.{
  Directory, resolve_owner, token_pattern, valid_token, valid_user_id, known_owner, UsageError,
  invalid_payload, invalid_event, usage_unauthorized,
}
use opus8_cf.Admission.Authorized.{IsOwner, resolve-IsOwner}
use opus8_cf.Metering.{UsageEvent, MeterDb, record_usage}

abbrev pub max_event_bytes : ℕ
max_event_bytes = 1073741824

-- An entry of the body's `events`.
pub record RawEvent : Type 0 where
  pub id : Value
  pub user_id : Value
  pub uuid : Value
  pub connections : Value
  pub bytes_up : Value
  pub bytes_down : Value
  pub ts_bucket : Value

-- `UsageEventInput` after the checks.
pub record CheckedEvent : Type 0 where
  pub id : Text
  pub user_id : Option Text
  pub uuid : Text
  pub connections : ℕ
  pub bytes_up : ℕ
  pub bytes_down : ℕ
  pub ts_bucket : ℕ

bounded_whole : Number → ℕ → Option ℕ
bounded_whole (whole n) max = if leb n max_safe_integer && leb n max then some n else none
bounded_whole _ max = none

-- `boundedInt`.
unfoldable pub bounded_int : Runtime → Value → ℕ → Option ℕ
unfolding bounded_whole
bounded_int rt v max = bounded_whole (to_number rt v) max

unfoldable pub check_event : Runtime → RawEvent → Result UsageError CheckedEvent
unfolding bounded_int
check_event rt raw = do
  connections ← or_throw (bounded_int rt raw.connections 1) invalid_event
  bytes_up ← or_throw (bounded_int rt raw.bytes_up max_event_bytes) invalid_event
  bytes_down ← or_throw (bounded_int rt raw.bytes_down max_event_bytes) invalid_event
  ts_bucket ← or_throw (bounded_int rt raw.ts_bucket max_safe_integer) invalid_event
  id ← or_throw (valid_token 128 raw.id) invalid_event
  user_id ← or_throw (valid_user_id raw.user_id) invalid_event
  uuid ← or_throw (valid_token 64 raw.uuid) invalid_event
  ok (record {
    id = id;
    user_id = user_id;
    uuid = lower uuid;
    connections = connections;
    bytes_up = bytes_up;
    bytes_down = bytes_down;
    ts_bucket = ts_bucket;
  })

unfoldable pub check_events : Runtime → List RawEvent → Result UsageError (List CheckedEvent)
unfolding check_event
check_events rt [] = ok []
check_events rt (raw ∷ raws) = do e ← check_event rt raw; es ← check_events rt raws; ok (e ∷ es)

abbrev owned_event : CheckedEvent → Text → UsageEvent
owned_event e owner = record {
  id = e.id;
  user_id = owner;
  connections = e.connections;
  bytes_up = e.bytes_up;
  bytes_down = e.bytes_down;
  ts_bucket = e.ts_bucket;
}

-- The loop over the events that finds their owners.
unfoldable pub own_events :
    Runtime → Text → Directory → Text → ℕ → List CheckedEvent → Result UsageError (List UsageEvent)
unfolding known_owner
own_events rt secret dir node_id now [] = ok []
own_events rt secret dir node_id now (e ∷ es) = do
  owner ← known_owner (resolve_owner rt secret dir node_id e.user_id e.uuid now) usage_unauthorized
  rest ← own_events rt secret dir node_id now es
  ok (owned_event e owner ∷ rest)

-- `recordUsage`: the events are none where the body's entry is no array.
unfoldable pub record_usage_report :
    Runtime
    → Text
    → List Node
    → List Device
    → MeterDb
    → Text
    → Option (List RawEvent)
    → ℕ
    → Result UsageError (MeterDb × ℕ)
unfolding check_events own_events
record_usage_report rt secret nodes devices db node_id raw_events now = do
  raws ← or_throw raw_events invalid_payload
  guard (token_pattern 80 node_id && leb (length raws) 20) invalid_payload
  checked ← check_events rt raws
  events ←
      own_events rt secret (record { nodes = nodes; users = db.users; devices = devices }) node_id
        now checked
  ok (record_usage db node_id events now)

-- What an event that is stored shows of its size and of its owner.
pub record IsBilled (rt : Runtime) (secret : Text) (dir : Directory) (node_id : Text) (now : ℕ)
    (e : UsageEvent) : Type 0 where
  pub uuid : Text
  pub owner : IsOwner rt secret dir node_id uuid now e.user_id
  pub up : e.bytes_up ≤ max_event_bytes
  pub down : e.bytes_down ≤ max_event_bytes

abbrev IsBounded : CheckedEvent → Type 0
IsBounded e = (e.bytes_up ≤ max_event_bytes) × (e.bytes_down ≤ max_event_bytes)

bounded_int-le : (rt : Runtime) (v : Value) (max n : ℕ) → bounded_int rt v max ≡ some n → n ≤ max
unfolding bounded_int
bounded_int-le rt v max n h = ground arith

few : (t : Bool) (a b c : ℕ) → (t && leb a 20) ≡ true → b ≡ a → c ≡ b → c ≤ 20
few t a b c h k l = ground arith

same_bytes :
    (c u d t : ℕ) (i : Text) (o : Option Text) (x : Text) (e : CheckedEvent)
    → u ≤ max_event_bytes
    → d ≤ max_event_bytes
    → ◌≡◌ {A = Result UsageError CheckedEvent}
        (ok (record {
          id = i;
          user_id = o;
          uuid = x;
          connections = c;
          bytes_up = u;
          bytes_down = d;
          ts_bucket = t;
        }))
        (ok e)
    → IsBounded e
same_bytes c u d t i o x e h k same = subst IsBounded (ok_injective same) (h, k)

check_event-IsBounded :
    (rt : Runtime) (raw : RawEvent) (e : CheckedEvent) → check_event rt raw ≡ ok e → IsBounded e
unfolding check_event
check_event-IsBounded rt raw e h =
    let (c, _, h₁) = >>=-eq-ok (or_throw (bounded_int rt raw.connections 1) invalid_event) _ e h in
    let (u, up, h₂) =
      >>=-eq-ok (or_throw (bounded_int rt raw.bytes_up max_event_bytes) invalid_event) _ e h₁ in
    let (d, down, h₃) =
      >>=-eq-ok (or_throw (bounded_int rt raw.bytes_down max_event_bytes) invalid_event) _ e h₂ in
    let (t, _, h₄) =
      >>=-eq-ok (or_throw (bounded_int rt raw.ts_bucket max_safe_integer) invalid_event) _ e h₃ in
    let (i, _, h₅) = >>=-eq-ok (or_throw (valid_token 128 raw.id) invalid_event) _ e h₄ in
    let (o, _, h₆) = >>=-eq-ok (or_throw (valid_user_id raw.user_id) invalid_event) _ e h₅ in
    let (x, _, h₇) = >>=-eq-ok (or_throw (valid_token 64 raw.uuid) invalid_event) _ e h₆ in
    let le_up = bounded_int-le rt raw.bytes_up max_event_bytes u (or_throw-eq-ok _ _ _ up) in
    let le_down = bounded_int-le rt raw.bytes_down max_event_bytes d (or_throw-eq-ok _ _ _ down) in
    same_bytes c u d t i o (lower x) e le_up le_down h₇

check_events-IsBounded :
    (rt : Runtime) (raws : List RawEvent) (es : List CheckedEvent)
    → check_events rt raws ≡ ok es
    → All IsBounded es × (length es ≡ length raws)
unfolding check_events
check_events-IsBounded rt [] es h = ground arith
check_events-IsBounded rt (raw ∷ raws) es h =
    let (e, he, h₁) = >>=-eq-ok (check_event rt raw) _ es h in
    let (rest, hr, h₂) = >>=-eq-ok (check_events rt raws) _ es h₁ in
    let (bounded, size) = check_events-IsBounded rt raws rest hr in
    let here = check_event-IsBounded rt raw e he in
    subst (λ z. All IsBounded z × (length z ≡ suc (length raws))) (ok_injective h₂)
      ((here, bounded), ap suc size)

known_owner-eq-ok :
    (o : Option Text) (e : UsageError) (id : Text) → known_owner o e ≡ ok id → o ≡ some id
unfolding known_owner
known_owner-eq-ok none e id h = cc
known_owner-eq-ok (some []) e id h = cc
known_owner-eq-ok (some (c ∷ s)) e id h = ground arith

own_events-IsBilled :
    (rt : Runtime) (secret : Text) (dir : Directory) (node_id : Text) (now : ℕ)
    (es : List CheckedEvent) (events : List UsageEvent)
    → All IsBounded es
    → own_events rt secret dir node_id now es ≡ ok events
    → All (IsBilled rt secret dir node_id now) events × (length events ≡ length es)
unfolding own_events
own_events-IsBilled rt secret dir node_id now [] events b h =
    subst (λ z. All (IsBilled rt secret dir node_id now) z × (length z ≡ 0)) (ok_injective h)
      (tt, refl)
own_events-IsBilled rt secret dir node_id now (e ∷ es) events b h =
    let (owner, ho, h₁) =
      >>=-eq-ok
        (known_owner (resolve_owner rt secret dir node_id e.user_id e.uuid now) usage_unauthorized)
        _ events h in
    let (rest, hr, h₂) = >>=-eq-ok (own_events rt secret dir node_id now es) _ events h₁ in
    let (billed, size) = own_events-IsBilled rt secret dir node_id now es rest b.1 hr in
    let here : IsBilled rt secret dir node_id now (owned_event e owner) = record {
      uuid = e.uuid;
      owner =
          resolve-IsOwner rt secret dir node_id e.user_id e.uuid now owner
            (known_owner-eq-ok _ _ owner ho);
      up = b.0.0;
      down = b.0.1;
    } in
    subst (λ z. All (IsBilled rt secret dir node_id now) z × (length z ≡ suc (length es)))
      (ok_injective h₂) ((here, billed), ap suc size)

-- A report that is taken is the batch of at most 20 events, each of at most 1 GiB in either
-- direction, and each billed to a user whose credential is authorized for the node at that time.
pub report-IsBilled :
    (rt : Runtime) (secret : Text) (nodes : List Node) (devices : List Device) (db db' : MeterDb)
    (node_id : Text) (raw_events : Option (List RawEvent)) (now n : ℕ)
    → record_usage_report rt secret nodes devices db node_id raw_events now ≡ ok (db', n)
    → (events : List UsageEvent) × (record_usage db node_id events now ≡ (db', n))
      × (length events ≤ 20)
      × All
          (IsBilled rt secret
            (record { nodes = nodes; users = db.users; devices = devices })
            node_id
            now)
          events
unfolding record_usage_report
report-IsBilled rt secret nodes devices db db' node_id raw_events now n h =
    let dir : Directory = record { nodes = nodes; users = db.users; devices = devices } in
    let (raws, _, h₁) = >>=-eq-ok (or_throw raw_events invalid_payload) _ (db', n) h in
    let (short, h₂) =
      >>-eq-ok (token_pattern 80 node_id && leb (length raws) 20) invalid_payload _ (db', n) h₁ in
    let (checked, hc, h₃) = >>=-eq-ok (check_events rt raws) _ (db', n) h₂ in
    let (events, he, h₄) = >>=-eq-ok (own_events rt secret dir node_id now checked) _ (db', n) h₃ in
    let (bounded, size) = check_events-IsBounded rt raws checked hc in
    let (billed, same) = own_events-IsBilled rt secret dir node_id now checked events bounded he in
    (
      events,
      ok_injective h₄,
      few (token_pattern 80 node_id) (length raws) (length checked) (length events) short size same,
      billed,
    )
