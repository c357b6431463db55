-- ===== src/Routing/Locked.antt =====
-- While provisioning is locked, the requests of packages/control-plane/src/index.ts only narrow the
-- unlocked hosts.
use opus8_cf.Base.{
  ℕ, ◌≡◌, ◌∙◌, whole, refl, ap, sym, subst, arith, Bool, true, false, not, ◌&&◌, List, [], ◌∷◌,
  Option, Text, Result, ok, err, guard, ◌>>◌, ok_injective,
}
use opus8_cf.Maintenance.{RuntimeRow}
use opus8_cf.Compliance.{proxy_provisioning_allowed, domain_scope_increases}
use opus8_cf.Compliance.Scope.{serves, no_increase-serves}
use opus8_cf.Routing.{
  custom, stored_hosts, is_empty, KvEntry, StoredCodec, UnlockHostsConfig, validate_unlock_hosts,
  default_hosts, get_unlock_hosts, put_unlock_hosts, reset_unlock_hosts,
}
use opus8_cf.Routing.Stored.{IsCodec, put-get}
use opus8_cf.Routing.Requests.{
  HostsEnv, HostsState, HostsError, unauthorized, expansion_locked, invalid_domains, HostsRequest,
  put_hosts, reset_hosts, Answer, publish_hosts, current_hosts, handle_put, handle_reset,
  handle_hosts, state_after, run_requests,
}

put-answer :
    (codec : StoredCodec) (hosts : List Text) (now : ℕ)
    → (put_unlock_hosts codec hosts now).1
      ≡ record { hosts = hosts; updated_at = whole now; source = custom }
unfolding put_unlock_hosts
put-answer codec hosts now = refl

reset_default :
    (codec : StoredCodec) (configured : Option Text)
    → (get_unlock_hosts codec configured (reset_unlock_hosts codec configured).0).hosts
      ≡ default_hosts configured
unfolding get_unlock_hosts reset_unlock_hosts stored_hosts
reset_default codec configured = refl

narrowed :
    (allowed : Bool) (current requested : List Text)
    → allowed ≡ false
    → not (not allowed && domain_scope_increases current requested false) ≡ true
    → domain_scope_increases current requested false ≡ false
narrowed allowed current requested h k = ground arith

-- The hosts after a request that was accepted.
IsNarrower : HostsEnv → HostsState → HostsState → Type 0
IsNarrower env before after =
    (host : Text)
    → serves false (current_hosts env after) host ≡ true
    → serves false (current_hosts env before) host ≡ true

two_guards :
    (t u : Bool) (e f : HostsError) (v a : Answer)
    → (guard t e >> (guard u f >> ok v)) ≡ ok a
    → (u ≡ true) × (v ≡ a)
two_guards true true e f v a h = (refl, ok_injective h)
two_guards true false e f v a h = absurd cc
two_guards false u e f v a h = absurd cc

published-kv :
    (env : HostsEnv) (rows : List RuntimeRow) (now : ℕ) (p : KvEntry × UnlockHostsConfig)
    → (publish_hosts env rows now p).0.kv ≡ p.0
unfolding publish_hosts
published-kv env rows now (kv, routing) = refl

-- The shared end of both requests: the gate has compared the hosts that are found afterwards.
gated :
    (env : HostsEnv) (s : HostsState) (admin : Bool) (now : ℕ) (p : KvEntry × UnlockHostsConfig)
    (requested : List Text) (a : Answer)
    → proxy_provisioning_allowed env.compliance ≡ false
    → (get_unlock_hosts env.codec env.default_unlock_hosts p.0).hosts ≡ requested
    → (guard admin unauthorized
        >> (guard
              (not (
                not (proxy_provisioning_allowed env.compliance)
                && domain_scope_increases (current_hosts env s) requested false))
              expansion_locked
            >> ok (publish_hosts env s.rows now p)))
      ≡ ok a
    → IsNarrower env s a.0
unfolding IsNarrower
gated env s admin now p requested a locked found h host k =
    let gate =
      two_guards admin
        (not (
          not (proxy_provisioning_allowed env.compliance)
          && domain_scope_increases (current_hosts env s) requested false))
        unauthorized expansion_locked (publish_hosts env s.rows now p) a h in
    let kv : a.0.kv ≡ p.0 = ap (λ z. z.0.kv) (sym gate.1) ∙ published-kv env s.rows now p in
    let hosts : current_hosts env a.0 ≡ requested =
      ap (λ z. (get_unlock_hosts env.codec env.default_unlock_hosts z).hosts) kv ∙ found in
    no_increase-serves (current_hosts env s) requested false host
      (narrowed (proxy_provisioning_allowed env.compliance) (current_hosts env s) requested locked
        gate.0)
      (subst (λ z. serves false z host ≡ true) hosts k)

skip_guard :
    (t u : Bool) (e f : HostsError) (k : Result HostsError Answer) (a : Answer)
    → (guard t e >> (guard u f >> k)) ≡ ok a
    → (guard t e >> k) ≡ ok a
skip_guard true true e f k a h = h
skip_guard true false e f k a h = absurd cc
skip_guard false u e f k a h = h

handle-IsNarrower :
    (env : HostsEnv) (s : HostsState) (admin : Bool) (request : HostsRequest) (now : ℕ) (a : Answer)
    → IsCodec env.codec
    → proxy_provisioning_allowed env.compliance ≡ false
    → handle_hosts env s admin request now ≡ ok a
    → IsNarrower env s a.0
unfolding handle_hosts handle_put handle_reset reset_unlock_hosts
handle-IsNarrower env s admin (put_hosts hosts) now a codec locked h =
    let requested = (validate_unlock_hosts hosts).hosts in
    gated env s admin now (put_unlock_hosts env.codec requested now) requested a locked
      (ap (λ z. z.hosts)
        (put-get env.codec env.default_unlock_hosts hosts now codec
          ∙ put-answer env.codec requested now))
      (skip_guard admin (is_empty (validate_unlock_hosts hosts).invalid_hosts) unauthorized
        (invalid_domains (validate_unlock_hosts hosts).invalid_hosts) _ a h)
handle-IsNarrower env s admin reset_hosts now a codec locked h =
    gated env s admin now (reset_unlock_hosts env.codec env.default_unlock_hosts)
      (default_hosts env.default_unlock_hosts) a locked
      (reset_default env.codec env.default_unlock_hosts) h

after-IsNarrower :
    (env : HostsEnv) (s : HostsState) (r : Result HostsError Answer)
    → ((a : Answer) → r ≡ ok a → IsNarrower env s a.0)
    → IsNarrower env s (state_after s r)
unfolding IsNarrower
after-IsNarrower env s (ok a) h = h a refl
after-IsNarrower env s (err e) h = λ host k. k

-- While the provisioning of proxies is not allowed, no sequence of requests makes the unlocked hosts
-- serve a host that they did not serve before it. JSON gives back what it is given.
pub locked-never_wider :
    (env : HostsEnv) (requests : List (Bool × HostsRequest × ℕ)) (s : HostsState) (host : Text)
    → IsCodec env.codec
    → proxy_provisioning_allowed env.compliance ≡ false
    → serves false (current_hosts env (run_requests env s requests)) host ≡ true
    → serves false (current_hosts env s) host ≡ true
unfolding run_requests IsNarrower
locked-never_wider env [] s host codec locked k = k
locked-never_wider env ((admin, request, now) ∷ rest) s host codec locked k =
    after-IsNarrower env s (handle_hosts env s admin request now)
      (λ a h. handle-IsNarrower env s admin request now a codec locked h) host
      (locked-never_wider env rest (state_after s (handle_hosts env s admin request now)) host codec
        locked k)
