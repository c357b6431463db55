-- ===== src/Maintenance/Replay.antt =====
-- The request ids of packages/control-plane/src/automation-auth.ts, with the clean-up of
-- packages/control-plane/src/data-maintenance.ts between the requests.
use opus8_cf.Base.{
  ℕ, ◌+◌, ◌≤◌, ◌≡◌, refl, arith, Bool, true, false, ◌&&◌, not, List, [], ◌∷◌, some, leb, any, keep,
  Text, text_eq_refl, delete_where,
}
use opus8_cf.SignedRequests.{
  Crypto, SignedRequest, AutomationEnv, Authenticated, Nonce, nonce_of, signature_window_ms,
  new_nonce, insert_nonce, verify_automation_request,
}
use opus8_cf.SignedRequests.Laws.{verify_automation-IsTrusted}
use opus8_cf.Maintenance.{nonce_over}

-- A claim or a clean-up, with the times at which the state before and after it stands.
pub data Step (nonces : List Nonce) (t : ℕ) : List Nonce → ℕ → Type 0 where
  claim : (a : Authenticated) (now : ℕ) → t ≤ now → Step nonces t (insert_nonce a now nonces).0 now
  clean_up : (now : ℕ) → t ≤ now → Step nonces t (delete_where (nonce_over now) nonces) now

pub data Later (nonces : List Nonce) (t : ℕ) : List Nonce → ℕ → Type 0 where
  here : Later nonces t nonces t
  next :
      {ns ns' : List Nonce} {u u' : ℕ}
      → Later nonces t ns u
      → Step ns u ns' u'
      → Later nonces t ns' u'

-- The request id is kept at least until the given time.
abbrev kept_until : Text → ℕ → Nonce → Bool
kept_until id end n = nonce_of id n && leb end n.expires_at

any-keep :
    (p s : Nonce → Bool) (ns : List Nonce)
    → ((n : Nonce) → p n ≡ true → s n ≡ true)
    → any p ns ≡ true
    → any p (keep s ns) ≡ true
any-keep p s [] h e = cc
any-keep p s (n ∷ ns) h e = ground (arith, h n, any-keep p s ns h)

Step-kept :
    (id : Text) (end : ℕ) {ns ns' : List Nonce} {t t' : ℕ}
    → Step ns t ns' t'
    → t' ≤ end
    → any (kept_until id end) ns ≡ true
    → any (kept_until id end) ns' ≡ true
unfolding insert_nonce
Step-kept id end {ns} (claim a now le) h e = ground arith
Step-kept id end {ns} (clean_up now le) h e =
    any-keep (kept_until id end) (λ n. not (nonce_over now n)) ns (λ n k. ground arith) e

Step-clock : {ns ns' : List Nonce} {t t' : ℕ} → Step ns t ns' t' → t ≤ t'
Step-clock (claim a now le) = le
Step-clock (clean_up now le) = le

Later-kept :
    (id : Text) (end : ℕ) {ns : List Nonce} {t : ℕ} {ns' : List Nonce} {t' : ℕ}
    → Later ns t ns' t'
    → t' ≤ end
    → any (kept_until id end) ns ≡ true
    → any (kept_until id end) ns' ≡ true
Later-kept id end here h e = e
Later-kept id end (next l s) h e =
    Step-kept id end s h (Later-kept id end l (omega (arith, Step-clock s, h)) e)

inserted-kept :
    (a : Authenticated) (now : ℕ) (ns : List Nonce)
    → (insert_nonce a now ns).1 ≡ true
    → any (kept_until a.request_id (a.timestamp + signature_window_ms)) (insert_nonce a now ns).0
      ≡ true
unfolding insert_nonce new_nonce
inserted-kept a now ns h = ground (arith, text_eq_refl a.request_id)

kept-any :
    (id : Text) (end : ℕ) (ns : List Nonce)
    → any (kept_until id end) ns ≡ true
    → any (nonce_of id) ns ≡ true
kept-any id end [] h = cc
kept-any id end (n ∷ ns) h = ground (arith, kept-any id end ns)

-- Once the id of an accepted request is claimed, no later claim of that request succeeds while it is
-- accepted at all, whatever claims and clean-ups stand between them: at each time at which
-- verifyAutomationRequest takes it with that id and time, its id is refused.
pub replay_refused :
    (crypto : Crypto) (r : SignedRequest) (env : AutomationEnv) (body : Text) (a : Authenticated)
    (t : ℕ) (ns ns' : List Nonce) (t' now : ℕ)
    → (insert_nonce a t ns).1 ≡ true
    → Later (insert_nonce a t ns).0 t ns' t'
    → t' ≤ now
    → verify_automation_request crypto r env body now ≡ some a
    → (insert_nonce a now ns').1 ≡ false
unfolding insert_nonce
replay_refused crypto r env body a t ns ns' t' now claimed l le verified =
    let window = (verify_automation-IsTrusted crypto r env body now a verified).not_old in
    let end = a.timestamp + signature_window_ms in
    let row =
      kept-any a.request_id end ns' (
        Later-kept a.request_id end l (omega (arith, le, window)) (inserted-kept a t ns claimed)) in
    rw row refl
