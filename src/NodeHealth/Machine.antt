-- ===== src/NodeHealth/Machine.antt =====
-- The rules by which probes change the health of a node, over whole histories of probes.
use opus8_cf.Base.{
  ℕ, ◌+◌, ◌≤◌, ◌≡◌, refl, ◌⊎◌, inl, Bool, true, false, List, [], ◌∷◌, arith, leb, if◌then◌else◌,
}
use opus8_cf.Nodes.{Health, healthy, degraded, banned, unknown}
use opus8_cf.NodeHealth.Report.{Probe}
use opus8_cf.NodeHealth.State.{Standing, judge}

abbrev pub next : Standing → Probe → Standing
next s p = (judge s p).0

-- Three direct failures in a row take any node out of service.
pub three_failures-banned :
    (s : Standing) (p q r : Probe)
    → p.direct_ok ≡ false
    → q.direct_ok ≡ false
    → r.direct_ok ≡ false
    → (next (next (next s p) q) r).health ≡ banned
unfolding judge
three_failures-banned s p q r hp hq hr = rw (hp, hq, hr) (ground arith)

-- Two probes in a row that reach the node and its landing make any node healthy.
pub two_successes-healthy :
    (s : Standing) (p q : Probe)
    → p.direct_ok ≡ true
    → q.direct_ok ≡ true
    → q.landing_ok ≡ true
    → (next (next s p) q).health ≡ healthy
unfolding judge
two_successes-healthy s p q hp hq hl = ground arith

-- A node that was taken out and has had no direct success since stays out over the first direct
-- success. If the next probe fails, it is degraded and no longer banned.
pub failure_lifts_ban :
    (s : Standing) (p q : Probe)
    → s.health ≡ banned
    → s.successes ≡ 0
    → p.direct_ok ≡ true
    → q.direct_ok ≡ false
    → ((next s p).health ≡ banned) × ((next (next s p) q).health ≡ degraded)
unfolding judge
failure_lifts_ban s p q b z hp hq = ground arith

-- A node that no probe has reached yet.
abbrev pub fresh : Standing
fresh = record { health = unknown; failures = 0; successes = 0 }

-- The standing after a history of probes, the latest first.
abbrev pub replay : List Probe → Standing
replay [] = fresh
replay (p ∷ ps) = next (replay ps) p

-- How many of the latest probes in a row have failed, or have reached the node.
abbrev pub failing : List Probe → ℕ
failing [] = 0
failing (p ∷ ps) = if p.direct_ok then 0 else failing ps + 1

abbrev pub reaching : List Probe → ℕ
reaching [] = 0
reaching (p ∷ ps) = if p.direct_ok then reaching ps + 1 else 0

-- The latest three probes have failed, or the latest has reached the node for the first time after
-- three that failed.
abbrev pub is_out : List Probe → Bool
is_out [] = false
is_out (p ∷ ps) = if p.direct_ok then leb 3 (failing ps) else leb 3 (failing (p ∷ ps))

replay-counters :
    (ps : List Probe) → ((replay ps).failures ≡ failing ps) × ((replay ps).successes ≡ reaching ps)
unfolding judge
replay-counters [] = (refl, refl)
replay-counters (p ∷ ps) = ground (arith, replay-counters ps)

-- A health that is not banned but belongs to a probe that reached the node.
not_both : (ps : List Probe) → failing ps ≡ 0 ⊎ reaching ps ≡ 0
not_both [] = inl refl
not_both (p ∷ ps) = ground arith

out_cases : (ps : List Probe) → is_out ps ≡ true → (3 ≤ failing ps) ⊎ (reaching ps ≡ 1)
out_cases [] h = cc
out_cases (p ∷ ps) h = ground (arith, not_both ps)

-- Whether the node is banned, as a test.
abbrev pub is_banned : Health → Bool
is_banned banned = true
is_banned _ = false

step-is_out :
    (s : Standing) (p : Probe) (ps : List Probe)
    → s.failures ≡ failing ps
    → s.successes ≡ reaching ps
    → is_banned s.health ≡ is_out ps
    → is_banned (next s p).health ≡ is_out (p ∷ ps)
unfolding judge
step-is_out s p ps f r b = ground (arith, not_both ps, out_cases ps)

-- After any history of probes, a node that began unknown is banned exactly if its latest three
-- probes have failed, or if they had when the latest one reached it.
pub replay-is_out : (ps : List Probe) → is_banned (replay ps).health ≡ is_out ps
replay-is_out [] = refl
replay-is_out (p ∷ ps) =
    let (f, r) = replay-counters ps in step-is_out (replay ps) p ps f r (replay-is_out ps)
