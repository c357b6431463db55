-- ===== src/LandingKeys/Batches.antt =====
-- The batches of packages/control-plane/src/landing-key-rotation.ts.
use opus8_cf.Base.{
  ℕ, zero, suc, ◌+◌, ◌≤◌, ◌≡◌, refl, sym, ap, ◌∙◌, arith, List, [], ◌∷◌, ◌++◌, ltb, length, take,
  drop, take-append-drop, drop-drop, drop-all, Bool-cases, inl, inr,
}
use opus8_cf.LandingKeys.{LandingRow, Reseal, run_reseal, run_reseals, run_batches, batch_size}

run_reseals-append :
    (ss ss' : List Reseal) (rows : List LandingRow)
    → run_reseals (ss ++ ss') rows ≡ run_reseals ss' (run_reseals ss rows)
unfolding run_reseals
run_reseals-append [] ss' rows = refl
run_reseals-append (s ∷ ss) ss' rows = run_reseals-append ss ss' (run_reseal s rows)

-- With as many rounds as there are statements left, the loop over the batches of 50 ends with the
-- rows that all statements from the offset on give, in their order.
pub batches-all :
    (fuel offset : ℕ) (statements : List Reseal) (rows : List LandingRow)
    → length statements ≤ offset + fuel
    → run_batches fuel offset statements rows ≡ run_reseals (drop offset statements) rows
unfolding run_batches run_reseals
batches-all zero offset statements rows h = rw (drop-all offset statements (omega (arith, h))) refl
batches-all (suc fuel) offset statements rows h =
    elim (Bool-cases (ltb offset (length statements))) [
      | inr done ↦ rw (done, drop-all offset statements (ground arith)) refl
      | inl more ↦ rw (more) (
          batches-all fuel (offset + batch_size) statements
            (run_reseals (take batch_size (drop offset statements)) rows) (omega (arith, h))
          ∙ (ap (λ ss. run_reseals ss (run_reseals (take batch_size (drop offset statements)) rows))
                (sym (drop-drop offset batch_size statements))
              ∙ (sym (
                    run_reseals-append (take batch_size (drop offset statements))
                      (drop batch_size (drop offset statements)) rows)
                  ∙ ap (λ ss. run_reseals ss rows)
                      (take-append-drop batch_size (drop offset statements)))))
    ]
