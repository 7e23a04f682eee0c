-- ===== src/Terminal/Laws.antt =====
-- `finalize_owned_terminal` of src/terminal.rs completes, then releases, whatever the results are.
use commit_ci_preflight.Prelude.{◌≡◌, refl, ◌↔◌, ap}
use commit_ci_preflight.Outcome.{Outcome, ok, err, ok_inj}
use commit_ci_preflight.Terminal.{conclude, finalize_owned_terminal}

module _ {ℓ κ μ} {T : Type ℓ} {P : Type κ} {R : Type μ} where
  conclude-ok_iff :
      (completed : Outcome P T) (released : Outcome R (Unit {0})) (t : T)
      → (conclude completed released ≡ ok t) ↔ ((completed ≡ ok t) × (released ≡ ok tt))
  conclude-ok_iff (ok a) (ok u) t = ((λ h. (ap ok (ok_inj h), refl)), λ (h, _). ap ok (ok_inj h))
  conclude-ok_iff (err e) (ok u) t = ((λ h. cc), λ (h, _). cc)
  conclude-ok_iff completed (err e) t = ((λ h. cc), λ (_, h). cc)

module _ {ℓ κ μ σ} {T : Type ℓ} {P : Type κ} {R : Type μ} {S : Type σ} where
  -- The release always runs, on the state that the completion leaves, and the terminal succeeds
  -- exactly when both the completed result and the release do.
  pub finalize_owned_terminal_lem :
      (result : Outcome P T) (complete_owned : Outcome P T → S → Outcome P T × S)
      (release_owned : S → Outcome R (Unit {0}) × S) (s : S) (t : T)
      → ((finalize_owned_terminal result complete_owned release_owned s).1
          ≡ (release_owned (complete_owned result s).1).1)
        × (((finalize_owned_terminal result complete_owned release_owned s).0 ≡ ok t) ↔ (
            ((complete_owned result s).0 ≡ ok t)
            × ((release_owned (complete_owned result s).1).0 ≡ ok tt)))
  unfolding finalize_owned_terminal
  finalize_owned_terminal_lem result complete_owned release_owned s t = (
    refl,
    conclude-ok_iff (complete_owned result s).0 (release_owned (complete_owned result s).1).0 t,
  )
