-- ===== src/Terminal.antt =====
-- `finalize_owned_terminal` of src/terminal.rs. Each closure may change what it captures, so it is a
-- function on a state `S`.
pub mod Laws
use commit_ci_preflight.Outcome.{Outcome, ok, err, map_err}

pub data TerminalFailure {ℓ κ} (P : Type ℓ) (R : Type κ) : Type (ℓ ⊔ κ) where
  primary : P → TerminalFailure P R
  release : R → TerminalFailure P R

module _ {ℓ κ μ} {T : Type ℓ} {P : Type κ} {R : Type μ} where
  -- The `match release()`.
  abbrev pub conclude : Outcome P T → Outcome R (Unit {0}) → Outcome (TerminalFailure P R) T
  conclude completed (ok u) = map_err primary completed
  conclude completed (err error) = err (release error)

module _ {ℓ κ μ σ} {T : Type ℓ} {P : Type κ} {R : Type μ} {S : Type σ} where
  unfoldable pub finalize_owned_terminal :
      Outcome P T
      → (complete_owned : Outcome P T → S → Outcome P T × S)
      → (release_owned : S → Outcome R (Unit {0}) × S) → S
      → Outcome (TerminalFailure P R) T × S
  finalize_owned_terminal result complete_owned release_owned s =
      let (completed, s1) = complete_owned result s in
      let (released, s2) = release_owned s1 in (conclude completed released, s2)
