-- ===== src/Common/Logic.antt =====
-- What holds of the value of a run, if it has one.
use mathlib.Core.Bool.{Bool, true, false}
use android_study_rtmp_avcod.Common.Tests.{if◌then◌else◌}
use android_study_rtmp_avcod.Common.Memory.{Fault, Run, done, fault, ◌>>=◌}

-- A run that faults ensures anything.
pub data Ensures {ℓ} {A : Type ℓ} (P : A → Type 0) : Run A → Type ℓ where
  returns : {x : A} → P x → Ensures P (done x)
  faults : {e : Fault} → Ensures P (fault e)

module _ {ℓ} {A : Type ℓ} where
  -- What both branches have.
  pub if_both : (P : A → Type 0) {x y : A} (b : Bool) → P x → P y → P (if b then x else y)
  if_both P true h k = h
  if_both P false h k = k

  pub Ensures-bind {κ} :
      {B : Type κ} {P : A → Type 0} {Q : B → Type 0} {run : Run A} {f : A → Run B}
      → Ensures P run
      → ((x : A) → P x → Ensures Q (f x))
      → Ensures Q (run >>= f)
  Ensures-bind (returns h) k = k _ h
  Ensures-bind faults k = faults

  pub Ensures-if :
      {P : A → Type 0} {x y : Run A} (b : Bool)
      → Ensures P x
      → Ensures P y
      → Ensures P (if b then x else y)
  Ensures-if true h k = h
  Ensures-if false h k = k

  pub Ensures-weaken :
      {P Q : A → Type 0} {run : Run A} → Ensures P run → ((x : A) → P x → Q x) → Ensures Q run
  Ensures-weaken (returns h) k = returns (k _ h)
  Ensures-weaken faults k = faults

  -- Nothing is asked of the value.
  pub Ensures-any : (run : Run A) → Ensures (λ x. Unit {0}) run
  Ensures-any (done x) = returns tt
  Ensures-any (fault e) = faults
