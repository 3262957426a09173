-- ===== src/Common/Outcome.antt =====
-- What a call of the program comes to: it returns, it waits for ever for a lock that its own thread
-- holds, or it fails: it reads through a null pointer or behind the end of a list, goes on with an
-- iterator that is not valid any more, or throws.
pub data Outcome {ℓ} (A : Type ℓ) : Type ℓ where
  done : A → Outcome A
  deadlock fault : Outcome A

infixl 5 ◌>>=◌ ◌>>◌
abbrev pub ◌>>=◌ {ℓ κ} : {A : Type ℓ} {B : Type κ} → Outcome A → (A → Outcome B) → Outcome B
done a >>= f = f a
deadlock >>= f = deadlock
fault >>= f = fault

abbrev ◌>>◌ {ℓ κ} : {A : Type ℓ} {B : Type κ} → Outcome A → Outcome B → Outcome B
m >> k = m >>= λ _. k
