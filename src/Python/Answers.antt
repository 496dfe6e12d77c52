-- ===== src/Python/Answers.antt =====
-- Calls with no loop in them, chained: the first exception ends the chain.
use llmbus.Shared.{◌≡◌, refl, Bool, true, false}
use llmbus.Python.Exc.{Exc, Ended, answered, failed}

infixl 5 ◌>>=◌ ◌>>◌
abbrev pub ◌>>=◌ {ℓ κ} : {A : Type ℓ} {B : Type κ} → Ended A → (A → Ended B) → Ended B
answered a >>= f = f a
failed e >>= f = failed e

abbrev pub ◌>>◌ {ℓ} : {B : Type ℓ} → Ended (Unit {0}) → Ended B → Ended B
m >> k = m >>= λ _. k

-- `if test: raise exc`
abbrev pub fail_if : Bool → Exc → Ended (Unit {0})
fail_if true e = failed e
fail_if false e = answered tt

pub bind-answered {ℓ κ} :
    {A : Type ℓ} {B : Type κ} (m : Ended A) (f : A → Ended B) {b : B}
    → (m >>= f) ≡ answered b
    → (a : A) × (m ≡ answered a) × (f a ≡ answered b)
bind-answered (answered a) f h = (a, refl, h)
bind-answered (failed e) f h = cc

pub fail_if-answered {ℓ} :
    {A : Type ℓ} (b : Bool) (e : Exc) (m : Ended A) {a : A}
    → (fail_if b e >> m) ≡ answered a
    → (b ≡ false) × (m ≡ answered a)
fail_if-answered true e m h = cc
fail_if-answered false e m h = (refl, h)
