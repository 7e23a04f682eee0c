-- ===== src/Outcome.antt =====
-- Rust's `Result`: a value or an error, with `?` as bind.
use commit_ci_preflight.Prelude.{◌⊎◌, inl, inr, Bool, true, false, ◌≡◌, refl, Option, none, some}

pub data Outcome {ℓ κ} (E : Type ℓ) (A : Type κ) : Type (ℓ ⊔ κ) where
  ok : A → Outcome E A
  err : E → Outcome E A

infixl 5 ◌>>=◌ ◌>>◌
abbrev pub ◌>>=◌ {ℓ κ μ} :
    {E : Type ℓ} {A : Type κ} {B : Type μ} → Outcome E A → (A → Outcome E B) → Outcome E B
err e >>= f = err e
ok a >>= f = f a

abbrev pub ◌>>◌ {ℓ μ} : {E : Type ℓ} {B : Type μ} → Outcome E (Unit {0}) → Outcome E B → Outcome E B
m >> k = m >>= λ _. k

-- `if bad { return Err(e) }`.
abbrev pub reject {ℓ} : {E : Type ℓ} → Bool → E → Outcome E (Unit {0})
reject true e = err e
reject false e = ok tt

-- `option.ok_or(e)?`.
abbrev pub ok_or {ℓ κ} : {E : Type ℓ} {A : Type κ} → Option A → E → Outcome E A
ok_or none e = err e
ok_or (some a) e = ok a

abbrev pub map_err {ℓ κ μ} :
    {E : Type ℓ} {F : Type κ} {A : Type μ} → (E → F) → Outcome E A → Outcome F A
map_err f (ok a) = ok a
map_err f (err e) = err (f e)

-- The parts of a chain that succeeded.
pub >>=-eq-ok {ℓ κ μ} :
    {E : Type ℓ} {A : Type κ} {B : Type μ} (first : Outcome E A) (next : A → Outcome E B) {out : B}
    → (first >>= next) ≡ ok out
    → (a : A) × (first ≡ ok a) × (next a ≡ ok out)
>>=-eq-ok (err failure) next chain = cc
>>=-eq-ok (ok a) next chain = (a, refl, chain)

pub >>-eq-ok {ℓ μ} :
    {E : Type ℓ} {B : Type μ} (test : Outcome E (Unit {0})) (rest : Outcome E B) {out : B}
    → (test >> rest) ≡ ok out
    → (test ≡ ok tt) × (rest ≡ ok out)
>>-eq-ok (err failure) rest chain = cc
>>-eq-ok (ok tt) rest chain = (refl, chain)

pub reject-eq-ok {ℓ} : {E : Type ℓ} (b : Bool) (e : E) → reject b e ≡ ok tt → b ≡ false
reject-eq-ok true e h = cc
reject-eq-ok false e h = refl

pub reject->>-eq-ok {ℓ μ} :
    {E : Type ℓ} {B : Type μ} (bad : Bool) (e : E) (k : Outcome E B) {b : B}
    → (reject bad e >> k) ≡ ok b
    → (bad ≡ false) × (k ≡ ok b)
reject->>-eq-ok true e k h = cc
reject->>-eq-ok false e k h = (refl, h)

pub ok_or-eq-ok {ℓ κ} :
    {E : Type ℓ} {A : Type κ} (o : Option A) (e : E) {a : A} → ok_or o e ≡ ok a → o ≡ some a
ok_or-eq-ok none e h = cc
ok_or-eq-ok (some x) e h = cc

pub map_err-eq-ok {ℓ κ μ} :
    {E : Type ℓ} {F : Type κ} {A : Type μ} (f : E → F) (m : Outcome E A) {a : A}
    → map_err f m ≡ ok a
    → m ≡ ok a
map_err-eq-ok f (ok x) h = cc
map_err-eq-ok f (err e) h = cc

pub Outcome-cases {ℓ κ} :
    {E : Type ℓ} {A : Type κ} (m : Outcome E A) → ((a : A) × (m ≡ ok a)) ⊎ ((e : E) × (m ≡ err e))
Outcome-cases (ok a) = inl (a, refl)
Outcome-cases (err e) = inr (e, refl)

pub ok_inj {ℓ κ} : {E : Type ℓ} {A : Type κ} {a b : A} → ◌≡◌ {A = Outcome E A} (ok a) (ok b) → a ≡ b
ok_inj h = cc

pub some_inj {ℓ} : {A : Type ℓ} {a b : A} → ◌≡◌ {A = Option A} (some a) (some b) → a ≡ b
some_inj h = cc

pub ruleset outcome_rules = (ok_or-eq-ok, map_err-eq-ok)
