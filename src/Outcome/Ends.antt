-- ===== src/Outcome/Ends.antt =====
-- Outcomes other than `stuck`.
use openforensicfileformat.Prelude.{◌≢◌, Bool, true, false, if◌then◌else◌}
use openforensicfileformat.Outcome.{
  Error, Result, ok, err, panic, stuck, ◌>>=◌, ◌>>◌, ensure, bind_state,
}

abbrev pub Ends {ℓ} : {A : Type ℓ} → Result A → Type 0
Ends (ok a) = Unit {0}
Ends (err e) = Unit {0}
Ends panic = Unit {0}
Ends stuck = ⊥

pub Ends-ne_stuck {ℓ} : {A : Type ℓ} (r : Result A) → Ends r → r ≢ stuck
Ends-ne_stuck (ok a) h = λ e. cc
Ends-ne_stuck (err x) h = λ e. cc
Ends-ne_stuck panic h = λ e. cc
Ends-ne_stuck stuck h = absurd h

pub >>=-Ends {ℓ κ} :
    {A : Type ℓ} {B : Type κ} (m : Result A) (f : A → Result B)
    → Ends m
    → ((a : A) → Ends (f a))
    → Ends (m >>= f)
>>=-Ends (ok a) f h k = k a
>>=-Ends (err e) f h k = tt
>>=-Ends panic f h k = tt
>>=-Ends stuck f h k = h

pub ensure-Ends : (b : Bool) (e : Error) → Ends (ensure b e)
ensure-Ends true e = tt
ensure-Ends false e = tt

pub ensure_first-Ends {ℓ} :
    {B : Type ℓ} (b : Bool) (e : Error) (k : Result B) → Ends k → Ends (ensure b e >> k)
ensure_first-Ends true e k h = h
ensure_first-Ends false e k h = tt

pub if-Ends {ℓ} :
    {A : Type ℓ} (b : Bool) (x y : Result A) → Ends x → Ends y → Ends (if b then x else y)
if-Ends true x y h k = h
if-Ends false x y h k = k

pub bind_state-Ends {ℓ κ μ} :
    {A : Type ℓ} {B : Type κ} {S : Type μ} (m : Result A × S) (f : A → S → Result B × S)
    → Ends m.0
    → ((a : A) (s : S) → Ends (f a s).0)
    → Ends (bind_state m f).0
bind_state-Ends (ok a, s) f h k = k a s
bind_state-Ends (err e, s) f h k = tt
bind_state-Ends (panic, s) f h k = tt
bind_state-Ends (stuck, s) f h k = h
