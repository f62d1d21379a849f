-- ===== src/Prelude/Errors.antt =====
-- Go's (value, error) returns: a value or an error.
use mathlib.Core.Path.{◌≡◌, refl}
use mathlib.Core.Logic.{◌≢◌}
use mathlib.Core.Option.{Option, none, some}

pub data Fallible {ℓ} (Error : Type 0) (Value : Type ℓ) : Type ℓ where
  err : Error → Fallible Error Value
  ok : Value → Fallible Error Value

-- `if err != nil { return err }`
infixl 5 ◌>>=◌
abbrev pub ◌>>=◌ {ℓ κ} :
    {Error : Type 0} {Value : Type ℓ} {Next : Type κ}
    → Fallible Error Value
    → (Value → Fallible Error Next)
    → Fallible Error Next
err reason >>= next = err reason
ok value >>= next = next value

-- A chain that ends well has gone through its first call.
pub passed {ℓ κ} :
    {Error : Type 0} {Value : Type ℓ} {Next : Type κ} (call : Fallible Error Value)
    (next : Value → Fallible Error Next) {result : Next}
    → (call >>= next) ≡ ok result
    → (value : Value) × (call ≡ ok value) × (next value ≡ ok result)
passed (err reason) next ended = cc
passed (ok value) next ended = (value, refl, ended)

pub ok-injective {ℓ} :
    {Error : Type 0} {Value : Type ℓ} (v w : Value) {result : Fallible Error Value}
    → result ≡ ok v
    → result ≡ ok w
    → v ≡ w
ok-injective v w one other = cc

pub err-ne-ok {ℓ} :
    {Error : Type 0} {Value : Type ℓ} (reason : Error) (v : Value) {result : Fallible Error Value}
    → result ≡ err reason
    → result ≢ ok v
err-ne-ok reason v failed succeeded = cc

-- A read that may come up short.
abbrev pub or_err {ℓ} :
    {Error : Type 0} {Value : Type ℓ} → Error → Option Value → Fallible Error Value
or_err reason none = err reason
or_err reason (some value) = ok value
