-- ===== src/Fault/Buffers.antt =====
-- A chain of writes into one buffer ends well exactly when the whole text fits.
use lua_eclipse_ide.Base.{ℕ, ◌<◌, ◌≤◌, Bytes, ◌++◌, ◌≡◌, refl, arith, length, length-append}
use lua_eclipse_ide.Fault.{Result, ok, fault, overflow, ◌>>=◌, strcat, sprintf}

pub strcat-sprintf : (size : ℕ) (a b : Bytes) → strcat size a b ≡ sprintf size (a ++ b)
unfolding strcat sprintf
strcat-sprintf size a b = ground (arith, length-append {0} a b)

-- Two writes are one.
pub sprintf-strcat {ℓ} :
    {A : Type ℓ} (size : ℕ) (a b : Bytes) (k : Bytes → Result A)
    → (sprintf size a >>= λ x. strcat size x b >>= k) ≡ (sprintf size (a ++ b) >>= k)
unfolding strcat sprintf
sprintf-strcat size a b k = ground (arith, length-append {0} a b)

pub sprintf-strcat_last :
    (size : ℕ) (a b : Bytes) → (sprintf size a >>= λ x. strcat size x b) ≡ sprintf size (a ++ b)
unfolding strcat sprintf
sprintf-strcat_last size a b = ground (arith, length-append {0} a b)

pub sprintf-fits : (size : ℕ) (a : Bytes) → length a < size → sprintf size a ≡ ok a
unfolding sprintf
sprintf-fits size a h = ground arith

pub sprintf-overflows : (size : ℕ) (a : Bytes) → size ≤ length a → sprintf size a ≡ fault overflow
unfolding sprintf
sprintf-overflows size a h = ground arith

pub bind_assoc {ℓ κ μ} :
    {A : Type ℓ} {B : Type κ} {C : Type μ} (m : Result A) (f : A → Result B) (g : B → Result C)
    → (m >>= f >>= g) ≡ (m >>= λ a. f a >>= g)
bind_assoc (ok a) f g = refl
bind_assoc (fault e) f g = refl

-- A write fails by overflow alone.
pub sprintf_then_overflow {ℓ} :
    {A : Type ℓ} (size : ℕ) (a : Bytes)
    → ◌>>=◌ {Y = A} (sprintf size a) (λ x. fault overflow) ≡ fault overflow
unfolding sprintf
sprintf_then_overflow size a = ground arith

pub bind_ok {ℓ} : {A : Type ℓ} (m : Result A) → (m >>= ok) ≡ m
bind_ok (ok a) = refl
bind_ok (fault e) = refl

pub ruleset buffer_laws = (bind_assoc, sprintf-strcat, sprintf-strcat_last)
