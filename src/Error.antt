-- ===== src/Error.antt =====
-- src/error.rs: the error of every resolver operation, and its `Result` alias.
use Prim.Native.String.{String}
use recurse_x.Prelude.{Bool, true, false, Option, none, some, ◌≡◌, refl}

pub data ErrorKind : Type 0 where
  wire truncated timeout io transport servfail refused no_data nx_domain dnssec rate_limited :
      ErrorKind
  policy no_upstream config canceled internal unsupported : ErrorKind

pub record Error : Type 0 where
  pub kind : ErrorKind
  pub msg : String

-- `Error::new` and the constructors with a fixed kind.
unfoldable pub new : ErrorKind → String → Error
new kind msg = record { kind = kind; msg = msg }

unfoldable pub wire_error : String → Error
unfolding new
wire_error = new wire

unfoldable pub internal_error : String → Error
unfolding new
internal_error = new internal

unfoldable pub transport_error : String → Error
unfolding new
transport_error = new transport

unfoldable pub io_error : String → Error
unfolding new
io_error = new io

unfoldable pub config_error : String → Error
unfolding new
config_error = new config

transient_kind : ErrorKind → Bool
transient_kind timeout = true
transient_kind io = true
transient_kind transport = true
transient_kind servfail = true
transient_kind _ = false

unfoldable pub is_transient : Error → Bool
unfolding transient_kind
is_transient e = transient_kind e.kind

-- `core::result::Result` at this error type.
pub data Result {ℓ} (T : Type ℓ) : Type ℓ where
  err : Error → Result T
  ok : T → Result T

-- `?`: an error returns at once.
infixl 5 ◌>>=◌ ◌>>◌
abbrev pub ◌>>=◌ {ℓ κ} : {T : Type ℓ} {U : Type κ} (r : Result T) → (T → Result U) → Result U
err cause >>= next = err cause
ok value >>= next = next value

-- `if test { return Err(e) }`
abbrev pub fail_if : Bool → Error → Result (Unit {0})
fail_if true e = err e
fail_if false e = ok tt

-- A check before the rest of the body.
abbrev pub ◌>>◌ {κ} : {U : Type κ} → Result (Unit {0}) → Result U → Result U
check >> rest = check >>= λ _. rest

-- `Option::ok_or_else` and `Result::map_err` with an error that does not depend on the cause.
abbrev pub ok_or {ℓ} : {A : Type ℓ} → Option A → Error → Result A
ok_or (some a) e = ok a
ok_or none e = err e

abbrev pub or_error {ℓ} : {A : Type ℓ} → Result A → Error → Result A
or_error (ok a) e = ok a
or_error (err _) e = err e

pub >>=-eq-ok {ℓ κ} :
    {T : Type ℓ} {U : Type κ} (r : Result T) (next : T → Result U) {u : U}
    → (r >>= next) ≡ ok u
    → (t : T) × (r ≡ ok t) × (next t ≡ ok u)
>>=-eq-ok (err cause) next e = cc
>>=-eq-ok (ok value) next e = (value, refl, e)

pub ok-injective {ℓ} : {A : Type ℓ} {a b : A} → ok a ≡ ok b → a ≡ b
ok-injective h = cc

pub err-injective {ℓ} : {A : Type ℓ} {e f : Error} → ◌≡◌ {A = Result A} (err e) (err f) → e ≡ f
err-injective h = cc

-- A check that is passed.
pub fail_if-eq-ok {κ} :
    {U : Type κ} (test : Bool) (e : Error) (r : Result U) {u : U}
    → (fail_if test e >> r) ≡ ok u
    → (test ≡ false) × (r ≡ ok u)
fail_if-eq-ok true e r h = cc
fail_if-eq-ok false e r h = (refl, h)
