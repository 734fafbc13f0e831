-- ===== src/Common/Result.antt =====
-- uvio/common/result.hpp: error codes, `Error`, and `Result`, with what a coroutine run can come to.
use Prim.Native.String.{String}
use uvio.Prelude.{ℕ, Bool, leb, ◌==◌, if◌then◌else◌}

-- `enum ErrorCode`, numbered from 8000 in the order of the source.
pub data ErrorCode : Type 0 where
  unexpected_eof write_zero reunite_error resolve_failed unclassified : ErrorCode

unfoldable pub to_int : ErrorCode → ℕ
to_int unexpected_eof = 8000
to_int write_zero = 8001
to_int reunite_error = 8002
to_int resolve_failed = 8003
to_int unclassified = 8004

-- `class Error`.
pub record Error : Type 0 where
  pub error_code : ℕ

-- How a piece of the program ends: with a value, by a failed `assert` or an access out of bounds,
-- or not within the rounds that it was given.
pub data Run {ℓ} (A : Type ℓ) : Type ℓ where
  done : A → Run A
  fault : Run A
  hang : Run A

infixl 5 ◌>>=◌
abbrev pub ◌>>=◌ {ℓ κ} : {A : Type ℓ} {B : Type κ} → Run A → (A → Run B) → Run B
done a >>= f = f a
fault >>= f = fault
hang >>= f = hang

-- `assert(b)`.
infixl 5 ◌>>◌
abbrev pub ◌>>◌ {ℓ} : {B : Type ℓ} → Run (Unit {0}) → Run B → Run B
m >> k = m >>= λ _. k

abbrev pub assert : Bool → Run (Unit {0})
assert b = if b then done tt else fault

-- `expected<T, Error>`.
pub data Result {ℓ} (A : Type ℓ) : Type ℓ where
  ok : A → Result A
  unexpected : Error → Result A

unfoldable pub make_uvio_error : ℕ → Run Error
make_uvio_error code = do assert (leb 8000 code); done (record { error_code = code })

-- `make_sys_error`: its assertion, `error_code >= 0`, holds of every ℕ.
unfoldable pub make_sys_error : ℕ → Error
make_sys_error code = record { error_code = code }

-- The error that the program makes of one of its own codes.
unfoldable pub uvio_error : ErrorCode → Error
unfolding to_int
uvio_error c = record { error_code = to_int c }

-- `Error::message`; `strerror` is the C library's.
unfoldable pub message : (ℕ → String) → Error → String
message strerror e =
    if e.error_code == 8000
    then "Read EOF too early"
    else if e.error_code == 8001
    then "Write return zero"
    else if e.error_code == 8002
    then "IO reunite error"
    else if e.error_code == 8003
    then "DNS resolve failed"
    else if e.error_code == 8004
    then "Unclassified error"
    else strerror e.error_code
