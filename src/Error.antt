-- ===== src/Error.antt =====
-- src/error.rs: the errors, and the result type with its sequencing.
use oxicast.Common.{ℕ, String, Option, none, some}

-- What a library reports is kept as its text.
pub data Error : Type 0 where
  connect tls : String → Error
  disconnected : Error
  framing protobuf json : String → Error
  timeout : ℕ → Error
  launch_failed : (reason : String) → Error
  load_failed : (reason : String) (detailed_error : Option String) → Error
  invalid_request : (request_id : ℕ) (reason : String) → Error
  invalid_payload : Error
  discovery file_not_found : String → Error
  no_media_session no_application : Error
  internal : String → Error

pub data Result {ℓ} (A : Type ℓ) : Type ℓ where
  ok : A → Result A
  err : Error → Result A

infixl 5 ◌>>=◌
abbrev pub ◌>>=◌ {ℓ κ} : {A : Type ℓ} {B : Type κ} → Result A → (A → Result B) → Result B
ok a >>= f = f a
err e >>= f = err e

-- `Option::ok_or`.
abbrev pub ok_or {ℓ} : {A : Type ℓ} → Option A → Error → Result A
ok_or none e = err e
ok_or (some a) e = ok a
