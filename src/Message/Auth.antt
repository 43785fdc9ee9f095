-- ===== src/Message/Auth.antt =====
-- The enumerations and the messages of device authentication in src/proto_gen.rs. The code sends none
-- of them. An `i32` is an integer, and a byte a number.
use oxicast.Common.{ℕ, Option, List}
use oxicast.Common.Int.{ℤ}

pub data SignatureAlgorithm : Type 0 where
  unspecified rsassa_pkcs1v15 rsassa_pss : SignatureAlgorithm

pub data HashAlgorithm : Type 0 where
  sha1 sha256 : HashAlgorithm

pub data ErrorType : Type 0 where
  internal_error no_tls signature_algorithm_unavailable : ErrorType

abbrev pub Bytes : Type 0
Bytes = List ℕ

pub record AuthChallenge : Type 0 where
  pub signature_algorithm : Option ℤ
  pub sender_nonce : Option Bytes
  pub hash_algorithm : Option ℤ

pub record AuthResponse : Type 0 where
  pub signature : Bytes
  pub client_auth_certificate : Bytes
  pub intermediate_certificate : List Bytes
  pub signature_algorithm : Option ℤ
  pub sender_nonce : Option Bytes
  pub hash_algorithm : Option ℤ
  pub crl : Option Bytes

pub record AuthError : Type 0 where
  pub error_type : ℤ

pub record DeviceAuthMessage : Type 0 where
  pub challenge : Option AuthChallenge
  pub response : Option AuthResponse
  pub error : Option AuthError
