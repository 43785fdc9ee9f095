-- ===== src/Message/Names.antt =====
-- `as_str_name` and `from_str_name` of the enumerations in src/proto_gen.rs.
use oxicast.Common.{
  String, Option, none, some, ◌≡◌, refl, ap, ◌∙◌, ◌↔◌, arith, if◌then◌else◌, str_eq, str_eq_iff,
}
use oxicast.Message.{
  ProtocolVersion, castv210, castv211, castv212, castv213, PayloadType, string, binary,
}
use oxicast.Message.Auth.{
  SignatureAlgorithm, unspecified, rsassa_pkcs1v15, rsassa_pss, HashAlgorithm, sha1, sha256,
  ErrorType, internal_error, no_tls, signature_algorithm_unavailable,
}

pub record Names (A : Type 0) : Type 0 where
  pub as_str_name : A → String
  pub from_str_name : String → Option A

unfoldable pub version_name : ProtocolVersion → String
version_name castv210 = "CASTV2_1_0"
version_name castv211 = "CASTV2_1_1"
version_name castv212 = "CASTV2_1_2"
version_name castv213 = "CASTV2_1_3"

unfoldable pub version_of_name : String → Option ProtocolVersion
version_of_name value =
    if str_eq value "CASTV2_1_0"
    then some castv210
    else if str_eq value "CASTV2_1_1"
    then some castv211
    else if str_eq value "CASTV2_1_2"
    then some castv212
    else if str_eq value "CASTV2_1_3"
    then some castv213
    else none

abbrev pub protocol_version : Names ProtocolVersion
protocol_version = record { as_str_name = version_name; from_str_name = version_of_name }

unfoldable pub payload_type_name : PayloadType → String
payload_type_name string = "STRING"
payload_type_name binary = "BINARY"

unfoldable pub payload_type_of_name : String → Option PayloadType
payload_type_of_name value =
    if str_eq value "STRING"
    then some string
    else if str_eq value "BINARY"
    then some binary
    else none

abbrev pub payload_type : Names PayloadType
payload_type = record { as_str_name = payload_type_name; from_str_name = payload_type_of_name }

unfoldable pub error_type_name : ErrorType → String
error_type_name internal_error = "INTERNAL_ERROR"
error_type_name no_tls = "NO_TLS"
error_type_name signature_algorithm_unavailable = "SIGNATURE_ALGORITHM_UNAVAILABLE"

unfoldable pub error_type_of_name : String → Option ErrorType
error_type_of_name value =
    if str_eq value "INTERNAL_ERROR"
    then some internal_error
    else if str_eq value "NO_TLS"
    then some no_tls
    else if str_eq value "SIGNATURE_ALGORITHM_UNAVAILABLE"
    then some signature_algorithm_unavailable
    else none

abbrev pub error_type : Names ErrorType
error_type = record { as_str_name = error_type_name; from_str_name = error_type_of_name }

unfoldable pub signature_algorithm_name : SignatureAlgorithm → String
signature_algorithm_name unspecified = "UNSPECIFIED"
signature_algorithm_name rsassa_pkcs1v15 = "RSASSA_PKCS1v15"
signature_algorithm_name rsassa_pss = "RSASSA_PSS"

unfoldable pub signature_algorithm_of_name : String → Option SignatureAlgorithm
signature_algorithm_of_name value =
    if str_eq value "UNSPECIFIED"
    then some unspecified
    else if str_eq value "RSASSA_PKCS1v15"
    then some rsassa_pkcs1v15
    else if str_eq value "RSASSA_PSS"
    then some rsassa_pss
    else none

abbrev pub signature_algorithm : Names SignatureAlgorithm
signature_algorithm = record {
  as_str_name = signature_algorithm_name;
  from_str_name = signature_algorithm_of_name;
}

unfoldable pub hash_algorithm_name : HashAlgorithm → String
hash_algorithm_name sha1 = "SHA1"
hash_algorithm_name sha256 = "SHA256"

unfoldable pub hash_algorithm_of_name : String → Option HashAlgorithm
hash_algorithm_of_name value =
    if str_eq value "SHA1" then some sha1 else if str_eq value "SHA256" then some sha256 else none

abbrev pub hash_algorithm : Names HashAlgorithm
hash_algorithm = record {
  as_str_name = hash_algorithm_name;
  from_str_name = hash_algorithm_of_name;
}

-- A text is read as a value exactly if it is the value's name.
abbrev pub IsExact : {A : Type 0} → Names A → Type 0
IsExact {A} n =
    (value : String) (a : A) → (n.from_str_name value ≡ some a) ↔ (value ≡ n.as_str_name a)

exact :
    {A : Type 0} (n : Names A)
    → ((a : A) → n.from_str_name (n.as_str_name a) ≡ some a)
    → ((value : String) (a : A) → n.from_str_name value ≡ some a → value ≡ n.as_str_name a)
    → IsExact n
exact n reads names value a = (names value a, λ e. ap n.from_str_name e ∙ reads a)

version_of_name-version_name : (a : ProtocolVersion) → version_of_name (version_name a) ≡ some a
unfolding version_name version_of_name
version_of_name-version_name castv210 = refl
version_of_name-version_name castv211 = refl
version_of_name-version_name castv212 = refl
version_of_name-version_name castv213 = refl

version_of_name-some :
    (value : String) (a : ProtocolVersion) → version_of_name value ≡ some a → value ≡ version_name a
unfolding version_name version_of_name
version_of_name-some value a e = ground (
  arith,
  str_eq_iff value "CASTV2_1_0",
  str_eq_iff value "CASTV2_1_1",
  str_eq_iff value "CASTV2_1_2",
  str_eq_iff value "CASTV2_1_3",
)

payload_type_of_name-payload_type_name :
    (a : PayloadType) → payload_type_of_name (payload_type_name a) ≡ some a
unfolding payload_type_name payload_type_of_name
payload_type_of_name-payload_type_name string = refl
payload_type_of_name-payload_type_name binary = refl

payload_type_of_name-some :
    (value : String) (a : PayloadType)
    → payload_type_of_name value ≡ some a
    → value ≡ payload_type_name a
unfolding payload_type_name payload_type_of_name
payload_type_of_name-some value a e =
    ground (arith, str_eq_iff value "STRING", str_eq_iff value "BINARY")

error_type_of_name-error_type_name :
    (a : ErrorType) → error_type_of_name (error_type_name a) ≡ some a
unfolding error_type_name error_type_of_name
error_type_of_name-error_type_name internal_error = refl
error_type_of_name-error_type_name no_tls = refl
error_type_of_name-error_type_name signature_algorithm_unavailable = refl

error_type_of_name-some :
    (value : String) (a : ErrorType) → error_type_of_name value ≡ some a → value ≡ error_type_name a
unfolding error_type_name error_type_of_name
error_type_of_name-some value a e = ground (
  arith,
  str_eq_iff value "INTERNAL_ERROR",
  str_eq_iff value "NO_TLS",
  str_eq_iff value "SIGNATURE_ALGORITHM_UNAVAILABLE",
)

signature_algorithm_of_name-signature_algorithm_name :
    (a : SignatureAlgorithm) → signature_algorithm_of_name (signature_algorithm_name a) ≡ some a
unfolding signature_algorithm_name signature_algorithm_of_name
signature_algorithm_of_name-signature_algorithm_name unspecified = refl
signature_algorithm_of_name-signature_algorithm_name rsassa_pkcs1v15 = refl
signature_algorithm_of_name-signature_algorithm_name rsassa_pss = refl

signature_algorithm_of_name-some :
    (value : String) (a : SignatureAlgorithm)
    → signature_algorithm_of_name value ≡ some a
    → value ≡ signature_algorithm_name a
unfolding signature_algorithm_name signature_algorithm_of_name
signature_algorithm_of_name-some value a e = ground (
  arith,
  str_eq_iff value "UNSPECIFIED",
  str_eq_iff value "RSASSA_PKCS1v15",
  str_eq_iff value "RSASSA_PSS",
)

hash_algorithm_of_name-hash_algorithm_name :
    (a : HashAlgorithm) → hash_algorithm_of_name (hash_algorithm_name a) ≡ some a
unfolding hash_algorithm_name hash_algorithm_of_name
hash_algorithm_of_name-hash_algorithm_name sha1 = refl
hash_algorithm_of_name-hash_algorithm_name sha256 = refl

hash_algorithm_of_name-some :
    (value : String) (a : HashAlgorithm)
    → hash_algorithm_of_name value ≡ some a
    → value ≡ hash_algorithm_name a
unfolding hash_algorithm_name hash_algorithm_of_name
hash_algorithm_of_name-some value a e =
    ground (arith, str_eq_iff value "SHA1", str_eq_iff value "SHA256")

-- For each enumeration, a text is read as a value exactly if it is the value's name.
pub from_str_name-IsExact :
    IsExact protocol_version
    × IsExact payload_type
    × IsExact error_type
    × IsExact signature_algorithm
    × IsExact hash_algorithm
from_str_name-IsExact = (
  exact protocol_version version_of_name-version_name version_of_name-some,
  exact payload_type payload_type_of_name-payload_type_name payload_type_of_name-some,
  exact error_type error_type_of_name-error_type_name error_type_of_name-some,
  exact signature_algorithm signature_algorithm_of_name-signature_algorithm_name
      signature_algorithm_of_name-some,
  exact hash_algorithm hash_algorithm_of_name-hash_algorithm_name hash_algorithm_of_name-some,
)
