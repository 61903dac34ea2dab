-- ===== src/Verifiers/Tinfoil/World.antt =====
-- verifiers/tinfoil.py: what the verifier calls and the errors it raises. Hashes, Base64, gzip, YAML,
-- certificates and sigstore are an argument.
use awesome_private_inferenc.Prelude.{ℕ, String, Bool, Option, List}
use awesome_private_inferenc.Json.{Json}
use awesome_private_inferenc.Result.{Result}
use awesome_private_inferenc.Verifiers.Hex.{Bytes}

-- The exceptions that leave the verifier, by the step that raises them.
pub data Exception : Type 0 where
  invalid_ledger missing_key wrong_type invalid_json invalid_yaml invalid_base64 : Exception
  unverified_signature unexpected_payload_type unlisted_digest : Exception
  missing_config missing_config_hash config_hash_mismatch : Exception
  unsupported_predicate_type invalid_certificate : Exception
  no_chunks invalid_chunk invalid_base32 invalid_utf8 no_connection : Exception
  truncated_gzip : Exception

-- A certificate that signs a release: whether the issuer of its identity is the given one, and the
-- URIs among its alternative names.
pub record Certificate : Type 0 where
  pub is_issued_by : String → Bool
  pub uris : Option (List (List ℕ))

-- a DSSE envelope's payload type and payload
pub record Payload : Type 0 where
  pub payload_type : String
  pub body : Bytes

-- What `gzip.decompress` raises: an `OSError`, or an `EOFError` or a `zlib.error`.
pub data GzipError : Type 0 where
  os_error eof_or_zlib_error : GzipError

pub record World : Type 0 where
  -- the hex digest
  pub sha256 : Bytes → List ℕ
  pub utf8 : List ℕ → Bytes
  pub decode_utf8 : Bytes → Option (List ℕ)
  pub b64decode : List ℕ → Option Bytes
  pub b32decode : List ℕ → Option Bytes
  pub gunzip : Bytes → Result GzipError Bytes
  pub yaml : Bytes → Option Json
  pub loads : Bytes → Option Json
  -- `verify_dsse` with a policy on the certificate
  pub verify_dsse : Json → (Certificate → Bool) → Option Payload
  -- the hex digest of the public key in a PEM certificate, and its alternative names,
  pub spki_sha256 : List ℕ → Option (List ℕ)
  -- the latter as texts; `none` for a name that is not a text
  pub san_values : List ℕ → Option (List (Option (List ℕ)))
  -- the same digest of the certificate that a host presents
  pub live_spki_sha256 : String → Option (List ℕ)
