-- ===== src/Web/PayloadCodec.antt =====
-- internal/web/payload_codec.go: the payload of a result that a device has compressed. The formats that the
-- libraries read are arguments: JSON, base64 and gzip.
use r0rpc.Prelude.{
  ℕ, String, Bool, true, false, Option, none, some, List, [], ◌∷◌, ◌==◌, string_eq, if◌then◌else◌,
}
use r0rpc.Prelude.Text.{trim_space}
use r0rpc.Rpc.Job.{JobResult}

pub data CodecError : Type 0 where
  not_a_string bad_base64 not_gzip broken_gzip not_json : CodecError
  unsupported : String → CodecError

pub data Decoded (A : Type 0) : Type 0 where
  ok : A → Decoded A
  err : CodecError → Decoded A

infixl 5 ◌>>=◌ ◌>>◌
abbrev pub ◌>>=◌ : {A B : Type 0} → Decoded A → (A → Decoded B) → Decoded B
ok a >>= f = f a
err e >>= f = err e

abbrev pub ◌>>◌ : {A B : Type 0} → Decoded A → Decoded B → Decoded B
m >> k = m >>= λ _. k

abbrev or_fail : {A : Type 0} → Option A → CodecError → Decoded A
or_fail none e = err e
or_fail (some a) e = ok a

-- What the libraries do: `json.Unmarshal` into a string, `base64.StdEncoding`, the header and the
-- content of `gzip`, `bytes.TrimSpace` and `json.Valid`.
pub record Codec : Type 0 where
  pub json_string : List ℕ → Option String
  pub base64 : String → Option (List ℕ)
  pub gzip_opens : List ℕ → Bool
  pub gzip_content : List ℕ → Option (List ℕ)
  pub trim_bytes : List ℕ → List ℕ
  pub json_valid : List ℕ → Bool

abbrev guard : Bool → CodecError → Decoded (Unit {0})
guard true e = ok tt
guard false e = err e

-- The text `{}` for nothing.
abbrev or_object : List ℕ → Bool → Decoded (List ℕ)
or_object [] valid = ok (123 ∷ 125 ∷ [])
or_object (b ∷ bs) valid = do guard valid CodecError.not_json; ok (b ∷ bs)

unfoldable pub decode_compressed_payload : Codec → List ℕ → Decoded (List ℕ)
decode_compressed_payload codec raw = do
  encoded ← or_fail (codec.json_string raw) CodecError.not_a_string
  compressed ← or_fail (codec.base64 encoded) CodecError.bad_base64
  guard (codec.gzip_opens compressed) CodecError.not_gzip
  plain ← or_fail (codec.gzip_content compressed) CodecError.broken_gzip
  let trimmed = codec.trim_bytes plain
  or_object trimmed (codec.json_valid trimmed)

unfoldable pub normalize_client_job_result : Codec → JobResult → Decoded JobResult
unfolding decode_compressed_payload
normalize_client_job_result codec result =
    let encoding = trim_space result.payload_encoding in
    if encoding == ""
    then ok result
    else if encoding == "gzip+base64+json"
    then (do
      decoded ← decode_compressed_payload codec result.payload
      ok (record result { payload = decoded; payload_encoding = "" }))
    else err (CodecError.unsupported encoding)
