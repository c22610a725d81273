-- ===== src/Proxy/Bedrock.antt =====
-- proxy/bedrock.go: the region of a Bedrock host, and the signing of a request anew. The provider of
-- credentials, the signer and the digest come from the AWS SDK and the crypto library: parameters.
pub mod Region
pub mod Signing
use runclaude.Prelude.{
  ℕ, Bool, true, false, ◌&&◌, List, [], ◌∷◌, Option, none, some, if◌then◌else◌, length,
}
use runclaude.Text.{
  Bytes, codes, has_prefix, has_suffix, has_byte, trim_prefix, trim_suffix, is_empty,
}
use runclaude.Proxy.Header.{Header, del_headers, strip_hop_by_hop_headers}

abbrev pub host_prefix : Bytes
host_prefix = codes "bedrock-runtime."

abbrev pub host_suffix : Bytes
host_suffix = codes ".amazonaws.com"

-- `IsBedrockHost(host)`
unfoldable pub is_bedrock_host : Bytes → Bool
is_bedrock_host host = has_prefix host host_prefix && has_suffix host host_suffix

-- `BedrockRegion(host)`
unfoldable pub bedrock_region : Bytes → Bytes
unfolding is_bedrock_host
bedrock_region host =
    if is_bedrock_host host
    then (let mid = trim_suffix (trim_prefix host host_prefix) host_suffix in
        if has_byte b'.' mid then [] else mid)
    else []

-- The body of a request: none, one that can be read, or one whose reading fails.
pub data Body : Type 0 where
  absent broken : Body
  content : Bytes → Body

pub record Request : Type 0 where
  pub header : Header
  pub body : Body
  pub content_length : ℕ

-- the four headers of the client's own signature
abbrev pub signature_headers : List Bytes
signature_headers =
    codes "Authorization"
    ∷ codes "X-Amz-Date"
    ∷ codes "X-Amz-Security-Token"
    ∷ codes "X-Amz-Content-Sha256"
    ∷ []

-- the request without hop-by-hop headers and signature
abbrev pub unsigned : Request → Request
unsigned r = record r { header = del_headers signature_headers (strip_hop_by_hop_headers r.header) }

-- `sign` is `signer.SignHTTP`: credentials, request, hash of the body, service, region and time to the
-- request as it leaves it, also where it fails. `retrieve` gives no credentials on an error.
module _ {Creds : Type 0} (retrieve : Option Creds) (hash : Bytes → Bytes)
    (sign : Creds → Request → Bytes → Bytes → Bytes → ℕ → Request) where
  sign_with : Option Creds → Bytes → Bytes → ℕ → Request → Request
  sign_with none body region now r = r
  sign_with (some creds) body region now r = sign creds r (hash body) (codes "bedrock") region now

  sign_body : Body → Bytes → ℕ → Request → Request
  sign_body absent region now r = sign_with retrieve [] region now r
  sign_body broken region now r = r
  sign_body (content b) region now r =
      sign_with retrieve b region now (record r { body = content b; content_length = length b })

  -- `injectBedrockAt(host, r, …, now, …)`
  unfoldable pub inject_bedrock_at : Bytes → ℕ → Request → Request
  unfolding sign_with sign_body
  inject_bedrock_at host now r =
      let region = bedrock_region host in
      if is_empty region then r else sign_body r.body region now (unsigned r)
