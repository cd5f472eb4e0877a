-- ===== src/Http/Payload.antt =====
-- `decode_http_payload`.
use deepinsight.Prelude.{
  ℕ, String, Option, none, some, List, [], if◌then◌else◌, codes, same_codes, strip, lower,
}
use deepinsight.Http.World.{World, Unpacked, unpacked, corrupt, cut_short, ProviderHttpResponse}
use deepinsight.Http.Headers.{header}

-- An OSError or a zlib.error is `undecodable`; an EOFError is `end_of_file`.
pub data Decoded : Type 0 where
  decoded : String → Decoded
  undecodable : Decoded
  end_of_file : Decoded

abbrev pub from_unpacked : World → Unpacked → Decoded
from_unpacked w (unpacked payload) = decoded (w.decode_utf8 payload)
from_unpacked w corrupt = undecodable
from_unpacked w cut_short = end_of_file

abbrev pub from_raw : World → Option (List ℕ) → Decoded
from_raw w none = undecodable
from_raw w (some payload) = decoded (w.decode_utf8 payload)

abbrev pub from_inflated : World → List ℕ → Option (List ℕ) → Decoded
from_inflated w payload none = from_raw w (w.inflate_raw payload)
from_inflated w payload (some inflated) = decoded (w.decode_utf8 inflated)

unfoldable pub decode_http_payload : World → List ℕ → (content_encoding : List ℕ) → Decoded
unfolding strip lower
decode_http_payload w payload content_encoding =
    let encoding = strip (lower content_encoding) in
    if same_codes encoding (codes "gzip")
    then from_unpacked w (w.gunzip payload)
    else if same_codes encoding (codes "deflate")
    then from_inflated w payload (w.inflate payload)
    else decoded (w.decode_utf8 payload)

-- `_header(...) or ""`
abbrev pub codes_or_empty : Option String → List ℕ
codes_or_empty none = []
codes_or_empty (some value) = codes value

unfoldable pub decode_response : World → ProviderHttpResponse → Decoded
unfolding decode_http_payload header
decode_response w response =
    decode_http_payload w response.body
      (codes_or_empty (header response.headers "Content-Encoding"))
