-- ===== src/Proxy/Decode.antt =====
-- decodeResponseBody of internal/proxy/handler.go: the text of a response body for the log. The
-- decompressors of compress/gzip and compress/zlib (with the read limit of 128 KiB) and the test of
-- unicode/utf8 are arguments.
use proxy_sentinel.Base.Text.{Text, bytes, has_prefix}
use proxy_sentinel.Base.{
  ℕ, zero, suc, ◌+◌, ◌/◌, ◌%◌, Bool, not, List, [], ◌∷◌, ◌++◌, Option, none, some, map, ltb, ◌==◌,
  nat_eq, list_eq, if◌then◌else◌, length, any,
}
use proxy_sentinel.Net.Header
use proxy_sentinel.Net.Header.{Header, is_upper}

-- strings.ToLower, on ASCII text.
unfoldable pub to_lower : Text → Text
unfolding is_upper
to_lower s = map (λ c. if is_upper c then c + 32 else c) s

-- strconv.Itoa of a number below 10^20, in at most 20 digits.
unfoldable pub format_dec : ℕ → ℕ → Text → Text
format_dec zero n acc = acc
format_dec (suc left) n acc =
    let more = format_dec left (n / 10) ((b'0' + n % 10) ∷ acc) in
    if ltb n 10 then (b'0' + n) ∷ acc else more

unfoldable pub itoa : ℕ → Text
unfolding format_dec
itoa n = format_dec 20 n []

abbrev binary_content_types : List Text
binary_content_types =
    bytes "image/"
    ∷ bytes "audio/"
    ∷ bytes "video/"
    ∷ bytes "application/octet-stream"
    ∷ bytes "application/pdf"
    ∷ bytes "application/zip"
    ∷ bytes "application/gzip"
    ∷ bytes "application/x-protobuf"
    ∷ []

-- What the log's text of a body takes from the standard library.
pub record Codecs : Type 0 where
  pub gunzip : Text → Option Text
  pub inflate : Text → Option Text
  pub valid_utf8 : Text → Bool

sized : Text → Text → Text → Text
unfolding itoa
sized front raw back = front ++ itoa (length raw) ++ back

unfoldable pub is_binary : Text → Bool
unfolding to_lower has_prefix
is_binary content_type = any (λ p. has_prefix p (to_lower content_type)) binary_content_types

or_placeholder : Option Text → Text → Text
or_placeholder none placeholder = placeholder
or_placeholder (some s) placeholder = s

unfoldable pub decode_response_body : Codecs → Text → Header → Text
unfolding sized or_placeholder
decode_response_body c raw header =
    let content_type = Header.get header (bytes "Content-Type") in
    let encoding = to_lower (Header.get header (bytes "Content-Encoding")) in
    if raw == []
    then raw
    else if is_binary content_type
    then sized (bytes "[binary " ++ content_type ++ bytes ", ") raw (bytes " bytes]")
    else if encoding == bytes "gzip"
    then or_placeholder (c.gunzip raw)
        (sized (bytes "[gzip-compressed, ") raw (bytes " bytes, undecodable]"))
    else if encoding == bytes "deflate"
    then or_placeholder (c.inflate raw)
        (sized (bytes "[deflate-compressed, ") raw (bytes " bytes, undecodable]"))
    else if encoding == bytes "br"
    then sized (bytes "[br-compressed, ") raw (bytes " bytes]")
    else if not (c.valid_utf8 raw)
    then sized (bytes "[non-utf8 body, ") raw (bytes " bytes]")
    else raw
