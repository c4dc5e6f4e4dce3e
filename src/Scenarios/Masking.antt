-- ===== src/Scenarios/Masking.antt =====
-- A JSON text with a secret in it.
use proxy_sentinel.Base.Text.{Text, bytes, has_prefix}
use proxy_sentinel.Base.{
  ◌≡◌, refl, [], ◌∷◌, ◌++◌, some, arith, list_beq, nat_eq, list_eq, length, All,
}
use proxy_sentinel.Net.Header.{is_upper}
use proxy_sentinel.Proxy.Decode.{to_lower}
use proxy_sentinel.Logger.Mask.{
  finished, sensitive_fields, mask_json, mask_json_string_field, needle_of, index_of,
}
use proxy_sentinel.Logger.Mask.Ascii.{IsAscii}
use proxy_sentinel.Logger.Mask.Termination.{KeepsLength, mask_json-finishes}
use proxy_sentinel.Logger.Mask.Values.{IsInner, with_value, mask_json_string_field_hides}

to_lower-KeepsLength : KeepsLength to_lower
unfolding to_lower
to_lower-KeepsLength [] h = refl
to_lower-KeepsLength (c ∷ s) (h, hs) = omega (arith, to_lower-KeepsLength s hs)

abbrev front : Text
front = bytes "{\"user\":\"ann\","

text-IsAscii :
    IsAscii (with_value (front ++ needle_of (bytes "token")) (bytes "secret") (bytes "}"))
unfolding needle_of
text-IsAscii = ground arith

mask_json-finishes_example :
    (s' : Text) × (mask_json to_lower sensitive_fields
        (with_value (front ++ needle_of (bytes "token")) (bytes "secret") (bytes "}"))
      ≡ finished s')
    × IsAscii s'
mask_json-finishes_example =
    mask_json-finishes to_lower sensitive_fields
      (with_value (front ++ needle_of (bytes "token")) (bytes "secret") (bytes "}"))
      to_lower-KeepsLength text-IsAscii

-- The two texts are masked alike: "se" stays, and four stars.
found :
    (index_of
        (needle_of (bytes "token"))
        (to_lower (with_value (front ++ needle_of (bytes "token")) (bytes "secret") (bytes "}")))
      ≡ some (length front))
    × (index_of
          (needle_of (bytes "token"))
          (to_lower (with_value (front ++ needle_of (bytes "token")) (bytes "seeing") (bytes "}")))
        ≡ some (length front))
unfolding index_of needle_of to_lower is_upper has_prefix list_beq
found = (refl, refl)

secret-IsInner : All IsInner (bytes "secret")
secret-IsInner = ground arith

seeing-IsInner : All IsInner (bytes "seeing")
seeing-IsInner = ground arith

mask_json_string_field_hides_example :
    mask_json_string_field to_lower
      (with_value (front ++ needle_of (bytes "token")) (bytes "secret") (bytes "}"))
      (bytes "token")
    ≡ mask_json_string_field to_lower
        (with_value (front ++ needle_of (bytes "token")) (bytes "seeing") (bytes "}"))
        (bytes "token")
mask_json_string_field_hides_example =
    mask_json_string_field_hides to_lower front (bytes "token") (bytes "secret") (bytes "seeing")
      (bytes "}") secret-IsInner seeing-IsInner found.0 found.1 refl refl
