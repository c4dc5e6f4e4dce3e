-- ===== src/Proxy/RequestId.antt =====
-- resolveRequestID of internal/proxy/handler.go.
use proxy_sentinel.Base.Text.{Text, bytes}
use proxy_sentinel.Base.{
  ℕ, zero, suc, ◌+◌, ◌-◌, ◌*◌, ◌/◌, ◌%◌, ◌<◌, ◌≤◌, ◌≡◌, ◌⊎◌, refl, Bool, true, false, not, ◌&&◌,
  ◌||◌, [], ◌∷◌, ◌++◌, Option, none, some, arith, leb, ltb, ◌==◌, nat_eq, list_eq, list_beq,
  if◌then◌else◌, length, All,
}

unfoldable pub hex_digit : ℕ → ℕ
hex_digit d = if ltb d 10 then b'0' + d else b'a' + (d - 10)

-- hex.EncodeToString
unfoldable pub hex_encode : Text → Text
unfolding hex_digit
hex_encode [] = []
hex_encode (c ∷ s) = hex_digit (c / 16) ∷ hex_digit (c % 16) ∷ hex_encode s

-- strconv.FormatInt(n, 16) for n ≥ 0: an int64 has at most 16 hexadecimal digits.
format_hex : ℕ → ℕ → Text → Text
unfolding hex_digit
format_hex zero n acc = acc
format_hex (suc left) n acc =
    let more = format_hex left (n / 16) (hex_digit (n % 16) ∷ acc) in
    if ltb n 16 then hex_digit n ∷ acc else more

unfoldable pub all_printable : Text → Bool
all_printable [] = true
all_printable (c ∷ s) = not (ltb c 0x21 || ltb 0x7e c) && all_printable s

-- What `rand.Read` fills, `none` for its error, and the clock in nanoseconds for that case.
unfoldable pub resolve_request_id : Option Text → ℕ → Text → Text
unfolding format_hex
resolve_request_id random now inbound =
    if not (inbound == [])
      && leb 8 (length inbound)
      && leb (length inbound) 128
      && all_printable inbound
    then inbound
    else elim random [
      | none ↦ bytes "req-" ++ format_hex 16 now []
      | some b ↦ bytes "req-" ++ hex_encode b
    ]

-- A request ID that the program accepts: 8 to 128 visible ASCII characters.
abbrev pub IsRequestId : Text → Type 0
IsRequestId id = (8 ≤ length id) × (length id ≤ 128) × (all_printable id ≡ true)

pub length-hex_encode : (s : Text) → length (hex_encode s) ≡ 2 * length s
unfolding hex_encode
length-hex_encode [] = omega arith
length-hex_encode (c ∷ s) = omega (arith, length-hex_encode s)

hex_digit_printable : (d : ℕ) → d < 16 → (ltb (hex_digit d) 0x21 || ltb 0x7e (hex_digit d)) ≡ false
unfolding hex_digit
hex_digit_printable d h = ground arith

hex_encode_printable : (s : Text) → All (λ c. c < 256) s → all_printable (hex_encode s) ≡ true
unfolding hex_encode all_printable
hex_encode_printable [] h = refl
hex_encode_printable (c ∷ s) (h, hs) =
    rw (hex_digit_printable (c / 16) (omega arith), hex_digit_printable (c % 16) (omega arith))
      (hex_encode_printable s hs)

generated-IsRequestId :
    (b : Text) → length b ≡ 8 → All (λ c. c < 256) b → IsRequestId (bytes "req-" ++ hex_encode b)
unfolding all_printable
generated-IsRequestId b n h = (
  omega (arith, length-hex_encode b),
  omega (arith, length-hex_encode b),
  hex_encode_printable b h,
)

-- With eight random bytes at hand the ID of a request is always an acceptable one, whatever the client
-- sent, and it is the one that the client sent unless that one is not acceptable.
resolve_request_id_valid :
    (b : Text) (now : ℕ) (inbound : Text)
    → length b ≡ 8
    → All (λ c. c < 256) b
    → IsRequestId (resolve_request_id (some b) now inbound)
      × ((resolve_request_id (some b) now inbound ≡ inbound) ⊎ ¬ IsRequestId inbound)
unfolding resolve_request_id
resolve_request_id_valid b now inbound n h =
    (ground (arith, generated-IsRequestId b n h), ground (arith, nonempty inbound))
  where
    nonempty : (s : Text) → 8 ≤ length s → (s == []) ≡ false
    nonempty [] h = absurd (omega arith)
    nonempty (c ∷ s) h = unfold list_beq in refl
