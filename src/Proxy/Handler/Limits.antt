-- ===== src/Proxy/Handler/Limits.antt =====
-- The limits on request bodies.
use mathlib.Core.Path.{subst⁻¹}
use proxy_sentinel.Base.Int.{ℤ, pos, negsuc}
use proxy_sentinel.Base.Text.{Text, bytes}
use proxy_sentinel.Base.{
  ℕ, zero, suc, ◌+◌, ◌≤◌, ◌<◌, ◌≡◌, ◌⊎◌, inl, inr, refl, true, false, ◌&&◌, ◌++◌, [], none, some,
  arith, ltb, length, Option-cases, Bool-cases,
}
use proxy_sentinel.Proxy.Request.{Request, Body, read_limited}
use proxy_sentinel.Proxy.Decode.{itoa}
use proxy_sentinel.Proxy.Handler.{
  Handler, as_received, buffered, streamed, BodyPlan, refuse, ready, plan_body, plan_sized,
  buffer_body, upload_limit, is_zero_length,
}

-- A length that is streamed, where it is known, is above the memory limit and within the upload limit.
abbrev pub IsStreamLength : ℕ → ℕ → ℤ → Type 0
IsStreamLength max_body n (pos cl) = (max_body < cl) × (cl ≤ n)
IsStreamLength max_body n (negsuc k) = Unit

-- What a body plan promises: a body in memory is within the memory limit, a stream carries the upload
-- limit if there is one, and its length, where it is known, is within that limit.
abbrev pub IsWithin : Handler → Request → BodyPlan → Type 0
IsWithin h r (refuse code msg) = (code ≡ 400) ⊎ (code ≡ 413)
IsWithin h r (ready log as_received) = (r.body ≡ none) ⊎ (r.content_length ≡ pos 0)
IsWithin h r (ready log (buffered t)) = (log ≡ t) × (length t ≤ h.max_body)
IsWithin h r (ready log (streamed none)) = h.max_upload ≡ 0
IsWithin h r (ready log (streamed (some n))) =
    (h.max_upload ≡ n) × IsStreamLength h.max_body n r.content_length

upload_limit_cases : (n : ℕ) → ((upload_limit n ≡ none) × (n ≡ 0)) ⊎ (upload_limit n ≡ some n)
unfolding upload_limit
upload_limit_cases zero = inl (refl, refl)
upload_limit_cases (suc n) = inr refl

streamed-IsWithin :
    (h : Handler) (r : Request) (log : Text)
    → ((cl : ℕ)
        → r.content_length ≡ pos cl
        → 0 < h.max_upload
        → (h.max_body < cl) × (cl ≤ h.max_upload))
    → IsWithin h r (ready log (streamed (upload_limit h.max_upload)))
streamed-IsWithin h r log fits = elim (upload_limit_cases h.max_upload) [
  | inl (none_set, zero_limit) ↦ rw none_set zero_limit
  | inr set ↦ streamed_some h r log fits set
]
  where
    streamed_some :
        (h : Handler) (r : Request) (log : Text)
        → ((cl : ℕ)
            → r.content_length ≡ pos cl
            → 0 < h.max_upload
            → (h.max_body < cl) × (cl ≤ h.max_upload))
        → upload_limit h.max_upload ≡ some h.max_upload
        → IsWithin h r (ready log (streamed (upload_limit h.max_upload)))
    streamed_some h r log fits set = rw set (refl, length_fits r.content_length refl)
      where
        positive : (n : ℕ) → upload_limit n ≡ some n → 0 < n
        positive zero e = unfold upload_limit in cc
        positive (suc n) e = omega arith

        length_fits :
            (z : ℤ) → r.content_length ≡ z → IsStreamLength h.max_body h.max_upload r.content_length
        length_fits (pos cl) e = rw e (fits cl e (positive h.max_upload set))
        length_fits (negsuc k) e = rw e tt

buffer_body-IsWithin :
    (h : Handler) (r : Request) (b : Body) → IsWithin h r (buffer_body h.max_body b)
unfolding buffer_body
buffer_body-IsWithin h r b = elim (Option-cases (read_limited (h.max_body + 1) b)) [
  | inl broken ↦ rw (broken, buffer_body) (inl refl)
  | inr (t, read) ↦ elim (Bool-cases (ltb h.max_body (length t))) [
    | inl over ↦ rw (read, buffer_body) (rw over (inr refl))
    | inr fits ↦ rw (read, buffer_body) (rw fits (refl, ground (arith, fits)))
  ]
]

plan_sized-IsWithin :
    (h : Handler) (r : Request) (cl : ℤ) (b : Body)
    → r.content_length ≡ cl
    → IsWithin h r (plan_sized h.max_body h.max_upload cl b)
unfolding plan_sized
plan_sized-IsWithin h r (negsuc n) b e =
    streamed-IsWithin h r (bytes "[streamed chunked]") (λ cl e'. absurd (ground (arith, e, e')))
plan_sized-IsWithin h r (pos n) b e = elim (Bool-cases (ltb h.max_body n)) [
  | inr small ↦ rw small (buffer_body-IsWithin h r b)
  | inl large ↦ elim (Bool-cases (ltb 0 h.max_upload && ltb h.max_upload n)) [
    | inl over ↦ rw (large, over) (inr refl)
    | inr fits ↦
        rw (large, fits)
          (streamed-IsWithin h r (bytes "[streamed " ++ itoa n ++ bytes " bytes]")
            (λ cl e' set. ground (arith, e, e', large, fits, set)))
  ]
]

is_zero_length_lem : (z : ℤ) → is_zero_length z ≡ true → z ≡ pos 0
unfolding is_zero_length
is_zero_length_lem (pos zero) h = refl
is_zero_length_lem (pos (suc n)) h = cc
is_zero_length_lem (negsuc n) h = cc

plan_body-sized :
    (h : Handler) (r : Request) (b : Body)
    → r.body ≡ some b
    → is_zero_length r.content_length ≡ false
    → plan_body h r ≡ plan_sized h.max_body h.max_upload r.content_length b
unfolding plan_body
plan_body-sized h r b full sized = ground arith

plan_body-untouched :
    (h : Handler) (r : Request)
    → (r.body ≡ none) ⊎ (is_zero_length r.content_length ≡ true)
    → plan_body h r ≡ ready [] as_received
unfolding plan_body
plan_body-untouched h r none_sent = ground arith

-- Every request body is within the limits, is refused with 400 or 413, or is left alone because there is
-- none: a body in memory has at most `max_body` bytes, and a streamed one carries the upload limit, which
-- a known length does not pass, unless no upload limit is set.
pub plan_body-IsWithin : (h : Handler) (r : Request) → IsWithin h r (plan_body h r)
plan_body-IsWithin h r = elim (Option-cases r.body) [
  | inl empty ↦ subst⁻¹ (IsWithin h r) (plan_body-untouched h r (inl empty)) (inl empty)
  | inr (b, full) ↦ elim (Bool-cases (is_zero_length r.content_length)) [
    | inl zero_length ↦
        subst⁻¹ (IsWithin h r) (plan_body-untouched h r (inr zero_length))
          (inr (is_zero_length_lem r.content_length zero_length))
    | inr sized ↦
        subst⁻¹ (IsWithin h r) (plan_body-sized h r b full sized)
          (plan_sized-IsWithin h r r.content_length b refl)
  ]
]
