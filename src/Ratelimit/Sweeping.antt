-- ===== src/Ratelimit/Sweeping.antt =====
-- Dropping a bucket that has been idle for two windows, or adding a new one, changes no balance.
use mathlib.Core.Path.{subst⁻¹}
use proxy_sentinel.Base.Int.{ℤ, pos, ltb_ℤ}
use proxy_sentinel.Base.Map
use proxy_sentinel.Base.Map.{IsUnique, lookup-insert}
use proxy_sentinel.Base.{
  ℕ, ◌-◌, ◌*◌, ◌^◌, ◌<◌, ◌≤◌, ◌≡◌, ◌∙◌, sym, ap, inl, inr, refl, Bool, true, Option, none, some,
  arith, ltb, leb, ◌==◌, nat_eq, if◌then◌else◌, length, Bool-cases, Option-cases,
}
use proxy_sentinel.Ratelimit.{
  Floats, Bucket, Limiter, max_keys, since, sweep, zero_bucket, take_bucket, rate, refill,
  retry_after, spend, charge, allow,
}
use proxy_sentinel.Ratelimit.Validity.{IsNonneg, FloatLaws, IsValid, sweep-lookup}

module _ {F : Type 0} (fl : Floats F) where
  unfoldable pub bucket_of : ℕ → Limiter F → Bucket F
  bucket_of key l = elim (Map.lookup key l.buckets) [ none ↦ zero_bucket fl | some b ↦ b ]

  -- What a request of a key finds in its bucket after the refill.
  unfoldable pub balance : ℕ → ℤ → ℕ → Limiter F → F
  unfolding bucket_of
  balance now limit key l = refill fl now limit l.window (bucket_of key l)

  since_later :
      (w at_ now : ℕ) (last : Option ℕ)
      → w < 2 ^ 63 - 1
      → at_ ≤ now
      → w < since at_ last
      → w < since now last
  unfolding since
  since_later w at_ now none short later h = short
  since_later w at_ now (some t) short later h = omega arith

  -- After two windows a bucket is full, and so is a new one.
  refill_full :
      (now : ℕ) (limit : ℤ) (w : ℕ) (b : Bucket F)
      → FloatLaws fl w
      → ltb_ℤ (pos 0) limit ≡ true
      → IsNonneg fl b.tokens
      → w * 2 < since now b.last
      → refill fl now limit w b ≡ fl.of_int limit
  unfolding refill rate
  refill_full now limit w b laws on h idle =
      let gain = fl.mul (fl.seconds (since now b.last)) (fl.div (fl.of_int limit) (fl.seconds w)) in
      laws.min_le (fl.of_int limit) (fl.add b.tokens gain) (
        laws.add_le (fl.of_int limit) b.tokens gain h
          (laws.gain_full limit (since now b.last) on idle))

  sweep-bucket_of :
      (at_ key : ℕ) (l : Limiter F)
      → IsUnique l.buckets
      → bucket_of key (sweep at_ l) ≡ (
          if ltb (l.window * 2) (since at_ (bucket_of key l).last)
          then zero_bucket fl
          else bucket_of key l)
  unfolding bucket_of
  sweep-bucket_of at_ key l unique = elim (Option-cases (Map.lookup key l.buckets)) [
    | inl missing ↦ ground (arith, missing, sweep-lookup fl at_ key l unique)
    | inr (b, found) ↦ ground (arith, found, sweep-lookup fl at_ key l unique)
  ]

  bucket_of-IsNonneg :
      (key : ℕ) (l : Limiter F)
      → FloatLaws fl l.window
      → IsValid fl l
      → IsNonneg fl (bucket_of key l).tokens
  unfolding bucket_of
  bucket_of-IsNonneg key l laws v = elim (Option-cases (Map.lookup key l.buckets)) [
    | inl missing ↦ rw (missing, bucket_of) laws.zero_nonneg
    | inr (b, found) ↦ rw (found, bucket_of) (v.nonneg key b found)
  ]

  sweep-balance :
      (at_ now : ℕ) (limit : ℤ) (key : ℕ) (l : Limiter F)
      → FloatLaws fl l.window
      → IsValid fl l
      → at_ ≤ now
      → ltb_ℤ (pos 0) limit ≡ true
      → balance now limit key (sweep at_ l) ≡ balance now limit key l
  unfolding balance sweep
  sweep-balance at_ now limit key l laws v later on =
      elim (Bool-cases (ltb (l.window * 2) (since at_ (bucket_of key l).last))) [
        | inl idle ↦
            let swept : bucket_of key (sweep at_ l) ≡ zero_bucket fl =
              ground (arith, idle, sweep-bucket_of at_ key l v.unique) in
            ap (refill fl now limit l.window) swept
            ∙ refill_full now limit l.window (zero_bucket fl) laws on laws.zero_nonneg (
                since_later (l.window * 2) now now none v.short (omega arith)
                  (unfold since in v.short))
            ∙ sym (
                refill_full now limit l.window (bucket_of key l) laws on
                  (bucket_of-IsNonneg key l laws v)
                  (since_later (l.window * 2) at_ now (bucket_of key l).last v.short later
                    (ground (arith, idle))))
        | inr busy ↦
            let kept : bucket_of key (sweep at_ l) ≡ bucket_of key l =
              ground (arith, busy, sweep-bucket_of at_ key l v.unique) in
            ap (refill fl now limit l.window) kept
      ]

  -- Two limiters that decide alike from a time on.
  pub record IsAlike (now : ℕ) (l l' : Limiter F) : Type 0 where
    pub window : l.window ≡ l'.window
    pub balances :
        (at_ : ℕ) (limit : ℤ) (key : ℕ)
        → now ≤ at_
        → ltb_ℤ (pos 0) limit ≡ true
        → balance at_ limit key l ≡ balance at_ limit key l'

  pub sweep-IsAlike :
      (now : ℕ) (l l' : Limiter F)
      → FloatLaws fl l.window
      → IsValid fl l
      → IsAlike now l l'
      → IsAlike now (sweep now l) l'
  unfolding sweep
  sweep-IsAlike now l l' laws v h = record {
    window = h.window;
    balances = λ at_ limit key later on.
        sweep-balance now at_ limit key l laws v later on ∙ h.balances at_ limit key later on;
  }

  -- The decision on a balance.
  unfoldable pub verdict : ℤ → ℕ → F → Bool × ℤ
  verdict limit w t = ((spend fl t).0, if (spend fl t).0 then pos 0 else retry_after fl limit w t)

  unfoldable pub after_spend : ℕ → F → Bucket F
  after_spend now t = record { tokens = (spend fl t).1; last = some now }

  -- A charge decides on the balance of its key and changes no other one.
  pub record IsCharged (now key : ℕ) (limit : ℤ) (l : Limiter F) (r : (Bool × ℤ) × Limiter F)
      : Type 0 where
    pub decision : r.0 ≡ verdict limit l.window (balance now limit key l)
    pub window : r.1.window ≡ l.window
    pub balances :
        (at_ : ℕ) (limit' : ℤ) (other : ℕ)
        → now ≤ at_
        → ltb_ℤ (pos 0) limit' ≡ true
        → balance at_ limit' other r.1 ≡ (
            if key == other
            then refill fl at_ limit' l.window (after_spend now (balance now limit key l))
            else balance at_ limit' other l)

  charge-bucket_of :
      (now key : ℕ) (limit : ℤ) (other : ℕ) (b : Bucket F) (l : Limiter F)
      → bucket_of other (charge fl now key limit (b, l)).1 ≡ (
          if key == other
          then after_spend now (refill fl now limit l.window b)
          else bucket_of other l)
  unfolding charge bucket_of after_spend
  charge-bucket_of now key limit other b l =
      ground (
        arith,
        lookup-insert key other (after_spend now (refill fl now limit l.window b)) l.buckets,
      )

  charge-balance :
      (now key : ℕ) (limit : ℤ) (at_ : ℕ) (limit' : ℤ) (other : ℕ) (w : ℕ) (b : Bucket F)
      (l : Limiter F)
      → l.window ≡ w
      → balance at_ limit' other (charge fl now key limit (b, l)).1 ≡ (
          if key == other
          then refill fl at_ limit' w (after_spend now (refill fl now limit w b))
          else balance at_ limit' other l)
  unfolding balance
  charge-balance now key limit at_ limit' other w b l same =
      let start : (charge fl now key limit (b, l)).1.window ≡ l.window = unfold charge in refl in
      ground (arith, start, same, charge-bucket_of now key limit other b l)

  charge-IsCharged :
      (now key : ℕ) (limit : ℤ) (l l' : Limiter F)
      → l'.window ≡ l.window
      → ((at_ : ℕ) (limit' : ℤ) (other : ℕ)
          → now ≤ at_
          → ltb_ℤ (pos 0) limit' ≡ true
          → balance at_ limit' other l' ≡ balance at_ limit' other l)
      → IsCharged now key limit l (charge fl now key limit (bucket_of key l, l'))
  unfolding balance
  charge-IsCharged now key limit l l' same h = record {
    decision =
        unfold charge verdict balance in
        ap (λ w. verdict limit w (refill fl now limit w (bucket_of key l))) same;
    window = unfold charge in same;
    balances = λ at_ limit' other later on.
        charge-balance now key limit at_ limit' other l.window (bucket_of key l) l' same
        ∙ ap
            (λ x.
              if key == other
              then refill fl at_ limit' l.window (after_spend now (balance now limit key l))
              else x)
            (h at_ limit' other later on);
  }

  pub allow-IsCharged :
      (now key : ℕ) (limit : ℤ) (l : Limiter F)
      → FloatLaws fl l.window
      → IsValid fl l
      → ltb_ℤ (pos 0) limit ≡ true
      → IsCharged now key limit l (allow fl now key limit l)
  unfolding allow bucket_of take_bucket
  allow-IsCharged now key limit l laws v on = elim (Option-cases (Map.lookup key l.buckets)) [
    | inr (b, found) ↦
        subst⁻¹ (IsCharged now key limit l) (ground (arith, on, found))
          (charge-IsCharged now key limit l l refl (λ at_ limit' other later on. refl))
    | inl missing ↦ elim (Bool-cases (leb max_keys (length l.buckets))) [
      | inl many ↦ subst⁻¹ (IsCharged now key limit l) (ground (arith, on, missing, many)) (
          charge-IsCharged now key limit l (sweep now l) (unfold sweep in refl)
            (λ at_ limit' other later on. sweep-balance now at_ limit' other l laws v later on))
      | inr few ↦
          subst⁻¹ (IsCharged now key limit l) (ground (arith, on, missing, few))
            (charge-IsCharged now key limit l l refl (λ at_ limit' other later on. refl))
    ]
  ]
