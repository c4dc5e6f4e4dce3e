-- ===== src/Ratelimit/Validity.antt =====
-- What the floating point numbers are relied on for, and the invariant of the limiter: no bucket is in debt.
use mathlib.Core.Path.{subst, subst⁻¹}
use proxy_sentinel.Base.Int.{ℤ, pos, ltb_ℤ}
use proxy_sentinel.Base.Map
use proxy_sentinel.Base.Map.{
  IsUnique, lookup-insert, lookup-erase, lookup-keep_values, insert-IsUnique, erase-IsUnique,
  keep_values-IsUnique,
}
use proxy_sentinel.Base.{
  ℕ, ◌-◌, ◌*◌, ◌^◌, ◌<◌, ◌≡◌, ◌∙◌, ap, inl, inr, refl, true, not, none, some, arith, ltb, leb, ◌==◌,
  nat_eq, if◌then◌else◌, length, Bool-cases, Option-cases,
}
use proxy_sentinel.Ratelimit.{
  Floats, Bucket, Limiter, max_keys, since, sweep, remove, zero_bucket, take_bucket, rate, refill,
  spend, charge, allow,
}

module _ {F : Type 0} (fl : Floats F) where
  abbrev pub IsNonneg : F → Type 0
  IsNonneg x = fl.le (fl.of_int (pos 0)) x ≡ true

  -- The order of the numbers, for a window: two windows are long enough to refill any bucket.
  pub record FloatLaws (window : ℕ) : Type 0 where
    pub zero_nonneg : IsNonneg (fl.of_int (pos 0))
    pub limit_nonneg : (limit : ℤ) → ltb_ℤ (pos 0) limit ≡ true → IsNonneg (fl.of_int limit)
    pub gain_nonneg :
        (limit : ℤ) (time : ℕ)
        → ltb_ℤ (pos 0) limit ≡ true
        → IsNonneg (fl.mul (fl.seconds time) (fl.div (fl.of_int limit) (fl.seconds window)))
    pub add_nonneg : (x y : F) → IsNonneg x → IsNonneg y → IsNonneg (fl.add x y)
    pub min_nonneg : (x y : F) → IsNonneg x → IsNonneg y → IsNonneg (fl.min x y)
    pub sub_nonneg :
        (x : F) → fl.le (fl.of_int (pos 1)) x ≡ true → IsNonneg (fl.sub x (fl.of_int (pos 1)))
    pub gain_full :
        (limit : ℤ) (time : ℕ)
        → ltb_ℤ (pos 0) limit ≡ true
        → window * 2 < time
        → fl.le
            (fl.of_int limit)
            (fl.mul (fl.seconds time) (fl.div (fl.of_int limit) (fl.seconds window)))
          ≡ true
    pub add_le : (l x y : F) → IsNonneg x → fl.le l y ≡ true → fl.le l (fl.add x y) ≡ true
    pub min_le : (l x : F) → fl.le l x ≡ true → fl.min l x ≡ l

  pub record IsValid (l : Limiter F) : Type 0 where
    pub short : l.window * 2 < 2 ^ 63 - 1
    pub unique : IsUnique l.buckets
    pub nonneg : (key : ℕ) (b : Bucket F) → Map.lookup key l.buckets ≡ some b → IsNonneg b.tokens

  pub sweep-lookup :
      (at_ key : ℕ) (l : Limiter F)
      → IsUnique l.buckets
      → Map.lookup key (sweep at_ l).buckets ≡ elim (Map.lookup key l.buckets) [
        | none ↦ none
        | some b ↦ if not (ltb (l.window * 2) (since at_ b.last)) then some b else none
      ]
  unfolding sweep
  sweep-lookup at_ key l unique =
      lookup-keep_values (λ b. not (ltb (l.window * 2) (since at_ b.last))) key l.buckets unique

  pub sweep-IsValid : (now : ℕ) (l : Limiter F) → IsValid l → IsValid (sweep now l)
  unfolding sweep
  sweep-IsValid now l v = record {
    short = v.short;
    unique =
        keep_values-IsUnique (λ b. not (ltb (l.window * 2) (since now b.last))) l.buckets v.unique;
    nonneg = λ key b found. elim (Option-cases (Map.lookup key l.buckets)) [
      | inl missing ↦ absurd (ground (arith, missing, found, sweep-lookup now key l v.unique))
      | inr (b', there) ↦
          let same : b' ≡ b = ground (arith, there, found, sweep-lookup now key l v.unique) in
          v.nonneg key b (there ∙ ap some same)
    ];
  }

  pub remove-IsValid : (key : ℕ) (l : Limiter F) → IsValid l → IsValid (remove key l)
  unfolding remove
  remove-IsValid key l v = record {
    short = v.short;
    unique = erase-IsUnique key l.buckets v.unique;
    nonneg =
        λ other b found. v.nonneg other b (ground (arith, found, lookup-erase key other l.buckets));
  }

  -- What is taken for a key: its bucket or a new one, and a limiter that is swept or the same.
  abbrev pub IsTaken : ℕ → Bucket F × Limiter F → Type 0
  IsTaken window (b, l) = IsValid l × IsNonneg b.tokens × (l.window ≡ window)

  taken : {w : ℕ} {r r' : Bucket F × Limiter F} → IsTaken w r' → r ≡ r' → IsTaken w r
  taken {w} h e = subst⁻¹ (IsTaken w) e h

  pub take_bucket-IsTaken :
      (now key : ℕ) (l : Limiter F)
      → FloatLaws l.window
      → IsValid l
      → IsTaken l.window (take_bucket fl now key l)
  unfolding take_bucket
  take_bucket-IsTaken now key l laws v = elim (Option-cases (Map.lookup key l.buckets)) [
    | inr (b, found) ↦
        taken {r = take_bucket fl now key l} {r' = (b, l)} (v, v.nonneg key b found, refl)
          (ground (arith, found))
    | inl missing ↦ elim (Bool-cases (leb max_keys (length l.buckets))) [
      | inl many ↦
          taken {r = take_bucket fl now key l} {r' = (zero_bucket fl, sweep now l)}
            (sweep-IsValid now l v, laws.zero_nonneg, (unfold sweep in refl))
            (ground (arith, missing, many))
      | inr few ↦
          taken {r = take_bucket fl now key l} {r' = (zero_bucket fl, l)}
            (v, laws.zero_nonneg, refl) (ground (arith, missing, few))
    ]
  ]

  refill-IsNonneg :
      (now : ℕ) (limit : ℤ) (w : ℕ) (b : Bucket F)
      → FloatLaws w
      → ltb_ℤ (pos 0) limit ≡ true
      → IsNonneg b.tokens
      → IsNonneg (refill fl now limit w b)
  unfolding refill rate
  refill-IsNonneg now limit w b laws on h =
      let gain = fl.mul (fl.seconds (since now b.last)) (fl.div (fl.of_int limit) (fl.seconds w)) in
      laws.min_nonneg (fl.of_int limit) (fl.add b.tokens gain) (laws.limit_nonneg limit on)
        (laws.add_nonneg b.tokens gain h (laws.gain_nonneg limit (since now b.last) on))

  spend-IsNonneg : (w : ℕ) (t : F) → FloatLaws w → IsNonneg t → IsNonneg (spend fl t).1
  unfolding spend
  spend-IsNonneg w t laws h = elim (Bool-cases (fl.le (fl.of_int (pos 1)) t)) [
    | inl enough ↦ rw enough (laws.sub_nonneg t enough)
    | inr poor ↦ rw poor h
  ]

  charge-IsValid :
      (now key : ℕ) (limit : ℤ) (w : ℕ) (r : Bucket F × Limiter F)
      → FloatLaws w
      → ltb_ℤ (pos 0) limit ≡ true
      → IsTaken w r
      → IsValid (charge fl now key limit r).1
  unfolding charge
  charge-IsValid now key limit w (b, l) laws on (v, h, same) =
      let laws' = subst⁻¹ FloatLaws same laws in
      let left =
        spend-IsNonneg l.window (refill fl now limit l.window b) laws'
          (refill-IsNonneg now limit l.window b laws' on h) in
      let new : Bucket F = record {
        tokens = (spend fl (refill fl now limit l.window b)).1;
        last = some now;
      } in
      record {
        short = v.short;
        unique = insert-IsUnique key new l.buckets v.unique;
        nonneg = λ other c found. elim (Bool-cases (key == other)) [
          | inl hit ↦
              let it : new ≡ c =
                ground (arith, hit, found, lookup-insert key other new l.buckets) in
              subst (λ x. IsNonneg x.tokens) it left
          | inr miss ↦
              v.nonneg other c (ground (arith, miss, found, lookup-insert key other new l.buckets))
        ];
      }

  pub allow-IsValid :
      (now key : ℕ) (limit : ℤ) (l : Limiter F)
      → FloatLaws l.window
      → IsValid l
      → IsValid (allow fl now key limit l).1
  unfolding allow
  allow-IsValid now key limit l laws v = elim (Bool-cases (ltb_ℤ (pos 0) limit)) [
    | inr off ↦ subst⁻¹ IsValid (ground (arith, off)) v
    | inl on ↦ subst⁻¹ IsValid (ground (arith, on)) (
        charge-IsValid now key limit l.window (take_bucket fl now key l) laws on
          (take_bucket-IsTaken now key l laws v))
  ]
