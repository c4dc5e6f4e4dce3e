-- ===== src/Ratelimit/Burst.antt =====
-- How many requests a bucket lets pass at one time.
use mathlib.Core.Path.{subst, subst⁻¹}
use proxy_sentinel.Base.Int.{ℤ, pos, ltb_ℤ}
use proxy_sentinel.Base.{
  ◌^◌, ℕ, zero, suc, ◌+◌, ◌-◌, ◌≤◌, ◌<◌, ◌≡◌, ◌∙◌, sym, ap, inl, inr, refl, true, arith, Bool-cases,
  nat_eq, if◌then◌else◌,
}
use proxy_sentinel.Ratelimit.{Floats, Bucket, Limiter, since, rate, refill, spend, allow}
use proxy_sentinel.Ratelimit.Validity.{FloatLaws, IsValid, allow-IsValid}
use proxy_sentinel.Ratelimit.Sweeping.{allow-IsCharged, bucket_of, balance, verdict, after_spend}
use proxy_sentinel.Ratelimit.Unswept.{allow-window}

module _ {F : Type 0} (fl : Floats F) where
  -- The whole numbers up to 2^53 are exact, and no time brings no gain.
  pub record CountLaws : Type 0 where
    pub count_le :
        (n : ℕ) (x : F)
        → fl.le x (fl.of_int (pos n)) ≡ true
        → fl.le (fl.of_int (pos 1)) x ≡ true
        → 1 ≤ n
    pub count_sub :
        (n : ℕ) (x : F)
        → 1 ≤ n
        → n ≤ 2 ^ 53
        → fl.le x (fl.of_int (pos n)) ≡ true
        → fl.le (fl.sub x (fl.of_int (pos 1))) (fl.of_int (pos (n - 1))) ≡ true
    pub min_left : (x y : F) → fl.le (fl.min x y) x ≡ true
    pub min_right : (x y : F) → fl.le (fl.min x y) y ≡ true
    pub le_trans : (x y z : F) → fl.le x y ≡ true → fl.le y z ≡ true → fl.le x z ≡ true
    pub no_gain : (x y : F) → fl.add x (fl.mul (fl.seconds 0) y) ≡ x

  -- How many of `n` requests of a key pass at one time.
  unfoldable pub burst : ℕ → ℕ → ℤ → ℕ → Limiter F → ℕ
  burst now key limit zero l = 0
  burst now key limit (suc n) l =
      let (decision, l') = allow fl now key limit l in
      (if decision.0 then 1 else 0) + burst now key limit n l'

  -- At the same time a charged bucket holds no more than is left in it.
  refill_same :
      (now : ℕ) (limit : ℤ) (w : ℕ) (t : F)
      → CountLaws
      → fl.le (refill fl now limit w (after_spend fl now t)) (spend fl t).1 ≡ true
  unfolding refill after_spend since
  refill_same now limit w t laws =
      let left = (spend fl t).1 in
      let now_ : now - now ≡ 0 = omega arith in
      let gain : fl.add left (fl.mul (fl.seconds (now - now)) (rate fl limit w)) ≡ left =
        ap (λ d. fl.add left (fl.mul (fl.seconds d) (rate fl limit w))) now_
        ∙ laws.no_gain left (rate fl limit w) in
      subst
        (λ x.
          fl.le
            (fl.min (fl.of_int limit)
              (fl.add left (fl.mul (fl.seconds (now - now)) (rate fl limit w))))
            x
          ≡ true)
        gain
        (laws.min_right (fl.of_int limit)
          (fl.add left (fl.mul (fl.seconds (now - now)) (rate fl limit w))))

  refill_within :
      (now : ℕ) (limit : ℤ) (w : ℕ) (b : Bucket F)
      → CountLaws
      → fl.le (refill fl now limit w b) (fl.of_int limit) ≡ true
  unfolding refill
  refill_within now limit w b laws =
      laws.min_left (fl.of_int limit)
        (fl.add b.tokens (fl.mul (fl.seconds (since now b.last)) (rate fl limit w)))

  spend_pays :
      (t : F) (k : ℕ)
      → CountLaws
      → k ≤ 2 ^ 53
      → fl.le t (fl.of_int (pos k)) ≡ true
      → (passed : ℕ) × (passed ≡ (if (spend fl t).0 then 1 else 0))
        × (passed ≤ k)
        × (fl.le (spend fl t).1 (fl.of_int (pos (k - passed))) ≡ true)
  unfolding spend
  spend_pays t k laws exact h = elim (Bool-cases (fl.le (fl.of_int (pos 1)) t)) [
    | inl enough ↦ rw enough (
      1,
      refl,
      laws.count_le k t h enough,
      laws.count_sub k t (laws.count_le k t h enough) exact h,
    )
    | inr poor ↦
        let none_ : k ≡ k - 0 = omega arith in
        rw poor (0, refl, omega arith, subst (λ j. fl.le t (fl.of_int (pos j)) ≡ true) none_ h)
  ]

  burst_within :
      (now key : ℕ) (limit : ℤ) (n k : ℕ) (l : Limiter F)
      → CountLaws
      → FloatLaws fl l.window
      → IsValid fl l
      → ltb_ℤ (pos 0) limit ≡ true
      → k ≤ 2 ^ 53
      → fl.le (balance fl now limit key l) (fl.of_int (pos k)) ≡ true
      → burst now key limit n l ≤ k
  unfolding burst
  burst_within now key limit zero k l count laws v on exact h = omega arith
  burst_within now key limit (suc n) k l count laws v on exact h =
      let c = allow-IsCharged fl now key limit l laws v on in
      let t = balance fl now limit key l in
      let (passed, which, within, left) = spend_pays t k count exact h in
      let l' = (allow fl now key limit l).1 in
      let next : balance fl now limit key l' ≡ refill fl now limit l.window (after_spend fl now t) =
        c.balances now limit key (omega arith) on ∙ ground arith in
      let below =
        count.le_trans (refill fl now limit l.window (after_spend fl now t)) (spend fl t).1
          (fl.of_int (pos (k - passed))) (refill_same now limit l.window t count) left in
      let rest =
        burst_within now key limit n (k - passed) l' count
          (subst⁻¹ (FloatLaws fl) (allow-window fl now key limit l laws v) laws)
          (allow-IsValid fl now key limit l laws v) on (within_exact within exact)
          (subst⁻¹ (λ x. fl.le x (fl.of_int (pos (k - passed))) ≡ true) next below) in
      let verdict_ : (allow fl now key limit l).0.0 ≡ (spend fl t).0 =
        unfold verdict in ap (λ d. d.0) c.decision in
      let counted : (if (allow fl now key limit l).0.0 then 1 else 0) ≡ passed =
        ap (λ b. if b then 1 else 0) verdict_ ∙ sym which in
      omega (arith, counted, rest, within)
    where
      within_exact : {passed : ℕ} → passed ≤ k → k ≤ 2 ^ 53 → k - passed ≤ 2 ^ 53
      within_exact p e = omega arith

  -- In a limiter whose buckets are unique and hold no debts, under a limit from 1 to 2^53: however many
  -- requests of a key come at one time, at most as many pass as the limit says.
  pub burst_bound :
      (now key limit n : ℕ) (l : Limiter F)
      → CountLaws
      → FloatLaws fl l.window
      → IsValid fl l
      → 0 < limit
      → limit ≤ 2 ^ 53
      → burst now key (pos limit) n l ≤ limit
  burst_bound now key limit n l count laws v on exact =
      burst_within now key (pos limit) n limit l count laws v (ground arith) exact
        (unfold balance in refill_within now (pos limit) l.window (bucket_of fl key l) count)
