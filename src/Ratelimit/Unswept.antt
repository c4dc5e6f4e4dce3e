-- ===== src/Ratelimit/Unswept.antt =====
-- Sweeping is a matter of memory only: the decisions are those of a limiter that is never swept.
use mathlib.Core.Path.{subst⁻¹}
use proxy_sentinel.Base.Int.{ℤ, pos, ltb_ℤ}
use proxy_sentinel.Base.{
  ℕ, ◌≤◌, ◌≡◌, ◌∙◌, sym, ap, inl, inr, refl, Bool, true, List, [], ◌∷◌, arith, Bool-cases, ◌==◌,
  nat_eq, if◌then◌else◌,
}
use proxy_sentinel.Ratelimit.{Floats, Limiter, sweep, refill, allow}
use proxy_sentinel.Ratelimit.Validity.{FloatLaws, IsValid, sweep-IsValid, allow-IsValid}
use proxy_sentinel.Ratelimit.Sweeping.{
  IsAlike, sweep-IsAlike, IsCharged, allow-IsCharged, balance, verdict, after_spend,
}

-- A request of a key under a limit, or a tick of the sweeper, at a time.
pub data Event : Type 0 where
  asks : ℕ → ℕ → ℤ → Event
  sweeps : ℕ → Event

unfoldable pub time_of : Event → ℕ
time_of (asks now key limit) = now
time_of (sweeps now) = now

-- The events are in the order of their times, from a time on.
unfoldable pub IsOrdered : ℕ → List Event → Type 0
unfolding time_of
IsOrdered now [] = Unit
IsOrdered now (e ∷ es) = (now ≤ time_of e) × IsOrdered (time_of e) es

unfoldable pub unswept : List Event → List Event
unswept [] = []
unswept (asks now key limit ∷ es) = asks now key limit ∷ unswept es
unswept (sweeps now ∷ es) = unswept es

module _ {F : Type 0} (fl : Floats F) where
  -- The decisions on the requests, in order.
  unfoldable pub decisions : List Event → Limiter F → List (Bool × ℤ)
  decisions [] l = []
  decisions (asks now key limit ∷ es) l =
      let (decision, l') = allow fl now key limit l in decision ∷ decisions es l'
  decisions (sweeps now ∷ es) l = decisions es (sweep now l)

  later-IsAlike :
      (now after : ℕ) (l l' : Limiter F) → now ≤ after → IsAlike fl now l l' → IsAlike fl after l l'
  later-IsAlike now after l l' late h = record {
    window = h.window;
    balances = λ at_ limit key later on. h.balances at_ limit key (omega arith) on;
  }

  charged-IsAlike :
      (now key : ℕ) (limit : ℤ) (l l' : Limiter F) (r r' : (Bool × ℤ) × Limiter F)
      → ltb_ℤ (pos 0) limit ≡ true
      → IsAlike fl now l l'
      → IsCharged fl now key limit l r
      → IsCharged fl now key limit l' r'
      → (r.0 ≡ r'.0) × IsAlike fl now r.1 r'.1
  charged-IsAlike now key limit l l' r r' on h c c' =
      let same = h.balances now limit key (omega arith) on in
      (
        c.decision
            ∙ ap (λ w. verdict fl limit w (balance fl now limit key l)) h.window
            ∙ ap (verdict fl limit l'.window) same
            ∙ sym c'.decision,
        record {
          window = c.window ∙ h.window ∙ sym c'.window;
          balances = λ at_ limit' other later on'.
              c.balances at_ limit' other later on'
              ∙ ap
                  (λ w.
                    if key == other
                    then refill fl at_ limit' w (after_spend fl now (balance fl now limit key l))
                    else balance fl at_ limit' other l)
                  h.window
              ∙ ap
                  (λ t.
                    if key == other
                    then refill fl at_ limit' l'.window (after_spend fl now t)
                    else balance fl at_ limit' other l)
                  same
              ∙ ap
                  (λ t.
                    if key == other
                    then refill fl at_ limit' l'.window
                        (after_spend fl now (balance fl now limit key l'))
                    else t)
                  (h.balances at_ limit' other later on')
              ∙ sym (c'.balances at_ limit' other later on');
        },
      )

  allow-IsAlike :
      (now key : ℕ) (limit : ℤ) (l l' : Limiter F)
      → FloatLaws fl l.window
      → FloatLaws fl l'.window
      → IsValid fl l
      → IsValid fl l'
      → IsAlike fl now l l'
      → ((allow fl now key limit l).0 ≡ (allow fl now key limit l').0)
        × IsAlike fl now (allow fl now key limit l).1 (allow fl now key limit l').1
  allow-IsAlike now key limit l l' laws laws' v v' h = elim (Bool-cases (ltb_ℤ (pos 0) limit)) [
    | inl on ↦
        charged-IsAlike now key limit l l' (allow fl now key limit l) (allow fl now key limit l') on
          h (allow-IsCharged fl now key limit l laws v on)
          (allow-IsCharged fl now key limit l' laws' v' on)
    | inr off ↦
        let free : (x : Limiter F) → allow fl now key limit x ≡ ((true, pos 0), x) =
          λ x. unfold allow in ground (arith, off) in
        rw (free l, free l') (refl, h)
  ]

  pub allow-window :
      (now key : ℕ) (limit : ℤ) (l : Limiter F)
      → FloatLaws fl l.window
      → IsValid fl l
      → (allow fl now key limit l).1.window ≡ l.window
  allow-window now key limit l laws v = elim (Bool-cases (ltb_ℤ (pos 0) limit)) [
    | inl on ↦ (allow-IsCharged fl now key limit l laws v on).window
    | inr off ↦ unfold allow in ground (arith, off)
  ]

  decisions-alike :
      (now : ℕ) (es : List Event) (l l' : Limiter F)
      → IsOrdered now es
      → FloatLaws fl l.window
      → FloatLaws fl l'.window
      → IsValid fl l
      → IsValid fl l'
      → IsAlike fl now l l'
      → decisions es l ≡ decisions (unswept es) l'
  unfolding IsOrdered decisions unswept
  decisions-alike now [] l l' order laws laws' v v' h = refl
  decisions-alike now (asks at_ key limit ∷ es) l l' (late, order) laws laws' v v' h =
      let (same, alike) =
        allow-IsAlike at_ key limit l l' laws laws' v v' (later-IsAlike now at_ l l' late h) in
      let rest =
        decisions-alike at_ es (allow fl at_ key limit l).1 (allow fl at_ key limit l').1 order
          (subst⁻¹ (FloatLaws fl) (allow-window at_ key limit l laws v) laws)
          (subst⁻¹ (FloatLaws fl) (allow-window at_ key limit l' laws' v') laws')
          (allow-IsValid fl at_ key limit l laws v) (allow-IsValid fl at_ key limit l' laws' v')
          alike in
      ap (λ d. d ∷ decisions es (allow fl at_ key limit l).1) same
      ∙ ap (λ ds. (allow fl at_ key limit l').0 ∷ ds) rest
  decisions-alike now (sweeps at_ ∷ es) l l' (late, order) laws laws' v v' h =
      decisions-alike at_ es (sweep at_ l) l' order (unfold sweep in laws) laws'
        (sweep-IsValid fl at_ l v) v'
        (sweep-IsAlike fl at_ l l' laws v (later-IsAlike now at_ l l' late h))

  -- For requests and ticks of the sweeper in the order of their times, a limiter without debts decides on
  -- the requests, with the waiting times, as it would without the ticks.
  pub decisions-unswept :
      (now : ℕ) (es : List Event) (l : Limiter F)
      → IsOrdered now es
      → FloatLaws fl l.window
      → IsValid fl l
      → decisions es l ≡ decisions (unswept es) l
  decisions-unswept now es l order laws v =
      decisions-alike now es l l order laws laws v v
        (record { window = refl; balances = λ at_ limit key later on. refl })
