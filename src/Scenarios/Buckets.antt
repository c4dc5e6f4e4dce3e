-- ===== src/Scenarios/Buckets.antt =====
-- A limiter of one second that counts in whole numbers, for floating point ones.
use proxy_sentinel.Base.Int.{pos, pos_part}
use proxy_sentinel.Base.Map
use proxy_sentinel.Base.Map.{IsUnique}
use proxy_sentinel.Base.{
  ℕ, zero, suc, ◌+◌, ◌-◌, ◌*◌, ◌/◌, ◌≤◌, ◌≡◌, refl, true, List, [], ◌∷◌, arith, leb, nat_eq,
  if◌then◌else◌,
}
use proxy_sentinel.Ratelimit.{Floats, Limiter}
use proxy_sentinel.Ratelimit.Validity.{FloatLaws, IsValid}
use proxy_sentinel.Ratelimit.Unswept.{
  Event, asks, sweeps, IsOrdered, time_of, unswept, decisions, decisions-unswept,
}
use proxy_sentinel.Ratelimit.Burst.{CountLaws, burst, burst_bound}

abbrev pub whole : Floats ℕ
whole = record {
  of_int = pos_part;
  add = λ x y. x + y;
  sub = λ x y. x - y;
  mul = λ x y. x * y;
  div = λ x y. x / y;
  min = λ x y. if leb x y then x else y;
  le = leb;
  seconds = λ t. t / 1_000_000_000;
  nanos = λ x. pos (x * 1_000_000_000);
}

abbrev pub second : ℕ
second = 1_000_000_000

times_more : (s n : ℕ) → 1 ≤ s → leb n (s * (n / 1)) ≡ true
times_more zero n h = absurd (omega arith)
times_more (suc s) n h = ground arith

whole-FloatLaws : FloatLaws whole second
whole-FloatLaws = record {
  zero_nonneg = refl;
  limit_nonneg = λ limit on. ground arith;
  gain_nonneg = λ limit time on. ground arith;
  add_nonneg = λ x y hx hy. ground arith;
  min_nonneg = λ x y hx hy. ground arith;
  sub_nonneg = λ x h. ground arith;
  gain_full =
      λ limit time on late. times_more (time / 1_000_000_000) (pos_part limit) (omega arith);
  add_le = λ l x y hx h. ground arith;
  min_le = λ l x h. ground arith;
}

whole-CountLaws : CountLaws whole
whole-CountLaws = record {
  count_le = λ n x h one. ground arith;
  count_sub = λ n x one small h. ground arith;
  min_left = λ x y. ground arith;
  min_right = λ x y. ground arith;
  le_trans = λ x y z a b. ground arith;
  no_gain = λ x y. ground arith;
}

abbrev pub empty : Limiter ℕ
empty = record { window = second; buckets = [] }

empty-IsValid : IsValid whole empty
unfolding IsUnique Map.lookup
empty-IsValid = record {
  short = omega arith;
  unique = tt;
  nonneg = λ key b found. absurd (ground (arith, found));
}

-- Two requests, a sweep that drops the idle bucket, and a request behind it.
abbrev day : List Event
day = asks 0 7 (pos 2) ∷ asks 5 7 (pos 2) ∷ sweeps 3_000_000_000 ∷ asks 3_000_000_001 7 (pos 2) ∷ []

in_order : IsOrdered 0 day
unfolding IsOrdered time_of
in_order = (omega arith, (omega arith, (omega arith, (omega arith, tt))))

decisions-unswept_example : decisions whole day empty ≡ decisions whole (unswept day) empty
decisions-unswept_example =
    decisions-unswept whole 0 day empty in_order whole-FloatLaws empty-IsValid

burst_bound_example : burst whole 4 7 (pos 2) 5 empty ≤ 2
burst_bound_example =
    burst_bound whole 4 7 2 5 empty whole-CountLaws whole-FloatLaws empty-IsValid (omega arith)
      (omega arith)
