-- ===== src/Logger/Delivery.antt =====
-- What becomes of the records on their way through the queue.
use mathlib.Core.Path.{subst}
use proxy_sentinel.Base.{
  ℕ, zero, suc, ◌+◌, ◌≤◌, ◌<◌, ◌≡◌, ◌⊎◌, inl, inr, refl, ◌∙◌, ap, Bool, true, false, List, [], ◌∷◌,
  ◌++◌, if◌then◌else◌, arith, length, take, drop, length-append, length-drop, length-take,
}
use proxy_sentinel.Logger.{
  Writer, Outcome, overflow, enqueue, stored, write_record, flush, flush_signalled,
}

module _ {ℓ} {A : Type ℓ} where
  take-drop : (n : ℕ) (xs : List A) → take n xs ++ drop n xs ≡ xs
  take-drop zero xs = refl
  take-drop (suc n) [] = refl
  take-drop (suc n) (x ∷ xs) = ap (◌∷◌ x) (take-drop n xs)

  drop_all : (xs : List A) → drop (length xs) xs ≡ []
  drop_all [] = refl
  drop_all (x ∷ xs) = drop_all xs

  overflow_fits : (w : Writer A) → overflow w ≤ length w.buffer
  unfolding overflow
  overflow_fits w = ground arith

  length-oldest : (w : Writer A) → length (take (overflow w) w.buffer) ≡ overflow w
  length-oldest w = omega (arith, length-take (overflow w) w.buffer, overflow_fits w)

  -- A queue with room gives way to nothing, a full one to its oldest 100 records, or to all if it has fewer.
  overflow_cases :
      (w : Writer A)
      → ((overflow w ≡ 0) × ((w.queue_capacity ≡ 0) ⊎ (length w.buffer < w.queue_capacity)))
        ⊎ ((0 < w.queue_capacity)
            × (w.queue_capacity ≤ length w.buffer)
            × ((overflow w ≡ 100) ⊎ ((overflow w < 100) × (overflow w ≡ length w.buffer))))
  unfolding overflow
  overflow_cases w = ground arith

  oldest_cases :
      (w : Writer A)
      → (overflow w ≡ 100) ⊎ ((overflow w < 100) × (overflow w ≡ length w.buffer))
      → let oldest = take (overflow w) w.buffer in
        (length oldest ≡ 100) ⊎ ((length oldest < 100) × (drop (overflow w) w.buffer ≡ []))
  oldest_cases w (inl many) = inl (length-oldest w ∙ many)
  oldest_cases w (inr (few, all)) =
      inr (omega (arith, few, length-oldest w), ap (λ n. drop n w.buffer) all ∙ drop_all w.buffer)

  enqueue_bound :
      (rec : A) (w : Writer A)
      → 0 < w.queue_capacity
      → length w.buffer ≤ w.queue_capacity
      → let o = enqueue rec w in
        (o.writer.queue_capacity ≡ w.queue_capacity) × (length o.writer.buffer ≤ w.queue_capacity)
  unfolding enqueue overflow
  enqueue_bound rec w limit fits = ground (
    arith,
    length-append (drop (overflow w) w.buffer) (rec ∷ []),
    length-drop (overflow w) w.buffer,
  )

-- What happens to a writer: a record that passes the sampling or not, and a flush by the clock or by the
-- signal.
pub data Event {ℓ} (A : Type ℓ) : Type ℓ where
  submits : Bool → A → Event A
  ticks signals : Event A

-- How a queue of `capacity` records, 0 for no limit, treats events: `lost` are the records that are given up,
-- `handed` those that are handed to the database, and `rest` those that wait in the end, each in order. `put`
-- is the record as it is stored.
pub data IsDelivery {ℓ} {A : Type ℓ} (capacity : ℕ) (put : A → A)
    : List A → List (Event A) → List A → List A → List A → Type ℓ where
  ends : (queue : List A) → IsDelivery capacity put queue [] [] [] queue
  skips :
      {queue lost handed rest : List A} {es : List (Event A)} (rec : A)
      → IsDelivery capacity put queue es lost handed rest
      → IsDelivery capacity put queue (submits false rec ∷ es) lost handed rest
  joins :
      {queue lost handed rest : List A} {es : List (Event A)} (rec : A)
      → (capacity ≡ 0) ⊎ (length queue < capacity)
      → IsDelivery capacity put (queue ++ put rec ∷ []) es lost handed rest
      → IsDelivery capacity put queue (submits true rec ∷ es) lost handed rest
  displaces :
      {queue lost handed rest : List A} {es : List (Event A)} (rec : A) (oldest kept : List A)
      → 0 < capacity
      → capacity ≤ length queue
      → oldest ++ kept ≡ queue
      → (length oldest ≡ 100) ⊎ ((length oldest < 100) × (kept ≡ []))
      → IsDelivery capacity put (kept ++ put rec ∷ []) es lost handed rest
      → IsDelivery capacity put queue (submits true rec ∷ es) (oldest ++ lost) handed rest
  hands_by_clock :
      (queue : List A) {lost handed rest : List A} {es : List (Event A)}
      → IsDelivery capacity put [] es lost handed rest
      → IsDelivery capacity put queue (ticks ∷ es) lost (queue ++ handed) rest
  hands_by_signal :
      (queue : List A) {lost handed rest : List A} {es : List (Event A)}
      → IsDelivery capacity put [] es lost handed rest
      → IsDelivery capacity put queue (signals ∷ es) lost (queue ++ handed) rest

module _ {ℓ} {A : Type ℓ} (mask stamp : A → A) where
  unfoldable pub step : Writer A → Event A → Outcome A
  step w (submits sampled rec) = write_record mask stamp sampled rec w
  step w ticks = flush w
  step w signals = flush_signalled w

  unfoldable pub run : Writer A → List (Event A) → Writer A
  run w [] = w
  run w (e ∷ es) = run (step w e).writer es

  -- The records that are handed to the database, and the numbers in the warnings.
  unfoldable pub handed : Writer A → List (Event A) → List A
  handed w [] = []
  handed w (e ∷ es) = (step w e).batch ++ handed (step w e).writer es

  unfoldable pub warned : Writer A → List (Event A) → ℕ
  warned w [] = 0
  warned w (e ∷ es) = (step w e).reported + warned (step w e).writer es

  -- The events are treated as a queue treats them, and the lost records are counted.
  pub record Delivers (w : Writer A) (es : List (Event A)) : Type ℓ where
    pub lost : List A
    pub treated :
        IsDelivery w.queue_capacity
          (λ rec. stamp (if w.mask_sensitive then mask rec else rec))
          w.buffer
          es
          lost
          (handed w es)
          (run w es).buffer
    pub counted : w.dropped_count + length lost ≡ warned w es + (run w es).dropped_count

  submits-Delivers :
      (w : Writer A) (rec : A) (es : List (Event A))
      → Delivers (enqueue (stored mask stamp w rec) w).writer es
      → Delivers w (submits true rec ∷ es)
  unfolding run handed warned step write_record enqueue stored
  submits-Delivers w rec es rest =
      let w' = (enqueue (stored mask stamp w rec) w).writer in
      elim (overflow_cases w) [
        | inl (nothing, room) ↦ record {
          lost = rest.lost;
          treated = joins rec room (
              subst
                (λ q.
                  IsDelivery w.queue_capacity (λ r. stamp (if w.mask_sensitive then mask r else r))
                    (q ++ stored mask stamp w rec ∷ []) es rest.lost (handed w' es)
                    (run w' es).buffer)
                (ap (λ n. drop n w.buffer) nothing) rest.treated);
          counted = omega (arith, nothing, rest.counted);
        }
        | inr (limited, full, many) ↦ record {
          lost = take (overflow w) w.buffer ++ rest.lost;
          treated =
              displaces rec (take (overflow w) w.buffer) (drop (overflow w) w.buffer) limited full
                (take-drop (overflow w) w.buffer) (oldest_cases w many) rest.treated;
          counted = omega (
            arith,
            length-append (take (overflow w) w.buffer) rest.lost,
            length-oldest w,
            rest.counted,
          );
        }
      ]

  -- Over any events, a record that passes the sampling joins the queue as it is stored. It displaces others
  -- only if the queue has a limit and is full, and then the oldest 100, or all if there are fewer. A flush
  -- hands all that waits to the database, in the order of arrival, and takes nothing else. The numbers in the
  -- warnings, with the count that waits to be reported, are those of the records that were given up.
  pub run-Delivers : (w : Writer A) (es : List (Event A)) → Delivers w es
  unfolding run handed warned step write_record flush flush_signalled
  run-Delivers w [] = record { lost = []; treated = ends w.buffer; counted = omega arith }
  run-Delivers w (submits true rec ∷ es) =
      submits-Delivers w rec es (run-Delivers (enqueue (stored mask stamp w rec) w).writer es)
  run-Delivers w (submits false rec ∷ es) =
      let rest = run-Delivers w es in
      record {
        lost = rest.lost;
        treated = skips rec rest.treated;
        counted = omega (arith, rest.counted);
      }
  run-Delivers w (ticks ∷ es) =
      let rest = run-Delivers (flush w).writer es in
      record {
        lost = rest.lost;
        treated = hands_by_clock w.buffer rest.treated;
        counted = omega (arith, rest.counted);
      }
  run-Delivers w (signals ∷ es) =
      let rest = run-Delivers (flush_signalled w).writer es in
      record {
        lost = rest.lost;
        treated = hands_by_signal w.buffer rest.treated;
        counted = omega (arith, rest.counted);
      }

  -- A queue with a limit never holds more records than its limit.
  pub run_bound :
      (w : Writer A) (es : List (Event A))
      → 0 < w.queue_capacity
      → length w.buffer ≤ w.queue_capacity
      → length (run w es).buffer ≤ w.queue_capacity
  unfolding run step write_record flush flush_signalled
  run_bound w [] limit fits = fits
  run_bound w (submits true rec ∷ es) limit fits =
      let rec' = stored mask stamp w rec in
      let (same, fits') = enqueue_bound rec' w limit fits in
      omega (
        arith,
        same,
        fits',
        run_bound (enqueue rec' w).writer es (omega (arith, same)) (omega (arith, same, fits')),
      )
  run_bound w (submits false rec ∷ es) limit fits = run_bound w es limit fits
  run_bound w (ticks ∷ es) limit fits =
      run_bound (flush w).writer es (unfold flush in limit) (unfold flush in omega arith)
  run_bound w (signals ∷ es) limit fits =
      run_bound (flush_signalled w).writer es (unfold flush_signalled flush in limit)
        (unfold flush_signalled flush in omega arith)
