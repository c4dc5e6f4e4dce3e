-- ===== src/Logger.antt =====
-- Writer of internal/logger/db.go: the queue of log records between the proxy and the database. The mutex
-- makes `Write` and `flush` one step each. The record's type, its masking and the sampling draw are
-- arguments, and so is the outcome of the insertion.
pub mod Delivery
pub mod Mask
use proxy_sentinel.Base.{
  ℕ, ◌+◌, Bool, true, false, ◌&&◌, List, [], ◌∷◌, ◌++◌, Option, none, some, leb, ltb, if◌then◌else◌,
  length, take, drop,
}

abbrev pub flush_batch : ℕ
flush_batch = 100

pub record Writer {ℓ} (A : Type ℓ) : Type ℓ where
  pub mask_sensitive : Bool
  pub queue_capacity : ℕ  -- 0 for no limit
  pub buffer : List A
  pub dropped_count : ℕ
  pub seq : ℕ
  pub flush_asked : Bool  -- the channel `flushCh`, which holds one signal

-- What a call lets go of: records for the database, the number in the warning, and the copy with its number
-- for the subscribers.
pub record Outcome {ℓ} (A : Type ℓ) : Type ℓ where
  pub writer : Writer A
  pub batch : List A
  pub reported : ℕ
  pub broadcast : Option (ℕ × A)

module _ {ℓ} {A : Type ℓ} where
  unfoldable pub new_writer : Bool → ℕ → Writer A
  new_writer mask_sensitive queue_capacity = record {
    mask_sensitive = mask_sensitive;
    queue_capacity = queue_capacity;
    buffer = [];
    dropped_count = 0;
    seq = 0;
    flush_asked = false;
  }

  -- How many of the oldest records give way to a new one.
  unfoldable pub overflow : Writer A → ℕ
  overflow w =
      if ltb 0 w.queue_capacity && leb w.queue_capacity (length w.buffer)
      then (if ltb (length w.buffer) flush_batch then length w.buffer else flush_batch)
      else 0

  -- `Write` from its lock on.
  unfoldable pub enqueue : A → Writer A → Outcome A
  enqueue rec w =
      let n = overflow w in
      let buffer = drop n w.buffer ++ rec ∷ [] in
      record {
        writer = record w {
          buffer = buffer;
          dropped_count = w.dropped_count + n;
          seq = w.seq + 1;
          flush_asked = if leb flush_batch (length buffer) then true else w.flush_asked;
        };
        batch = [];
        reported = 0;
        broadcast = some (w.seq + 1, rec);
      }

  -- The record as it is stored: masked if the writer masks, and with a time of its own.
  unfoldable pub stored : (A → A) → (A → A) → Writer A → A → A
  stored mask stamp w rec = stamp (if w.mask_sensitive then mask rec else rec)

  -- `Write`; `sampled` tells whether the record passes the sampling.
  unfoldable pub write_record : (A → A) → (A → A) → Bool → A → Writer A → Outcome A
  write_record mask stamp sampled rec w =
      if sampled
      then enqueue (stored mask stamp w rec) w
      else record { writer = w; batch = []; reported = 0; broadcast = none }

  unfoldable pub flush : Writer A → Outcome A
  flush w = record {
    writer = record w { buffer = []; dropped_count = 0 };
    batch = w.buffer;
    reported = w.dropped_count;
    broadcast = none;
  }

  -- The case of `run` that takes the signal from the channel.
  unfoldable pub flush_signalled : Writer A → Outcome A
  flush_signalled w = flush (record w { flush_asked = false })
