-- ===== src/Proxy/Recorder/Laws.antt =====
-- What the recorder keeps and what it passes on.
use proxy_sentinel.Base.Text.{Text}
use proxy_sentinel.Base.{
  ℕ, zero, suc, ◌-◌, ◌≤◌, ◌≡◌, refl, ap, ◌∙◌, sym, false, ◌++◌, List, [], ◌∷◌, ltb, if◌then◌else◌,
  length, take, arith, Bool-cases, inl, inr, length-append, length-take,
}
use proxy_sentinel.Proxy.Recorder.{
  Recorder, new_recorder, set_status, set_headers, write_header, min64, begin, write, Call,
  sets_status, sets_headers, writes_header, writes, call, calls, fresh_client,
}
use mathlib.Core.List.{append-nil, append_assoc}
use mathlib.Core.Path.{ap₂}
use native.Mathlib.Nat.{sub-zero, zero-sub}

take-append : (n : ℕ) (xs ys : Text) → take n (xs ++ ys) ≡ take n xs ++ take (n - length xs) ys
take-append n [] ys = rw (sub-zero n) (ap (λ t. t ++ take n ys) (sym (take-nil n)))
  where
    take-nil : (n : ℕ) → take {A = ℕ} n [] ≡ []
    take-nil zero = refl
    take-nil (suc n) = refl
take-append zero (x ∷ xs) ys = rw (zero-sub (suc (length xs)))
take-append (suc n) (x ∷ xs) ys =
    ap (◌∷◌ x) (take-append n xs ys ∙ ap (λ t. take n xs ++ take t ys) (omega arith))

take_all : (n : ℕ) (xs : Text) → length xs ≤ n → take n xs ≡ xs
take_all zero [] h = refl
take_all (suc n) [] h = refl
take_all zero (x ∷ xs) h = absurd (omega arith)
take_all (suc n) (x ∷ xs) h = ap (◌∷◌ x) (take_all n xs (omega arith))

take-min : (n : ℕ) (xs : Text) → take (min64 (length xs) n) xs ≡ take n xs
unfolding min64
take-min n xs = elim (Bool-cases (ltb (length xs) n)) [
  | inl less ↦
      rw less (take_all (length xs) xs (omega arith) ∙ sym (take_all n xs (ground (arith, less))))
  | inr more ↦ rw more
]

-- One write keeps the front of all that was written.
keep_front :
    (n : ℕ) (w b : Text)
    → (if ltb (length (take n w)) n
        then take n w ++ take (min64 (length b) (n - length (take n w))) b
        else take n w)
      ≡ take n (w ++ b)
keep_front n w b = elim (Bool-cases (ltb (length (take n w)) n)) [
  | inl room ↦
      let fits : length w ≤ n = ground (arith, room, length-take n w) in
      rw (room, take-min (n - length (take n w)) b, take_all n w fits)
        (sym (take-append n w b ∙ ap (λ t. t ++ take (n - length w) b) (take_all n w fits)))
  | inr full ↦ rw full (sym (take-append n w b ∙ rw (no_room n w full) (append-nil (take n w))))
]
  where
    no_room : (n : ℕ) (w : Text) → ltb (length (take n w)) n ≡ false → n - length w ≡ 0
    no_room n w full = ground (arith, full, length-take n w)

-- The body is the front of what was passed on, of at most `max_body` bytes; the status line is passed on
-- exactly when the recorder says so.
pub record IsFaithful (r : Recorder) : Type 0 where
  pub front : r.body ≡ take r.max_body r.client.written
  pub line : length r.client.codes ≡ (if r.wrote_header then 1 else 0)

new_recorder-IsFaithful : (max : ℕ) → IsFaithful (new_recorder fresh_client max)
unfolding new_recorder
new_recorder-IsFaithful zero = record { front = refl; line = refl }
new_recorder-IsFaithful (suc max) = record { front = refl; line = refl }

write_header-IsFaithful : (c : ℕ) (r : Recorder) → IsFaithful r → IsFaithful (write_header c r)
unfolding write_header
write_header-IsFaithful c r f = ground (arith, length-append r.client.codes (c ∷ []))

begin-IsFaithful : (r : Recorder) → IsFaithful r → IsFaithful (begin r)
unfolding begin
begin-IsFaithful r f = ground (arith, write_header-IsFaithful r.status r f)

write-IsFaithful : (b : Text) (r : Recorder) → IsFaithful r → IsFaithful (write b r)
unfolding write
write-IsFaithful b r f =
    let g = begin-IsFaithful r f in
    record {
      front = rw g.front (keep_front (begin r).max_body (begin r).client.written b);
      line = g.line;
    }

-- What the calls write, one after the other.
abbrev pub chunks : List Call → Text
chunks [] = []
chunks (writes b ∷ cs) = b ++ chunks cs
chunks (_ ∷ cs) = chunks cs

write_header_keeps :
    (c : ℕ) (r : Recorder)
    → ((write_header c r).client.written ≡ r.client.written)
      × ((write_header c r).max_body ≡ r.max_body)
unfolding write_header
write_header_keeps c r = ground arith

write_adds :
    (b : Text) (r : Recorder)
    → ((write b r).client.written ≡ r.client.written ++ b) × ((write b r).max_body ≡ r.max_body)
unfolding write begin
write_adds b r = ground (arith, write_header_keeps r.status r)

-- One call keeps the invariant, and adds its chunk to what was passed on.
call_lem :
    (r : Recorder) (c : Call)
    → IsFaithful r
    → IsFaithful (call r c)
      × ((call r c).client.written ≡ r.client.written ++ chunks (c ∷ []))
      × ((call r c).max_body ≡ r.max_body)
unfolding call set_status set_headers
call_lem r (sets_status s) f = (record { front = f.front; line = f.line }, sym (append-nil _), refl)
call_lem r (sets_headers h) f =
    (record { front = f.front; line = f.line }, sym (append-nil _), refl)
call_lem r (writes_header c) f =
    let (kept, same) = write_header_keeps c r in
    (write_header-IsFaithful c r f, kept ∙ sym (append-nil _), same)
call_lem r (writes b) f =
    let (added, same) = write_adds b r in (write-IsFaithful b r f, rw (append-nil b) added, same)

chunks-cons : (c : Call) (cs : List Call) → chunks (c ∷ cs) ≡ chunks (c ∷ []) ++ chunks cs
chunks-cons (sets_status s) cs = refl
chunks-cons (sets_headers h) cs = refl
chunks-cons (writes_header c) cs = refl
chunks-cons (writes b) cs = rw (append-nil b)

calls_lem :
    (r : Recorder) (cs : List Call)
    → IsFaithful r
    → IsFaithful (calls r cs)
      × ((calls r cs).client.written ≡ r.client.written ++ chunks cs)
      × ((calls r cs).max_body ≡ r.max_body)
unfolding calls
calls_lem r [] f = (f, sym (append-nil _), refl)
calls_lem r (c ∷ cs) f =
    let (g, added, same) = call_lem r c f in
    let (h, all, still) = calls_lem (call r c) cs g in
    (
      h,
      all
          ∙ ap (λ t. t ++ chunks cs) added
          ∙ append_assoc r.client.written (chunks (c ∷ [])) (chunks cs)
          ∙ ap (◌++◌ r.client.written) (sym (chunks-cons c cs)),
      still ∙ same,
    )

-- Whatever a handler calls on a new recorder, the client gets every byte that is written and at most
-- one status line, and the log keeps the front of those bytes up to the bound.
pub calls_faithful :
    (max : ℕ) (cs : List Call)
    → let r = calls (new_recorder fresh_client max) cs in
      (r.client.written ≡ chunks cs) × (r.body ≡ take max (chunks cs)) × (length r.client.codes ≤ 1)
unfolding new_recorder
calls_faithful max cs =
    let (f, all, same) =
      calls_lem (new_recorder fresh_client max) cs (new_recorder-IsFaithful max) in
    (all, f.front ∙ ap₂ take same all, ground (arith, f.line))
