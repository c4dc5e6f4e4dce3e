-- ===== src/Alert/Sending.antt =====
-- When alerts are sent and when they are held back.
use proxy_sentinel.Base.Int.{pos_part}
use proxy_sentinel.Base.Map
use proxy_sentinel.Base.Map.{lookup-insert}
use proxy_sentinel.Base.Affix.{text_eq_iff}
use proxy_sentinel.Base.Text.{Text}
use proxy_sentinel.Base.{
  ℕ, ◌-◌, ◌*◌, ◌≡◌, inl, inr, refl, Bool, true, false, not, List, [], ◌∷◌, ◌++◌, Option, none, some,
  arith, ltb, nat_eq, list_eq, if◌then◌else◌, All, Exists, Bool-cases,
}
use proxy_sentinel.Proxy.Balancer.{BackendStat}
use proxy_sentinel.Alert.{
  Floats, Rules, Engine, Send, minute, down_key, up_key, snapshot, deliver, is_silent, fire, notice,
  watch, check_backends,
}

module _ {F : Type 0} (fl : Floats F) where
  fire_sent :
      (now : ℕ) (send : Send) (r : Rules F) (key : Text) (e : Engine)
      → (fire fl now send r key e).1 ≡ key ∷ []
      → (send key ≡ true)
        × ((fire fl now send r key e).0 ≡ record e { last_sent = Map.insert key now e.last_sent })
  unfolding fire deliver
  fire_sent now send r key e sent = ground (arith, sent)

  -- When an alert has been sent, the same alert is held back until the silence is over, and then sent again
  -- if the webhook takes it.
  pub fire_again :
      (now later : ℕ) (send : Send) (r : Rules F) (key : Text) (e : Engine)
      → (fire fl now send r key e).1 ≡ key ∷ []
      → (fire fl later send r key (fire fl now send r key e).0).1
        ≡ (if ltb (later - now) (pos_part r.silence_minutes * minute) then [] else key ∷ [])
  unfolding fire deliver is_silent
  fire_again now later send r key e sent = ground (
    arith,
    sent,
    fire_sent now send r key e sent,
    lookup-insert key key now e.last_sent,
    text_eq_iff key key,
  )

  -- An alert is about one backend of this round: its state was known, is another one now, and the alert
  -- says which.
  abbrev pub IsChange : List (Text × Bool) → Text → Text × Bool → Type 0
  IsChange prev key (url, up) =
      (Map.lookup url prev ≡ some (not up)) × (key ≡ (if up then up_key url else down_key url))

  deliver_keys :
      (P : Text → Type 0) (now : ℕ) (send : Send) (key : Text) (e : Engine)
      → P key
      → All P (deliver now send key e).1
  unfolding deliver
  deliver_keys P now send key e h = elim (Bool-cases (send key)) [
    | inl took ↦ rw (took, deliver) (h, tt)
    | inr broke ↦ rw (broke, deliver) tt
  ]

  fire_keys :
      (P : Text → Type 0) (now : ℕ) (send : Send) (r : Rules F) (key : Text) (e : Engine)
      → P key
      → All P (fire fl now send r key e).1
  unfolding fire
  fire_keys P now send r key e h =
      elim (Bool-cases (is_silent fl now r (Map.lookup key e.last_sent))) [
        | inl silent ↦ rw (silent, fire) tt
        | inr due ↦ rw (due, fire) (deliver_keys P now send key e h)
      ]

  notice_keys :
      (now : ℕ) (send : Send) (r : Rules F) (prev : List (Text × Bool)) (url : Text) (up : Bool)
      (o : Option Bool) (e : Engine)
      → Map.lookup url prev ≡ o
      → All (λ key. IsChange prev key (url, up)) (notice fl now send r url o up e).1
  unfolding notice
  notice_keys now send r prev url up none e h = tt
  notice_keys now send r prev url true (some true) e h = tt
  notice_keys now send r prev url false (some false) e h = tt
  notice_keys now send r prev url false (some true) e h =
      fire_keys (λ key. IsChange prev key (url, false)) now send r (down_key url) e (h, refl)
  notice_keys now send r prev url true (some false) e h =
      deliver_keys (λ key. IsChange prev key (url, true)) now send (up_key url)
        (record e { last_sent = Map.erase (down_key url) e.last_sent }) (h, refl)

  All-append : (P : Text → Type 0) (xs ys : List Text) → All P xs → All P ys → All P (xs ++ ys)
  All-append P [] ys h k = k
  All-append P (x ∷ xs) ys (h, hs) k = (h, All-append P xs ys hs k)

  All-map : (P Q : Text → Type 0) (xs : List Text) → ((x : Text) → P x → Q x) → All P xs → All Q xs
  All-map P Q [] f h = tt
  All-map P Q (x ∷ xs) f (h, hs) = (f x h, All-map P Q xs f hs)

  watch_keys :
      (now : ℕ) (send : Send) (r : Rules F) (prev current : List (Text × Bool)) (e : Engine)
      → All (λ key. Exists (IsChange prev key) current) (watch fl now send r prev current e).1
  unfolding watch
  watch_keys now send r prev [] e = tt
  watch_keys now send r prev ((url, up) ∷ rest) e =
      let first = notice fl now send r url (Map.lookup url prev) up e in
      All-append (λ key. Exists (IsChange prev key) ((url, up) ∷ rest)) first.1
        (watch fl now send r prev rest first.0).1
        (All-map (λ key. IsChange prev key (url, up))
          (λ key. Exists (IsChange prev key) ((url, up) ∷ rest)) first.1 (λ key h. inl h)
          (notice_keys now send r prev url up (Map.lookup url prev) e refl))
        (All-map (λ key. Exists (IsChange prev key) rest)
          (λ key. Exists (IsChange prev key) ((url, up) ∷ rest))
          (watch fl now send r prev rest first.0).1 (λ key h. inr h)
          (watch_keys now send r prev rest first.0))

  -- A round alerts only about backends whose state was known before the round and has changed, with the
  -- key that says which way.
  pub check_backends_changes :
      (now : ℕ) (send : Send) (r : Rules F) (bs : List BackendStat) (e : Engine)
      → All
          (λ key. Exists (IsChange e.healthy key) (snapshot [] bs))
          (check_backends fl now send r bs e).1
  unfolding check_backends
  check_backends_changes now send r bs e =
      watch_keys now send r e.healthy (snapshot [] bs) (record e { healthy = snapshot [] bs })
