-- ===== src/Scenarios/Alerts.antt =====
-- A backend that fails, is reported, and is silent for ten minutes; and a configuration.
use proxy_sentinel.Base.Int.{ℤ, pos, negsuc, ltb_ℤ}
use proxy_sentinel.Base.Map
use proxy_sentinel.Base.Text.{bytes}
use proxy_sentinel.Base.{
  ◌*◌, ◌≡◌, inr, refl, true, false, not, List, [], ◌∷◌, list_beq, All, Exists,
}
use proxy_sentinel.Proxy.Balancer.{BackendStat}
use proxy_sentinel.Alert.{
  Floats, Rules, Engine, Send, minute, is_silent, down_key, snapshot, deliver, fire, notice, watch,
  check_backends,
}
use proxy_sentinel.Config.{
  Settings, short_password, find_fault, warnings, is_weak, normalize, validate, IsUsable,
  validate-IsUsable,
}
use proxy_sentinel.Proxy.Decode.{to_lower}
use proxy_sentinel.Alert.Sending.{IsChange, check_backends_changes}

-- Whole numbers in the place of floating-point ones.
abbrev whole : Floats ℤ
whole = record {
  of_int = λ n. n;
  div = λ a b. a;
  mul = λ a b. a;
  lt = ltb_ℤ;
  le = λ a b. not (ltb_ℤ b a);
}

abbrev rules : Rules ℤ
rules = record {
  enabled = true;
  error_rate_pct = pos 10;
  window_minutes = pos 5;
  min_sample = pos 20;
  backend_down = true;
  latency_ms = pos 0;
  silence_minutes = pos 10;
}

abbrev sends : Send
sends key = true

-- The backend was healthy in the round before.
abbrev engine : Engine
engine = record { last_sent = []; healthy = (bytes "http://a", true) ∷ [] }

abbrev stats : List BackendStat
stats = record { url = bytes "http://a"; healthy = false; weight = pos 1; health_path = [] } ∷ []

first_alert :
    (fire whole (1 * minute) sends rules (bytes "error-rate") engine).1 ≡ bytes "error-rate" ∷ []
unfolding fire deliver is_silent Map.lookup
first_alert = refl

check_backends_changes_example :
    All
      (λ key. Exists (IsChange whole engine.healthy key) (snapshot [] stats))
      (check_backends whole (1 * minute) sends rules stats engine).1
check_backends_changes_example = check_backends_changes whole (1 * minute) sends rules stats engine

reported :
    (check_backends whole (1 * minute) sends rules stats engine).1
    ≡ bytes "backend-down:http://a" ∷ []
unfolding check_backends watch notice fire deliver is_silent snapshot down_key Map.lookup Map.insert
    list_beq
reported = refl

-- A configuration whose limits for bodies are missing.
abbrev settings : Settings ℤ
settings = record {
  backends = bytes "http://a" ∷ [];
  proxy_tokens = bytes "t" ∷ [];
  jwt_secret = bytes "0123456789abcdef";
  admin_password = bytes "hunter2";
  strategy = bytes "random";
  sample_rate = pos 1;
  default_rpm = pos 0;
  check_interval = pos 30;
  body_max_bytes = pos 0;
  max_body_bytes = pos 0;
  max_upload_bytes = negsuc 0;
  queue_capacity = pos 0;
  health_retention_days = pos 7;
  audit_retention_days = pos 7;
}

validated :
    validate to_lower ltb_ℤ (pos 0) (pos 1) settings
    ≡ inr (short_password 7 ∷ [], normalize to_lower ltb_ℤ (pos 0) (pos 1) settings)
unfolding validate find_fault warnings is_weak to_lower list_beq
validated = refl

validate-IsUsable_example :
    IsUsable to_lower ltb_ℤ (pos 0) (pos 1) (normalize to_lower ltb_ℤ (pos 0) (pos 1) settings)
    × (validate to_lower ltb_ℤ (pos 0) (pos 1) (normalize to_lower ltb_ℤ (pos 0) (pos 1) settings)
        ≡ inr (short_password 7 ∷ [], normalize to_lower ltb_ℤ (pos 0) (pos 1) settings))
validate-IsUsable_example =
    validate-IsUsable to_lower ltb_ℤ (pos 0) (pos 1) settings
      (normalize to_lower ltb_ℤ (pos 0) (pos 1) settings) (short_password 7 ∷ []) validated
