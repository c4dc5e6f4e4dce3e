-- ===== src/Proxy/Recorder.antt =====
-- responseRecorder of internal/proxy/handler.go: it passes a response on to the client and keeps the
-- status, the headers and a bounded front of the body for the log.
pub mod Laws
use proxy_sentinel.Base.Text.{Text}
use proxy_sentinel.Base.{
  ℕ, ◌-◌, ◌+◌, Bool, true, false, ◌++◌, List, [], ◌∷◌, ltb, if◌then◌else◌, length, take,
}
use proxy_sentinel.Net.Header.{Header}

-- What the wrapped ResponseWriter has been given: the codes of `WriteHeader`, and the bytes.
pub record Client : Type 0 where
  pub codes : List ℕ
  pub written : Text

abbrev pub fresh_client : Client
fresh_client = record { codes = []; written = [] }

pub record Recorder : Type 0 where
  pub client : Client
  pub status : ℕ
  pub headers : Header
  pub body : Text
  pub max_body : ℕ
  pub wrote_header : Bool

unfoldable pub new_recorder : Client → ℕ → Recorder
new_recorder client max_body = record {
  client = client;
  status = 200;
  headers = [];
  body = [];
  max_body = max_body;
  wrote_header = false;
}

unfoldable pub set_status : ℕ → Recorder → Recorder
set_status s r = record r { status = s }

unfoldable pub set_headers : Header → Recorder → Recorder
set_headers h r = record r { headers = h }

unfoldable pub write_header : ℕ → Recorder → Recorder
write_header code r = if r.wrote_header then r else record r {
  wrote_header = true;
  status = code;
  client = record { codes = r.client.codes ++ code ∷ []; written = r.client.written };
}

unfoldable pub min64 : ℕ → ℕ → ℕ
min64 a b = if ltb a b then a else b

-- `if !r.wroteHeader { r.WriteHeader(r.status) }`
unfoldable pub begin : Recorder → Recorder
begin r = if r.wrote_header then r else write_header r.status r

unfoldable pub write : Text → Recorder → Recorder
unfolding min64
write b r =
    let r' = begin r in
    let kept =
      if ltb (length r'.body) r'.max_body
      then r'.body ++ take (min64 (length b) (r'.max_body - length r'.body)) b
      else r'.body in
    record r' {
      body = kept;
      client = record { codes = r'.client.codes; written = r'.client.written ++ b };
    }

-- The calls that a handler makes on a recorder.
pub data Call : Type 0 where
  sets_status : ℕ → Call
  sets_headers : Header → Call
  writes_header : ℕ → Call
  writes : Text → Call

unfoldable pub call : Recorder → Call → Recorder
call r (sets_status s) = set_status s r
call r (sets_headers h) = set_headers h r
call r (writes_header c) = write_header c r
call r (writes b) = write b r

unfoldable pub calls : Recorder → List Call → Recorder
unfolding call
calls r [] = r
calls r (c ∷ cs) = calls (call r c) cs

unfoldable pub truncate_string : Text → ℕ → Text
truncate_string s max = if ltb max (length s) then take max s else s
