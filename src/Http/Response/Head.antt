-- ===== src/Http/Response/Head.antt =====
-- The answers to HEAD and to the other methods.
use java_io_tserver.Common.{
  ◌≡◌, refl, inl, inr, false, [], ◌∷◌, ◌++◌, append-nil, ltb, ◌==◌, if◌then◌else◌, Bool-cases,
  length, arith,
}
use java_io_tserver.Common.Int.{◌==ℤ◌}
use java_io_tserver.Common.Text.{Bytes}
use java_io_tserver.Setup.{SetupConfig}
use java_io_tserver.Http.Request.{Request, head_code}
use java_io_tserver.Http.Response.{Response, send_response}

-- The body of the response, where it is sent.
abbrev pub body_sent : Response → Bytes
body_sent r = if r.code == 200 then r.body else []

only_body : (b : Bytes) → (if ltb 0 (length b) then b else []) ≡ b
only_body [] = refl
only_body (x ∷ b) = ground arith

-- The answer to a request of any other method is the answer to the same request with HEAD, byte for
-- byte, with the body of the response behind it where its code is 200 and nothing otherwise.
pub send_response-head :
    (s : SetupConfig) (date : Bytes) (rq : Request) (r : Response)
    → (rq.method ==ℤ head_code) ≡ false
    → send_response s date rq r
      ≡ send_response s date (record rq { method = head_code }) r ++ body_sent r
unfolding send_response
send_response-head s date rq r h = elim (Bool-cases (r.code == 200)) [
  | inl ok ↦ rw (ok, h, only_body r.body, append-nil) refl
  | inr err ↦ rw (err, append-nil) refl
]
