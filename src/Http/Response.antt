-- ===== src/Http/Response.antt =====
-- esp8266_decoder/source/response.h and the part of http_utils.cpp that answers: recv_file,
-- send_header, send_err and sendResponse. The file system, the date and the name of the server are
-- arguments; an answer is the bytes that go to the socket.
pub mod Head
use java_io_tserver.Common.{
  ℕ, ◌-◌, ◌&&◌, ◌||◌, not, [], ◌∷◌, ◌++◌, Option, none, some, ltb, ◌==◌, if◌then◌else◌, length, map,
}
use java_io_tserver.Common.Int.{pos, ◌==ℤ◌}
use java_io_tserver.Common.Text.{Bytes, codes, equal, to_string}
use java_io_tserver.Setup.{SetupConfig, get}
use java_io_tserver.Http.Request.{Request, c_str, lower_char, head_code}
use java_io_tserver.Http.FirstLine.{before_dots}

pub record Response : Type 0 where
  pub code : ℕ
  pub body : Bytes
  pub content_type : Bytes

abbrev pub content_length : Response → ℕ
content_length r = length r.body

-- The constructors with a code alone and with a body.
abbrev pub bare : ℕ → Response
bare code = record { code = code; body = []; content_type = codes "text/plain" }

abbrev pub with_body : ℕ → Bytes → Bytes → Response
with_body code body content_type = record { code = code; body = body; content_type = content_type }

unfoldable pub content_type_of : Bytes → Bytes
content_type_of ext =
    if equal ext (codes ".html")
    then codes "text/html"
    else if equal ext (codes ".css")
    then codes "text/css"
    else if equal ext (codes ".js")
    then codes "application/javascript"
    else if equal ext (codes ".png")
    then codes "image/png"
    else if equal ext (codes ".jpg")
    then codes "image/jpeg"
    else if equal ext (codes ".jpeg")
    then codes "image/jpeg"
    else if equal ext (codes ".gif")
    then codes "image/gif"
    else if equal ext (codes ".svg")
    then codes "image/svg+xml"
    else if equal ext (codes ".ico")
    then codes "image/x-icon"
    else if equal ext (codes ".xml")
    then codes "text/xml"
    else if equal ext (codes ".txt")
    then codes "text/plain"
    else if equal ext (codes ".bin")
    then codes "application/octet-stream"
    else if equal ext (codes ".apk")
    then codes "application/vnd.android.package-archive"
    else codes "application/octet-stream"

-- What stands from the last dot on.
unfoldable pub extension : Bytes → Option Bytes
extension [] = none
extension (c ∷ cs) = elim (extension cs) as (λ o. Option Bytes) [
  | some ext ↦ some ext
  | none ↦ if c == b'.' then some (c ∷ cs) else none
]

unfoldable pub content_type_at : Bytes → Bytes
content_type_at path = elim (extension path) [
  | none ↦ codes "application/octet-stream"
  | some ext ↦ content_type_of (c_str (map lower_char ext))
]

unfoldable pub index_path : Bytes → Bytes
index_path path = if equal path [] || equal path (codes "/") then codes "/index.html" else path

-- The files, by the path from the directory of the server.
unfoldable pub recv_file : (Bytes → Option Bytes) → Request → Response
recv_file files rq = elim (before_dots rq.path) [
  | some p ↦ bare 403
  | none ↦
      let path = index_path rq.path in
      elim (files (codes "www" ++ path)) [
        | none ↦ bare 404
        | some content ↦ with_body 200 content (content_type_at path)
      ]
]

crlf : Bytes
crlf = 13 ∷ 10 ∷ []

-- The status line of send_header.
unfoldable pub status_line : ℕ → Bytes
unfolding crlf
status_line cod =
    if cod == 200
    then codes "200 OK" ++ crlf
    else if cod == 400
    then codes "400 Bad Request" ++ crlf
    else if cod == 404
    then codes "404 Not Found" ++ crlf
    else if cod == 405
    then codes "405 Method Not Allowed"
      ++ (crlf ++ (codes "Allow: GET, HEAD, POST, PUT, DELETE" ++ crlf))
    else if cod == 501
    then codes "501 Not Implemented" ++ crlf
    else if cod == 503
    then codes "503 Service Unavailable" ++ crlf
    else if cod == 505
    then codes "505 HTTP Version Not Supported" ++ crlf
    else if cod == 415
    then codes "415 Unsupported Type" ++ crlf
    else codes "500 Internal Server Error" ++ crlf

-- The headers of a body; `typ` is 0 in every call, so that the type is the text that is given.
unfoldable pub body_headers : ℕ → Option Bytes → Bytes
unfolding crlf
body_headers len typstr =
    codes "Content-Length: "
    ++ (to_string (pos len)
        ++ (crlf ++ (elim typstr as (λ o. Bytes) [
          | none ↦ []
          | some t ↦ codes "Content-Type: " ++ (t ++ crlf)
        ])))

module _ (s : SetupConfig) (my_time_str : Bytes) where
  unfoldable pub send_header : ℕ → ℕ → Option Bytes → Bytes
  unfolding crlf
  send_header cod len typstr =
      codes "HTTP/1.1 "
      ++ (status_line cod
          ++ ((if cod == 200 then body_headers len typstr else [])
              ++ (codes "Cache-Control: no-cache"
                  ++ (crlf
                      ++ (codes "Server: "
                          ++ (get s (codes "serverName")
                              ++ (crlf ++ (codes "Date: " ++ (my_time_str ++ (crlf ++ crlf))))))))))

  unfoldable pub send_err : ℕ → Bytes
  send_err cod =
      let mes = codes "prykolno, yak ce robytsja" in
      if ltb 1000 cod && ltb cod 1999
      then send_header (cod - 1000) (length mes) none ++ mes
      else send_header cod 0 none

  unfoldable pub send_response : Request → Response → Bytes
  send_response rq r =
      if r.code == 200
      then (send_header r.code (content_length r) (some r.content_type)
          ++ (if not (rq.method ==ℤ head_code) && ltb 0 (content_length r) then r.body else []))
      else send_err r.code
