-- ===== src/Relay/Answer.antt =====
-- servak_na_winapi_relays/source/http_utils.cpp: the head of an answer, and an answer that is a code
-- alone. An answer is the bytes that go to the socket; the date is an argument.
use java_io_tserver.Common.{
  ℕ, ◌-◌, Bool, false, ◌&&◌, [], ◌++◌, Option, none, some, ltb, ◌==◌, if◌then◌else◌, length,
}
use java_io_tserver.Common.Int.{pos}
use java_io_tserver.Common.Text.{Bytes, codes, to_string}

unfoldable pub status_line : ℕ → Bytes
status_line cod =
    if cod == 200
    then codes "200 OK\r\n"
    else if cod == 400
    then codes "400 Bad Request\r\n"
    else if cod == 404
    then codes "404 Not Found\r\n"
    else if cod == 405
    then codes "405 Method Not Allowed\r\nAllow: GET, HEAD, POST, PUT, DELETE\r\n"
    else if cod == 501
    then codes "501 Not Implemented\r\n"
    else if cod == 503
    then codes "503 Service Unavailable\r\n"
    else if cod == 505
    then codes "505 HTTP Version Not Supported\r\n"
    else if cod == 415
    then codes "415 Unsupported Type\r\n"
    else codes "500 Internal Server Error\r\n"

-- The line for a type that is given by its number; 0 is a type given by its text, or none.
unfoldable pub type_line : ℕ → Option Bytes → Bytes
type_line typ typstr =
    if typ == 0
    then elim typstr [ none ↦ [] | some t ↦ codes "Content-Type: " ++ (t ++ codes "\r\n") ]
    else if typ == 1
    then codes "Content-Type: text/html; charset=UTF-8\r\n"
    else if typ == 2
    then codes "Content-Type: text/plain; charset=UTF-8\r\n"
    else if typ == 3
    then codes "Content-Type: text/json; charset=UTF-8\r\n"
    else if typ == 4
    then codes "Content-Type: application/octet-stream\r\n"
    else if typ == 5
    then codes "Content-Type: text/html; charset=UTF-8\r\n"
    else []

module _ (date : Bytes) where
  unfoldable pub send_kap : ℕ → ℕ → ℕ → Option Bytes → Bool → Bytes
  send_kap cod len typ typstr get_log_file_flag =
      codes "HTTP/1.1 "
      ++ (status_line cod
          ++ ((if cod == 200
                then codes "Content-Length: "
                  ++ (to_string (pos len) ++ (codes "\r\n" ++ type_line typ typstr))
                else [])
              ++ (codes "Cache-Control: no-cache\r\nServer: RelayServer\r\nDate: "
                  ++ (date
                      ++ (codes "\r\n"
                          ++ ((if get_log_file_flag then codes "X-Get: log_file\r\n" else [])
                              ++ codes "\r\n"))))))

  abbrev pub mes : Bytes
  mes = codes "prykolno, yak ce robytsja"

  unfoldable pub send_err : ℕ → Bytes
  send_err cod =
      if ltb 1000 cod && ltb cod 1999
      then send_kap (cod - 1000) (length mes) 0 none false ++ mes
      else send_kap cod 0 0 none false
