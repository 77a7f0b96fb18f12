-- ===== src/LiraCalc/Status.antt =====
-- servak_na_linux/server/status.cpp: class Status, the messages of one request, and attr_escape.
-- The arrays of 100 places are a list; what the clock and the time zone give is an argument.
pub mod Escaped
use java_io_tserver.Common.{
  ℕ, Bool, true, false, not, ◌&&◌, List, [], ◌∷◌, ◌++◌, ◌==◌, if◌then◌else◌,
}
use java_io_tserver.Common.Text.{Bytes, codes}
use java_io_tserver.LiraCalc.MyTime.{MyTime, hor, min, sec}

unfoldable pub escape_char : (c : ℕ) → Bytes
escape_char c =
    if c == b'&'
    then codes "&amp;"
    else if c == b'"'
    then codes "&quot;"
    else if c == b'\''
    then codes "&#39;"
    else if c == b'<'
    then codes "&lt;"
    else if c == b'>'
    then codes "&gt;"
    else c ∷ []

unfoldable pub attr_escape : Bytes → Bytes
unfolding escape_char
attr_escape [] = []
attr_escape (c ∷ s) = escape_char c ++ attr_escape s

pub record Message : Type 0 where
  -- INFO_MSG is false, ERROR_MSG is true.
  pub type : Bool
  pub message : Bytes
  pub key : Bytes
  pub arg : Bytes

-- The messages up to `point`.
abbrev pub Status : Type 0
Status = List Message

-- Both forms of `msg`: a message without a key has an empty key and argument.
unfoldable pub msg : (message key arg : Bytes) (type : Bool) → Status → Status
msg message key arg type st =
    st ++ record { type = type; message = message; key = key; arg = arg } ∷ []

unfoldable pub info : (message key arg : Bytes) → Status → Status
unfolding msg
info message key arg = msg message key arg false

unfoldable pub error : (message key arg : Bytes) → Status → Status
unfolding msg
error message key arg = msg message key arg true

unfoldable pub success : Status → Bool
success [] = true
success (m ∷ st) = not m.type && success st

is_empty : Bytes → Bool
is_empty [] = true
is_empty (c ∷ s) = false

-- One round of the loop of `html`.
unfoldable pub message_html : MyTime → Message → Bytes
unfolding is_empty attr_escape hor min sec
message_html mt m =
    codes "<p class='icon "
    ++ (if m.type then codes "error_icon" else codes "ok_icon")
    ++ codes "'><lable class='"
    ++ (if m.type then codes "msg_err" else codes "msg_ok")
    ++ codes "'"
    ++ (if is_empty m.key
        then []
        else codes " data-msg-key='"
          ++ m.key
          ++ codes "' data-msg-arg=\""
          ++ attr_escape m.arg
          ++ codes "\"")
    ++ codes ">"
    ++ m.message
    ++ codes "</lable><lable class='msg_time'>"
    ++ hor 2 mt
    ++ codes ":"
    ++ min mt
    ++ codes ":"
    ++ sec mt
    ++ codes "</lable></p>"

-- The messages as HTML; the object is then empty.
unfoldable pub html : MyTime → Status → Status × Bytes
unfolding message_html
html mt [] = ([], [])
html mt (m ∷ st) = let (none_left, out) = html mt st in (none_left, message_html mt m ++ out)
