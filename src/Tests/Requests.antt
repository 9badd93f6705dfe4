-- ===== src/Tests/Requests.antt =====
-- Concrete runs: a request with its fields.
use darkhttpd.Common.{◌≡◌, refl, some, [], ◌∷◌, ◌++◌, Bytes, codes, length, every-All}
use darkhttpd.Conn.{Connection}
use darkhttpd.Request.{in_line, parse_field}
use darkhttpd.Request.Fields.{
  Fields, in_name, AreFields, needle, fields_text, find_field, parse_field-fields_text,
}
use darkhttpd.Request.Line.{request_text}
use darkhttpd.Tests.Texts.{all_nonnul-NonNul}
use darkhttpd.Tests.{asking}

abbrev fields : Fields
fields =
    (codes "Host", codes "x")
    ∷ (codes "referer", codes "/from: here")
    ∷ (codes "range", codes "Bytes=2-5,7-")
    ∷ (codes "Connection", codes "Close")
    ∷ []

fields-AreFields : AreFields fields
fields-AreFields = (
  (every-All in_name (codes "Host") refl, every-All in_line (codes "x") refl),
  (
    (every-All in_name (codes "referer") refl, every-All in_line (codes "/from: here") refl),
    (
      (every-All in_name (codes "range") refl, every-All in_line (codes "Bytes=2-5,7-") refl),
      ((every-All in_name (codes "Connection") refl, every-All in_line (codes "Close") refl), tt),
    ),
  ),
)

abbrev written : Bytes
written = request_text (codes "get") b'/' (codes "a") (fields_text fields)

abbrev wanted : Connection
wanted = record asking { request = some written; request_length = length written }

abbrev line : Bytes
line = codes "get /a HTTP/1.1"

parse_field-fields_text_example :
    parse_field wanted (needle (codes "Referer")) ≡ find_field (codes "Referer") fields
parse_field-fields_text_example =
    parse_field-fields_text wanted line (codes "Referer") fields
      (every-All in_name (codes "Referer") refl) fields-AreFields (every-All in_line line refl)
      (all_nonnul-NonNul (line ++ b'\r' ∷ fields_text fields) refl) refl refl
