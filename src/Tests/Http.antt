-- ===== src/Tests/Http.antt =====
-- The HTTP front: requests that can be followed in the source, and the uses of the theorems.
use java_io_tserver.Common.{ℕ, ◌≡◌, refl, arith, Bool, true, false, [], ◌∷◌, ◌++◌, none}
use java_io_tserver.Common.Int.{pos}
use java_io_tserver.Common.Text.{Bytes, codes, break_at, equal}
use java_io_tserver.Http.Escape.{convert_string, escaped_byte}
use java_io_tserver.Http.Request.{Param, Request, new_request, c_str, push_query}
use java_io_tserver.Http.Query.{parse_query_string, parse_pairs, push_pair}
use java_io_tserver.Http.Query.RoundTrip.{IsPair, print_query, parse_query_string-print_query}
use java_io_tserver.Http.FirstLine.{
  first_line_pars, parse_method, after_method, read_target, read_protocol, check_path, before_dots,
  starts_dots,
}
use java_io_tserver.Http.FirstLine.Traversal.{first_line_pars_path}

abbrev line : Bytes
line = codes "GET /a%2F../x?k=v%201&m= HTTP/1.1\r\n"

abbrev one_pair : Param
one_pair = record { param = codes "k"; znach = codes "v 1" }

-- The escape hides the dots until after the split, and the check comes after the conversion.
first_line_runs : first_line_pars line new_request ≡ (
  record new_request {
    method = pos 1590;
    path = codes "/a";
    prot = codes "HTTP/1.1";
    query = one_pair ∷ record { param = codes "m"; znach = [] } ∷ [];
  },
  false,
)
unfolding first_line_pars parse_method after_method read_target read_protocol check_path before_dots
    starts_dots break_at equal c_str parse_query_string parse_pairs push_pair push_query
    convert_string escaped_byte
first_line_runs = refl

abbrev keep_all : ℕ → Bool
keep_all c = true

one_pair-IsPair : IsPair one_pair
one_pair-IsPair = record {
  has_key = ground arith;
  key_bytes = omega arith;
  value_bytes = omega arith;
}

parse_query_string-print_query_example :
    parse_query_string (print_query keep_all (one_pair ∷ one_pair ∷ [])) new_request
    ≡ record new_request { query = [] ++ one_pair ∷ one_pair ∷ [] }
parse_query_string-print_query_example =
    parse_query_string-print_query keep_all (one_pair ∷ one_pair ∷ []) new_request
      (one_pair-IsPair, (one_pair-IsPair, tt))

new_request_path : before_dots new_request.path ≡ none
unfolding before_dots
new_request_path = refl

first_line_pars_path_example : before_dots (first_line_pars line new_request).0.path ≡ none
first_line_pars_path_example = first_line_pars_path line new_request new_request_path

abbrev asked : Request
asked = push_query (codes "id") (codes "7") new_request
