-- ===== src/Http/Examples.antt =====
-- crates/sutegi-http: the request parser at concrete inputs.
use sutegi.Base.{◌≡◌, refl, false, none, some, List, [], ◌∷◌, bytes_eq, codes}
use sutegi.Http.{
  Method, parse_method, Request, to_lower, eq_ignore_case, is_whitespace, skip_while, trim_end_by,
  trim, split_once, words_from, split_whitespace,
}
use sutegi.Http.Parse.{
  Limits, Recv, Incoming, Outcome, split_line, read_line_capped, is_digit, digits_value,
  parse_content_length, set_length, header_field, header_line, header_loop, body_loop, next_or,
  split_target, request_line, unwrap_or, finish, parse_request,
}
use sutegi.Http.Parse.Framing.{IsFramed, parse_request-IsFramed, parse_request_terminates}

abbrev limits : Limits
limits = record { max_body = 10; max_header_bytes = 100 }

-- A request in three pieces, the body's last byte with the next request behind it.
abbrev peer : List Recv
peer =
    Recv.chunk (codes "POST /a?b HTTP/1.1\r\nContent-") false
    ∷ Recv.interrupted
    ∷ Recv.chunk (codes "Length: 3\r\n\r\nab") false
    ∷ Recv.chunk (codes "cGET") false
    ∷ []

abbrev parsed : Request
parsed = record {
  method = Method.post;
  path = codes "/a";
  query = codes "b";
  version = codes "HTTP/1.1";
  headers = (codes "Content-Length", codes "3") ∷ [];
  body = codes "abc";
  peer = none;
}

parse_peer :
    parse_request some limits peer
    ≡ Outcome.done (Incoming.request parsed (Recv.chunk (codes "GET") false ∷ []))
unfolding bytes_eq parse_request header_loop body_loop read_line_capped split_line finish
    request_line next_or split_target unwrap_or header_line header_field set_length
    parse_content_length is_digit digits_value parse_method to_lower eq_ignore_case is_whitespace
    skip_while trim_end_by trim split_once words_from split_whitespace
parse_peer = refl

parse_request-IsFramed_example : IsFramed limits parsed
parse_request-IsFramed_example =
    parse_request-IsFramed some limits peer (Recv.chunk (codes "GET") false ∷ []) parsed parse_peer

parse_request_terminates_example : ¬ (parse_request some limits peer ≡ Outcome.out_of_fuel)
parse_request_terminates_example = parse_request_terminates some limits peer
