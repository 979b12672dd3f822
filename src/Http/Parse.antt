-- ===== src/Http/Parse.antt =====
-- crates/sutegi-http/src/lib.rs: reading one request. The peer is the list of what `fill_buf` will
-- answer; a chunk carries whether the deadline has passed once it is used up. `decode` stands for
-- `std::str::from_utf8`, giving the code points.
pub mod Lines
pub mod Headers
pub mod Framing
use sutegi.Base.{
  ℕ, zero, suc, ◌+◌, ◌-◌, ◌*◌, ◌^◌, min, Bool, true, false, not, ◌&&◌, ◌||◌, Option, none, some,
  List, [], ◌∷◌, ◌++◌, Bytes, ltb, leb, ◌==◌, if◌then◌else◌, length, codes, take, drop, all,
}
use sutegi.Http.{
  Method, parse_method, Request, eq_ignore_case, trim, trim_end_by, split_once, split_whitespace,
}

pub record Limits : Type 0 where
  pub max_body : ℕ
  pub max_header_bytes : ℕ

pub data Recv : Type 0 where
  chunk : Bytes → Bool → Recv
  interrupted failed : Recv

-- An accepted request comes with what is left to read; after a refusal the connection is closed.
pub data Incoming : Type 0 where
  request : Request → List Recv → Incoming
  too_large : Incoming
  reject : ℕ → Incoming

-- `io::Result<Option<Incoming>>`; `out_of_fuel` is no answer of the code.
pub data Outcome : Type 0 where
  done : Incoming → Outcome
  closed : Outcome
  io_error : Outcome
  out_of_fuel : Outcome

-- `Line`, with the line read and what is left to read.
pub data Line : Type 0 where
  read : Bytes → List Recv → Line
  eof too_large timeout broken : Line

-- The chunk up to its first newline and the rest, or `none` where there is no newline.
unfoldable pub split_line : Bytes → Option (Bytes × Bytes)
split_line [] = none
split_line (b ∷ bs) =
    if b == 10
    then some (b ∷ [], bs)
    else elim (split_line bs) [ none ↦ none | some (l, r) ↦ some (b ∷ l, r) ]

abbrev end_of_line : Bytes → List Recv → Line
end_of_line [] peer = eof
end_of_line (b ∷ bs) peer = read (b ∷ bs) peer

-- `reader.consume(take)`: a chunk that is used up is gone.
abbrev put_back : Bytes → Bool → List Recv → List Recv
put_back [] late peer = peer
put_back (b ∷ bs) late peer = chunk (b ∷ bs) late ∷ peer

unfoldable pub read_line_capped : List Recv → Bytes → ℕ → Line
read_line_capped [] buf max = end_of_line buf []
read_line_capped (interrupted ∷ peer) buf max = read_line_capped peer buf max
read_line_capped (failed ∷ peer) buf max = broken
read_line_capped (chunk [] late ∷ peer) buf max = end_of_line buf (chunk [] late ∷ peer)
read_line_capped (chunk (b ∷ bs) late ∷ peer) buf max =
    let later = read_line_capped peer (buf ++ b ∷ bs) max in
    elim (split_line (b ∷ bs)) [
      | some (l, r) ↦
          if ltb max (length buf + length l)
          then too_large
          else read (buf ++ l) (put_back r late peer)
      | none ↦
          if ltb max (length buf + length (b ∷ bs))
          then too_large
          else if late
          then timeout
          else later
    ]

abbrev usize_max : ℕ
usize_max = 2 ^ 64 - 1

unfoldable pub is_digit : ℕ → Bool
is_digit c = leb b'0' c && leb c b'9'

unfoldable pub digits_value : ℕ → Bytes → ℕ
digits_value acc [] = acc
digits_value acc (c ∷ s) = digits_value (acc * 10 + (c - b'0')) s

unfoldable pub parse_content_length : Bytes → Option ℕ
parse_content_length [] = none
parse_content_length (c ∷ s) =
    if not (all is_digit (c ∷ s))
    then none
    else if ltb usize_max (digits_value 0 (c ∷ s))
    then none
    else some (digits_value 0 (c ∷ s))

-- What the loop over the header lines carries.
pub record Head : Type 0 where
  pub headers : List (Bytes × Bytes)
  pub content_length : Option ℕ
  pub header_bytes : ℕ

-- One header line: the new state, or the status of the refusal.
pub data Header : Type 0 where
  accept : Head → Header
  refuse : ℕ → Header

-- `match content_length { Some(prev) if prev != parsed => reject, _ => Some(parsed) }`.
unfoldable pub set_length : Option ℕ → ℕ → Option ℕ
set_length none n = some n
set_length (some prev) n = if not (prev == n) then none else some n

unfoldable pub header_field : Bytes → Bytes → Head → Header
header_field k v h =
    let pushed = record h { headers = h.headers ++ (k, v) ∷ [] } in
    if eq_ignore_case k (codes "transfer-encoding")
    then refuse 501
    else if eq_ignore_case k (codes "content-length")
    then elim (parse_content_length v) [
      | none ↦ refuse 400
      | some n ↦ elim (set_length h.content_length n) [
        | none ↦ refuse 400
        | some m ↦ accept (record pushed { content_length = some m })
      ]
    ]
    else accept pushed

-- A line without a colon is passed over.
unfoldable pub header_line : Bytes → Head → Header
header_line l h = elim (split_once b':' l) [
  | none ↦ accept h
  | some (k, v) ↦ header_field (trim k) (trim v) h
]

abbrev pub is_crlf : ℕ → Bool
is_crlf c = c == 13 || c == 10

-- How the header section ends.
pub data Section : Type 0 where
  section_end : Head → List Recv → Section
  section_too_large : Section
  section_reject : ℕ → Section
  section_error : Section
  section_fuel : Section

module _ (decode : Bytes → Option Bytes) (limits : Limits) where
  -- The header loop; every round reads a byte of the budget at least.
  unfoldable pub header_loop : ℕ → List Recv → Head → Section
  header_loop zero peer h = section_fuel
  header_loop (suc fuel) peer h =
      elim (read_line_capped peer [] (limits.max_header_bytes - h.header_bytes)) [
        | eof ↦ section_end h []
        | too_large ↦ section_too_large
        | timeout ↦ section_reject 408
        | broken ↦ section_error
        | read buf left ↦ elim (decode buf) [
          | none ↦ section_error
          | some line ↦
              let counted = record h { header_bytes = h.header_bytes + length buf } in
              elim (trim_end_by is_crlf line) [
                | [] ↦ section_end counted left
                | c ∷ l ↦ elim (header_line (c ∷ l) counted) [
                  | refuse status ↦ section_reject status
                  | accept h' ↦ header_loop fuel left h'
                ]
              ]
        ]
      ]

-- The loop that fills the body; `need` is what is still missing.
unfoldable pub body_loop : List Recv → ℕ → Bytes → (Bytes → List Recv → Outcome) → Outcome
body_loop peer zero body k = k body peer
body_loop [] (suc need) body k = io_error
body_loop (interrupted ∷ peer) (suc need) body k = body_loop peer (suc need) body k
body_loop (failed ∷ peer) (suc need) body k = io_error
body_loop (chunk [] late ∷ peer) (suc need) body k = io_error
body_loop (chunk (b ∷ bs) late ∷ peer) (suc need) body k =
    let got = take (suc need) (b ∷ bs) in
    let left = suc need - length got in
    let more = body_loop peer left (body ++ got) k in
    if left == 0
    then k (body ++ got) (put_back (drop (suc need) (b ∷ bs)) late peer)
    else if late
    then done (reject 408)
    else more

-- `parts.next().unwrap_or(default)`, with the words that are left.
unfoldable pub next_or : Bytes → List Bytes → Bytes × List Bytes
next_or default [] = (default, [])
next_or default (w ∷ ws) = (w, ws)

-- The target, cut at the first question mark.
unfoldable pub split_target : Bytes → Bytes × Bytes
split_target target = elim (split_once b'?' target) [ none ↦ (target, []) | some (p, q) ↦ (p, q) ]

-- The request that a request line begins, with no header and no body yet.
unfoldable pub request_line : Bytes → Request
request_line l =
    let m = next_or [] (split_whitespace l) in
    let t = next_or (codes "/") m.1 in
    let v = next_or (codes "HTTP/1.1") t.1 in
    let target = split_target t.0 in
    record {
      method = parse_method m.0;
      path = target.0;
      query = target.1;
      version = v.0;
      headers = [];
      body = [];
      peer = none;
    }

unfoldable pub unwrap_or : ℕ → Option ℕ → ℕ
unwrap_or n none = n
unwrap_or n (some m) = m

-- What follows the header section: the size test, then the body.
unfoldable pub finish : Limits → Request → Section → Outcome
finish limits r (section_end h left) =
    let n = unwrap_or 0 h.content_length in
    if ltb limits.max_body n
    then done too_large
    else body_loop left n []
        (λ body rest. done (request (record r { headers = h.headers; body = body }) rest))
finish limits r section_too_large = done too_large
finish limits r (section_reject status) = done (reject status)
finish limits r section_error = io_error
finish limits r section_fuel = out_of_fuel

-- `parse_request_impl`.
unfoldable pub parse_request : (Bytes → Option Bytes) → Limits → List Recv → Outcome
parse_request decode limits peer = elim (read_line_capped peer [] limits.max_header_bytes) [
  | eof ↦ closed
  | too_large ↦ done too_large
  | timeout ↦ done (reject 408)
  | broken ↦ io_error
  | read buf left ↦ elim (decode buf) [
    | none ↦ io_error
    | some line ↦ finish limits (request_line line) (
        header_loop decode limits (suc limits.max_header_bytes) left
          (record { headers = []; content_length = none; header_bytes = length buf }))
  ]
]
