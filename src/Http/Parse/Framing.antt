-- ===== src/Http/Parse/Framing.antt =====
-- crates/sutegi-http/src/lib.rs: how the body of an accepted request is framed.
use sutegi.Base.{
  ℕ, zero, suc, ◌+◌, ◌-◌, ◌≤◌, ◌<◌, ◌≡◌, refl, min, Option, List, [], ◌∷◌, ◌++◌, Bytes, ltb, ◌==◌,
  length, length-append, length-take, take, if_rule, list_rule, option_rule, arith,
}
use mathlib.Core.Path.{subst}
use sutegi.Http.{Request, trim_end_by}
use sutegi.Http.Parse.{
  Limits, Recv, Incoming, Outcome, Line, read_line_capped, Head, Header, header_line, is_crlf,
  Section, header_loop, body_loop, unwrap_or, request_line, finish, parse_request,
}
use sutegi.Http.Parse.Lines.{IsBounded, read_line_capped-IsBounded}
use sutegi.Http.Parse.Headers.{Declares, IsHead, HeaderOk, IsHead-Declares, header_line-ok}

pub record IsFramed (limits : Limits) (r : Request) : Type 0 where
  pub declared : Declares r.headers (length r.body)
  pub small : length r.body ≤ limits.max_body

-- What the header loop ends with: never for want of fuel.
abbrev SectionOk : Section → Type 0
SectionOk (Section.section_end h left) = IsHead h
SectionOk Section.section_fuel = ⊥
SectionOk _ = Unit

-- The cases of a line that was read.
line_rule {ℓ κ} :
    {A : Type ℓ} (P : A → Type κ) (l : Line) (x y z w : A) (f : Bytes → List Recv → A)
    → P x
    → P y
    → P z
    → P w
    → ((buf : Bytes) (left : List Recv) → l ≡ Line.read buf left → P (f buf left))
    → P (elim l [
      | Line.eof ↦ x
      | Line.too_large ↦ y
      | Line.timeout ↦ z
      | Line.broken ↦ w
      | Line.read buf left ↦ f buf left
    ])
line_rule P Line.eof x y z w f p q r s t = p
line_rule P Line.too_large x y z w f p q r s t = q
line_rule P Line.timeout x y z w f p q r s t = r
line_rule P Line.broken x y z w f p q r s t = s
line_rule P (Line.read buf left) x y z w f p q r s t = t buf left refl

header_rule {κ} :
    (P : Section → Type κ) (h : Head) (r : Header) (f : ℕ → Section) (g : Head → Section)
    → HeaderOk h r
    → ((status : ℕ) → P (f status))
    → ((h' : Head) → IsHead h' → h'.header_bytes ≡ h.header_bytes → P (g h'))
    → P (elim r [ Header.refuse status ↦ f status | Header.accept h' ↦ g h' ])
header_rule P h (Header.refuse status) f g ok p q = p status
header_rule P h (Header.accept h') f g (i, e) p q = q h' i e

module _ (decode : Bytes → Option Bytes) (limits : Limits) where
  header_loop-ok :
      (fuel : ℕ) (peer : List Recv) (h : Head)
      → IsHead h
      → limits.max_header_bytes - h.header_bytes < fuel
      → SectionOk (header_loop decode limits fuel peer h)
  unfolding header_loop
  header_loop-ok zero peer h i enough = omega arith
  header_loop-ok (suc fuel) peer h i enough =
      line_rule SectionOk (read_line_capped peer [] (limits.max_header_bytes - h.header_bytes)) _ _
        _ _ _ i tt tt tt
        (λ buf left e.
          let (nonempty, fits) =
            subst (IsBounded _) e (read_line_capped-IsBounded peer [] _ (omega arith)) in
          option_rule SectionOk (decode buf) _ _ (λ _. tt)
            (λ line _.
              let counted : Head = record h { header_bytes = h.header_bytes + length buf } in
              let still : IsHead counted = record {
                plain = i.plain;
                agreed = i.agreed;
                absent = i.absent;
              } in
              list_rule SectionOk (trim_end_by is_crlf line) _ _ (λ _. still)
                (λ c l _.
                  header_rule SectionOk counted (header_line (c ∷ l) counted) _ _
                    (header_line-ok (c ∷ l) counted still) (λ status. tt)
                    (λ h' i' same. header_loop-ok fuel left h' i' (omega arith)))))

-- What the code answers: an accepted request is framed, and the fuel is enough.
abbrev OutcomeOk : Limits → Outcome → Type 0
OutcomeOk limits (Outcome.done (Incoming.request r left)) = IsFramed limits r
OutcomeOk limits Outcome.out_of_fuel = ⊥
OutcomeOk limits _ = Unit

module _ (limits : Limits) where
  body_loop-ok :
      (peer : List Recv) (need : ℕ) (body : Bytes) (k : Bytes → List Recv → Outcome)
      → ((bytes : Bytes) (left : List Recv)
          → length bytes ≡ length body + need
          → OutcomeOk limits (k bytes left))
      → OutcomeOk limits (body_loop peer need body k)
  unfolding body_loop
  body_loop-ok peer zero body k good = good body peer (omega arith)
  body_loop-ok [] (suc need) body k good = tt
  body_loop-ok (Recv.interrupted ∷ peer) (suc need) body k good =
      body_loop-ok peer (suc need) body k good
  body_loop-ok (Recv.failed ∷ peer) (suc need) body k good = tt
  body_loop-ok (Recv.chunk [] late ∷ peer) (suc need) body k good = tt
  body_loop-ok (Recv.chunk (b ∷ bs) late ∷ peer) (suc need) body k good =
      let got : Bytes = take (suc need) (b ∷ bs) in
      let some_got : length got ≡ min (suc need) (length (b ∷ bs)) =
        length-take (suc need) (b ∷ bs) in
      let grown : length (body ++ got) ≡ length body + length got = length-append body got in
      if_rule (OutcomeOk limits) (suc need - length got == 0) _ _
        (λ full. good (body ++ got) _ (ground arith))
        (λ short.
          if_rule (OutcomeOk limits) late _ _ (λ _. tt)
            (λ _.
              body_loop-ok peer (suc need - length got) (body ++ got) k
                (λ bytes left e. good bytes left (ground arith))))

  finish-ok : (r : Request) (s : Section) → SectionOk s → OutcomeOk limits (finish limits r s)
  unfolding finish
  finish-ok r (Section.section_end h left) i =
      if_rule (OutcomeOk limits) (ltb limits.max_body (unwrap_or 0 h.content_length)) _ _ (λ _. tt)
        (λ fits. body_loop-ok left (unwrap_or 0 h.content_length) [] _ (λ bytes rest e.
          let whole : unwrap_or 0 h.content_length ≡ length bytes = ground (arith, e) in
          record {
            declared = subst (Declares h.headers) whole (IsHead-Declares h i);
            small = ground arith;
          }))
  finish-ok r Section.section_too_large i = tt
  finish-ok r (Section.section_reject status) i = tt
  finish-ok r Section.section_error i = tt
  finish-ok r Section.section_fuel i = i

  parse_request-ok :
      (decode : Bytes → Option Bytes) (peer : List Recv)
      → OutcomeOk limits (parse_request decode limits peer)
  unfolding parse_request
  parse_request-ok decode peer =
      line_rule (OutcomeOk limits) (read_line_capped peer [] limits.max_header_bytes) _ _ _ _ _ tt
        tt tt tt
        (λ buf left e.
          option_rule (OutcomeOk limits) (decode buf) _ _ (λ _. tt)
            (λ line _. finish-ok (request_line line) _ (
              header_loop-ok decode limits _ left _
                (record { plain = tt; agreed = tt; absent = λ _. refl }) (omega arith))))

-- Whatever the peer sends, in whatever pieces, and whatever `decode` does: a request that is accepted has a body of at most
-- `max_body` bytes, its headers hold no Transfer-Encoding, every Content-Length among them is a number
-- equal to the length of the body, and without a Content-Length the body is empty.
pub parse_request-IsFramed :
    (decode : Bytes → Option Bytes) (limits : Limits) (peer left : List Recv) (r : Request)
    → parse_request decode limits peer ≡ Outcome.done (Incoming.request r left)
    → IsFramed limits r
parse_request-IsFramed decode limits peer left r e =
    subst (OutcomeOk limits) e (parse_request-ok limits decode peer)

-- The header loop needs no more rounds than the header budget has bytes: parsing a request always answers.
pub parse_request_terminates :
    (decode : Bytes → Option Bytes) (limits : Limits) (peer : List Recv)
    → ¬ (parse_request decode limits peer ≡ Outcome.out_of_fuel)
parse_request_terminates decode limits peer e =
    subst (OutcomeOk limits) e (parse_request-ok limits decode peer)
