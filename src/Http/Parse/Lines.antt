-- ===== src/Http/Parse/Lines.antt =====
-- crates/sutegi-http/src/lib.rs: the lines read off the connection.
use sutegi.Base.{
  ℕ, ◌+◌, ◌≤◌, ◌<◌, ◌≡◌, some, List, [], ◌∷◌, ◌++◌, Bytes, ltb, length, length-append, if_rule,
  option_rule, arith,
}
use sutegi.Http.Parse.{Recv, Line, split_line, end_of_line, read_line_capped}

-- A line that was read is not empty and at most `max` bytes long.
abbrev pub IsBounded : ℕ → Line → Type 0
IsBounded max (Line.read l left) = (0 < length l) × (length l ≤ max)
IsBounded max _ = Unit

end_of_line-IsBounded :
    (max : ℕ) (buf : Bytes) (peer : List Recv)
    → length buf ≤ max
    → IsBounded max (end_of_line buf peer)
end_of_line-IsBounded max [] peer h = tt
end_of_line-IsBounded max (b ∷ bs) peer h = (omega arith, h)

split_line-nonempty : (s l r : Bytes) → split_line s ≡ some (l, r) → 0 < length l
unfolding split_line
split_line-nonempty [] l r h = cc
split_line-nonempty (b ∷ bs) l r h = ground arith

-- A line that the capped reader returns is not empty and at most `max` bytes long, whatever the pieces it
-- came in, when it starts from a buffer of at most `max` bytes.
pub read_line_capped-IsBounded :
    (peer : List Recv) (buf : Bytes) (max : ℕ)
    → length buf ≤ max
    → IsBounded max (read_line_capped peer buf max)
unfolding read_line_capped
read_line_capped-IsBounded [] buf max h = end_of_line-IsBounded max buf [] h
read_line_capped-IsBounded (Recv.interrupted ∷ peer) buf max h =
    read_line_capped-IsBounded peer buf max h
read_line_capped-IsBounded (Recv.failed ∷ peer) buf max h = tt
read_line_capped-IsBounded (Recv.chunk [] late ∷ peer) buf max h =
    end_of_line-IsBounded max buf (Recv.chunk [] late ∷ peer) h
read_line_capped-IsBounded (Recv.chunk (b ∷ bs) late ∷ peer) buf max h =
    option_rule (IsBounded max) (split_line (b ∷ bs)) _ _
      (λ e.
        if_rule (IsBounded max) (ltb max (length buf + length (b ∷ bs))) _ _ (λ _. tt)
          (λ fits.
            if_rule (IsBounded max) late _ _ (λ _. tt)
              (λ _.
                read_line_capped-IsBounded peer (buf ++ b ∷ bs) max
                  (ground (arith, length-append buf (b ∷ bs))))))
      (λ lr e.
        if_rule (IsBounded max) (ltb max (length buf + length lr.0)) _ _ (λ _. tt)
          (λ fits. (
            ground (arith, length-append buf lr.0, split_line-nonempty (b ∷ bs) lr.0 lr.1 e),
            ground (arith, length-append buf lr.0),
          )))
