-- ===== src/Storage/Safety.antt =====
-- crates/sutegi-storage/src/lib.rs: what an accepted key is as a path.
use sutegi.Base.{
  ◌≡◌, ◌≤◌, refl, ap, ◌∙◌, arith, false, ◌||◌, none, List, [], ◌∷◌, Bytes, codes, if◌then◌else◌,
  any, All, bytes_eq, starts_with,
}
use sutegi.Web.Router.{split_slash, join}
use sutegi.Web.Router.Laws.{join-split_slash}
use sutegi.Storage.{is_control, utf8_length, check_segment, check_segments, validate_key}

abbrev pub parent : List Bytes → List Bytes
parent [] = []
parent (x ∷ xs) = xs

-- One name of a path, from a directory given as the names below the root, the last first. `..` at the
-- root stays there, as in POSIX.
abbrev pub enter_name : List Bytes → Bytes → List Bytes
enter_name here s =
    if bytes_eq s [] || bytes_eq s (codes ".")
    then here
    else if bytes_eq s (codes "..")
    then parent here
    else s ∷ here

abbrev pub walk : List Bytes → List Bytes → List Bytes
walk here [] = here
walk here (s ∷ segs) = walk (enter_name here s) segs

-- Every name goes one directory further down.
abbrev pub descend : List Bytes → List Bytes → List Bytes
descend here [] = here
descend here (s ∷ segs) = descend (s ∷ here) segs

pub record IsSafeSegment (s : Bytes) : Type 0 where
  pub nonempty : bytes_eq s [] ≡ false
  pub here : bytes_eq s (codes ".") ≡ false
  pub up : bytes_eq s (codes "..") ≡ false
  pub unreserved : starts_with (codes ".sutegi-") s ≡ false

check_segment-IsSafeSegment : (s : Bytes) → check_segment s ≡ none → IsSafeSegment s
unfolding check_segment
check_segment-IsSafeSegment s h = record {
  nonempty = ground arith;
  here = ground arith;
  up = ground arith;
  unreserved = ground arith;
}

check_segments-IsSafeSegment :
    (segs : List Bytes) → check_segments segs ≡ none → All IsSafeSegment segs
unfolding check_segments
check_segments-IsSafeSegment [] h = tt
check_segments-IsSafeSegment (s ∷ segs) h =
    (check_segment-IsSafeSegment s (ground arith), check_segments-IsSafeSegment segs (ground arith))

walk-IsSafeSegment :
    (here : List Bytes) (segs : List Bytes)
    → All IsSafeSegment segs
    → walk here segs ≡ descend here segs
walk-IsSafeSegment here [] h = refl
walk-IsSafeSegment here (s ∷ segs) (p, h) =
    let down : enter_name here s ≡ s ∷ here =
      let a = p.nonempty in let b = p.here in let c = p.up in ground arith in
    ap (λ d. walk d segs) down ∙ walk-IsSafeSegment (s ∷ here) segs h

-- What an accepted key is.
pub record IsSafe (key : Bytes) : Type 0 where
  pub short : utf8_length key ≤ 1024
  pub printable : any is_control key ≡ false
  pub segments : All IsSafeSegment (split_slash key)
  pub whole : join (split_slash key) ≡ key
  pub inside : (here : List Bytes) → walk here (split_slash key) ≡ descend here (split_slash key)

-- An accepted key has at most 1024 bytes and no control character, its pieces between slashes are neither
-- empty nor `.` nor `..` nor reserved and together are the key, and as a path from any directory it
-- only descends, by one directory for each piece.
pub validate_key-IsSafe : (key : Bytes) → validate_key key ≡ none → IsSafe key
unfolding validate_key
validate_key-IsSafe key h =
    let safe = check_segments-IsSafeSegment (split_slash key) (ground arith) in
    record {
      short = ground arith;
      printable = ground arith;
      segments = safe;
      whole = (join-split_slash key).0;
      inside = λ here. walk-IsSafeSegment here (split_slash key) safe;
    }
