-- ===== src/Web/Router/Laws.antt =====
-- crates/sutegi-web/src/lib.rs: the segments of a path.
use sutegi.Base.{
  ℕ, ◌≡◌, ◌≢◌, refl, sym, ap, ◌∙◌, arith, [], ◌∷◌, ◌++◌, Bytes, ◌==◌, All, append_assoc, append-nil,
  if_rule,
}
use mathlib.Core.List.{reverse-append}
use sutegi.Web.Router.{
  trim_start, trim_end, trim_matches, split_from, split_slash, split_segments, join,
}

-- A slash more at either end of the path.
trim_end-snoc : (s : Bytes) → trim_end (s ++ b'/' ∷ []) ≡ trim_end s
unfolding trim_end trim_start
trim_end-snoc s = rw (reverse-append s (b'/' ∷ []))

trim_matches-snoc : (s : Bytes) → trim_matches (s ++ b'/' ∷ []) ≡ trim_matches s
unfolding trim_matches trim_start
trim_matches-snoc [] = refl
trim_matches-snoc (c ∷ s) = ground (arith, trim_matches-snoc s, trim_end-snoc (c ∷ s))

-- Slashes added at either end of a path change none of its segments.
pub split_segments_slashes :
    (path : Bytes)
    → (split_segments (b'/' ∷ path) ≡ split_segments path)
      × (split_segments (path ++ b'/' ∷ []) ≡ split_segments path)
unfolding split_segments
split_segments_slashes path =
    (unfold trim_matches trim_start in refl, ap split_slash (trim_matches-snoc path))

abbrev pub NoSlash : Bytes → Type 0
NoSlash s = All (λ c. c ≢ b'/') s

NoSlash-snoc : (s : Bytes) (c : ℕ) → NoSlash s → c ≢ b'/' → NoSlash (s ++ c ∷ [])
NoSlash-snoc [] c h p = (p, tt)
NoSlash-snoc (d ∷ s) c (q, h) p = (q, NoSlash-snoc s c h p)

split_from-NoSlash : (cur s : Bytes) → NoSlash cur → All NoSlash (split_from cur s)
unfolding split_from
split_from-NoSlash cur [] h = (h, tt)
split_from-NoSlash cur (c ∷ s) h =
    if_rule (All NoSlash) (c == b'/') _ _ (λ _. (h, split_from-NoSlash [] s tt))
      (λ ne. split_from-NoSlash (cur ++ c ∷ []) s (NoSlash-snoc cur c h (ground arith)))

-- There is a first segment, so `join` puts a slash before what follows another.
join-cons-split :
    (x cur s : Bytes) → join (x ∷ split_from cur s) ≡ x ++ b'/' ∷ join (split_from cur s)
unfolding split_from
join-cons-split x cur [] = unfold join in refl
join-cons-split x cur (c ∷ s) =
    if_rule (λ r. join (x ∷ r) ≡ x ++ b'/' ∷ join r) (c == b'/') _ _ (λ _. unfold join in refl)
      (λ _. join-cons-split x (cur ++ c ∷ []) s)

join-split_from : (cur s : Bytes) → join (split_from cur s) ≡ cur ++ s
unfolding split_from
join-split_from cur [] = unfold join in sym (append-nil cur)
join-split_from cur (c ∷ s) =
    if_rule (λ r. join r ≡ cur ++ c ∷ s) (c == b'/') _ _
      (λ e.
        let slash : c ≡ b'/' = ground arith in
        join-cons-split cur [] s ∙ rw (join-split_from [] s, slash))
      (λ _. join-split_from (cur ++ c ∷ []) s ∙ append_assoc cur (c ∷ []) s)

-- Splitting at slashes loses nothing, and no segment holds a slash.
pub join-split_slash : (s : Bytes) → (join (split_slash s) ≡ s) × All NoSlash (split_slash s)
unfolding split_slash
join-split_slash s = (join-split_from [] s, split_from-NoSlash [] s tt)
