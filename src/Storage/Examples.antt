-- ===== src/Storage/Examples.antt =====
-- crates/sutegi-storage: keys at concrete inputs.
use sutegi.Base.{◌≡◌, refl, none, some, codes, bytes_eq, starts_with}
use sutegi.Web.Router.{split_slash, split_from}
use sutegi.Storage.{
  traversal, is_control, utf8_length, begins_with_slash, check_segment, check_segments,
  validate_key,
}
use sutegi.Storage.Safety.{IsSafe, validate_key-IsSafe}

accepted : validate_key (codes "a/b.txt") ≡ none
unfolding validate_key bytes_eq utf8_length is_control begins_with_slash check_segments
    check_segment split_slash split_from starts_with
accepted = refl

refused : validate_key (codes "a/../b") ≡ some traversal
unfolding validate_key bytes_eq utf8_length is_control begins_with_slash check_segments
    check_segment split_slash split_from starts_with
refused = refl

validate_key-IsSafe_example : IsSafe (codes "a/b.txt")
validate_key-IsSafe_example = validate_key-IsSafe (codes "a/b.txt") accepted
