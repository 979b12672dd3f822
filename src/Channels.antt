-- ===== src/Channels.antt =====
-- crates/sutegi-channels/src/presence.rs: the difference of two states of presence. A state is the list of its
-- keys with their metas; the order of the keys is left out. `same` is the equality of metas.
pub mod Balance
pub mod Counts
mod Examples
use sutegi.Base.{
  Bool, true, false, not, Option, none, some, List, [], ◌∷◌, ◌++◌, Bytes, if◌then◌else◌, bytes_eq,
}

abbrev pub Presence : Type 0 → Type 0
Presence A = List (Bytes × List A)

module _ {A : Type 0} where
  unfoldable pub metas_of : Bytes → Presence A → List A
  metas_of key [] = []
  metas_of key ((k, metas) ∷ st) = if bytes_eq k key then metas else metas_of key st

  unfoldable pub has_key : Bytes → Presence A → Bool
  has_key key [] = false
  has_key key ((k, metas) ∷ st) = if bytes_eq k key then true else has_key key st

  -- `entry(key).or_default().extend(…)`.
  unfoldable pub extend_entry : Bytes → List A → Presence A → Presence A
  extend_entry key more [] = (key, more) ∷ []
  extend_entry key more ((k, metas) ∷ st) =
      let rest = extend_entry key more st in
      if bytes_eq k key then (k, metas ++ more) ∷ st else (k, metas) ∷ rest

  -- A key gets an entry with its first meta.
  unfoldable pub extend_some : Bytes → List A → Presence A → Presence A
  extend_some key [] st = st
  extend_some key (m ∷ more) st = extend_entry key (m ∷ more) st

  module _ (same : A → A → Bool) where
    -- The first meta that is equal, taken out.
    unfoldable pub take_out : A → List A → Option (List A)
    take_out meta [] = none
    take_out meta (m ∷ metas) =
        let rest = take_out meta metas in
        if same m meta then some metas else elim rest [ none ↦ none | some left ↦ some (m ∷ left) ]

    unfoldable pub remove_one : A → List A → List A
    remove_one meta metas = elim (take_out meta metas) [ none ↦ metas | some left ↦ left ]

    -- The metas of a key that joined, and what remains of its old ones.
    unfoldable pub diff_metas : List A → List A → List A × List A
    diff_metas remaining [] = ([], remaining)
    diff_metas remaining (meta ∷ metas) =
        let unmatched = diff_metas remaining metas in
        elim (take_out meta remaining) [
          | none ↦ (meta ∷ unmatched.0, unmatched.1)
          | some left ↦ diff_metas left metas
        ]

    unfoldable pub diff_new :
        Presence A → Presence A → Presence A × Presence A → Presence A × Presence A
    diff_new old [] acc = acc
    diff_new old ((key, new_metas) ∷ new) (joins, leaves) =
        let (joined, remaining) = diff_metas (metas_of key old) new_metas in
        diff_new old new (extend_some key joined joins, extend_some key remaining leaves)

    unfoldable pub diff_old : Presence A → Presence A → Presence A → Presence A
    diff_old new [] leaves = leaves
    diff_old new ((key, old_metas) ∷ old) leaves =
        let gone = diff_old new old (extend_entry key old_metas leaves) in
        let kept = diff_old new old leaves in if not (has_key key new) then gone else kept

    unfoldable pub diff_states : Presence A → Presence A → Presence A × Presence A
    diff_states old new =
        let (joins, leaves) = diff_new old new ([], []) in (joins, diff_old new old leaves)
