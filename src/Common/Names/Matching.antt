-- ===== src/Common/Names/Matching.antt =====
-- When `startsWith` and `std::string::find` say that an interface belongs to an arm.
use franka_gazebo.Prelude.{
  ◌≡◌, true, Name, ◌++◌, contains, is_prefix-append, contains-split, is_prefix-split,
  contains-append, ◌↔◌,
}
use franka_gazebo.Common.Names.{starts_with}

-- `startsWith(s, p)` says exactly that `s` is `p` with something after it.
pub starts_with_iff : (s p : Name) → (starts_with s p ≡ true) ↔ ((r : Name) × (s ≡ p ++ r))
unfolding starts_with
starts_with_iff s p = (λ h. is_prefix-split p s h, λ t. rw t.1 (is_prefix-append p t.0))

-- `std::string::find` says that `s` has `p` in it exactly when `p` stands somewhere in `s`.
pub contains_iff :
    (s p : Name) → (contains p s ≡ true) ↔ ((a : Name) × (b : Name) × (s ≡ (a ++ p) ++ b))
contains_iff s p = (λ h. contains-split p s h, λ t. rw t.2 (contains-append p t.0 t.1))
