-- ===== src/Kernel/Path/Tests.antt =====
-- The theorems about paths, applied to the text `//a/./b`.
use cleon_os_jgz_yes_fork.Base.{length, ℕ, ◌<◌, ◌≡◌, refl, some, List, [], ◌∷◌}
use cleon_os_jgz_yes_fork.Kernel.Path.{
  skip_slashes, component, after_component, push_component, normalize_from, normalize,
}
use cleon_os_jgz_yes_fork.Kernel.Path.Bounds.{normalize-fits}

abbrev demo_path : List ℕ
demo_path = b'/' ∷ b'/' ∷ b'a' ∷ b'/' ∷ b'.' ∷ b'/' ∷ b'b' ∷ []

abbrev demo_internal : List ℕ
demo_internal = b'a' ∷ b'/' ∷ b'b' ∷ []

demo_normal : normalize (some demo_path) 192 ≡ some demo_internal
unfolding normalize normalize_from skip_slashes component after_component push_component
demo_normal = refl

normalize-fits_example : length demo_internal < 192
normalize-fits_example = normalize-fits (some demo_path) 192 demo_internal demo_normal
