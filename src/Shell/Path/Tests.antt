-- ===== src/Shell/Path/Tests.antt =====
-- The theorems about the paths of the shell, applied to "../b" in the directory "/a".
use cleon_os_jgz_yes_fork.Base.{length, All, ℕ, ◌<◌, ◌≡◌, refl, some, List, [], ◌∷◌, arith}
use cleon_os_jgz_yes_fork.Shell.Path.{resolve_path}
use cleon_os_jgz_yes_fork.Shell.Path.Stack.{render, IsPlainName}
use cleon_os_jgz_yes_fork.Shell.Path.Target.{target, resolve_path-render, resolve_path-target}

abbrev cwd : List ℕ
cwd = b'/' ∷ b'a' ∷ []

abbrev sibling : List ℕ
sibling = b'.' ∷ b'.' ∷ b'/' ∷ b'b' ∷ []

resolve_path-render_example :
    resolve_path cwd (some sibling) 192 ≡ some (render (target cwd sibling))
resolve_path-render_example = resolve_path-render cwd sibling 192 (omega arith)

-- "/b"
abbrev answer : List ℕ
answer = b'/' ∷ b'b' ∷ []

resolved : resolve_path cwd (some sibling) 3 ≡ some answer
unfolding resolve_path
resolved = refl

resolve_path-target_example :
    (answer ≡ render (target cwd sibling))
    × (length answer < 3)
    × All IsPlainName (target cwd sibling)
resolve_path-target_example = resolve_path-target cwd sibling 3 answer resolved
