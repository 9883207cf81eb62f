-- ===== src/Kernel/Fs/Dirs.antt =====
-- The functions of clks/kernel/fs.c that create directories and the nodes of the ramdisk.
use cleon_os_jgz_yes_fork.Base.{
  ◌==◌, if◌then◌else◌, length, add64, ℕ, zero, suc, Bool, true, false, Option, none, some, List, [],
  ◌∷◌,
}
use cleon_os_jgz_yes_fork.Kernel.Path.{
  path_max, slash, component, after_component, push_component, split_parent,
}
use cleon_os_jgz_yes_fork.Kernel.Ramdisk.Walk.{RamdiskEntry, dir_entry, file_entry}
use cleon_os_jgz_yes_fork.Kernel.Fs.{
  Fs, null, image, dir, file, is_dir, find_internal, find_external, create_or_update,
}

-- One directory of the hierarchy: it is found, or created below `parent`. `none` is failure.
unfoldable pub enter_dir : Fs → List ℕ → ℕ → Option ℕ × Fs
enter_dir fs prefix parent = elim (find_internal fs prefix) [
  | none ↦ create_or_update fs prefix dir parent null 0
  | some i ↦ (if is_dir (fs.nodes i).kind then some i else none, fs)
]

-- `if (path[i] == '/') i++`
abbrev pub skip_slash : List ℕ → List ℕ
skip_slash [] = []
skip_slash (c ∷ cs) = if c == slash then cs else c ∷ cs

-- The loop of `clks_fs_ensure_dir_hierarchy`, on fuel, over the text that is left.
unfoldable pub ensure_from : ℕ → Fs → List ℕ → List ℕ → ℕ → Bool × Fs
unfolding enter_dir
ensure_from zero fs rest prefix parent = (false, fs)
ensure_from (suc fuel) fs [] prefix parent = (true, fs)
ensure_from (suc fuel) fs (c ∷ cs) prefix parent =
    let comp = component (c ∷ cs) in
    if length comp == 0 then (false, fs) else elim (push_component path_max prefix comp) [
      | none ↦ (false, fs)
      | some next ↦
          (let (i, fs') = enter_dir fs next parent in
            elim i [
              | none ↦ (false, fs')
              | some k ↦ ensure_from fuel fs' (skip_slash (after_component (c ∷ cs))) next k
            ])
    ]

-- `clks_fs_ensure_dir_hierarchy`
unfoldable pub ensure_dir_hierarchy : Fs → List ℕ → Bool × Fs
unfolding ensure_from
ensure_dir_hierarchy fs path = ensure_from (suc (length path)) fs path [] 0

-- `clks_fs_require_directory`, the log lines aside.
unfoldable pub require_directory : Fs → List ℕ → Bool
require_directory fs path = elim (find_external fs (some path)) [
  | none ↦ false
  | some i ↦ is_dir (fs.nodes i).kind
]

-- `struct clks_fs_build_stats`
pub record BuildStats : Type 0 where
  pub file_count : ℕ
  pub dir_count : ℕ

-- `clks_fs_ramdisk_visit`, with the state that its context pointer and the statics make up.
unfoldable pub ramdisk_visit : RamdiskEntry → Fs × BuildStats → Bool × (Fs × BuildStats)
ramdisk_visit (dir_entry path) (fs, stats) =
    let (done, fs') = ensure_dir_hierarchy fs path in
    if done
    then (true, (fs', record stats { dir_count = add64 stats.dir_count 1 }))
    else (false, (fs', stats))
ramdisk_visit (file_entry path bytes size) (fs, stats) = elim (split_parent path path_max) [
  | none ↦ (false, (fs, stats))
  | some parent ↦
      (let (done, fs') = ensure_dir_hierarchy fs parent in
        if done
        then elim (find_internal fs' parent) [
          | none ↦ (false, (fs', stats))
          | some k ↦
              (let (i, fs'') = create_or_update fs' path file k (image bytes) size in
                elim i [
                  | none ↦ (false, (fs'', stats))
                  | some _ ↦ (true, (fs'', record stats { file_count = add64 stats.file_count 1 }))
                ])
        ]
        else (false, (fs', stats)))
]
