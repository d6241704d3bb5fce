-- ===== src/Paths.antt =====
-- src/recorder.c: the paths of the store's files. A path is a C string without its NUL; a buffer
-- has room for `path_size` bytes, the NUL included.
use recorder.Common.{ℕ, ◌-◌, ◌||◌}
use recorder.Common.{Option, none, some, List, ◌∷◌, ◌++◌, length, leb}
use recorder.Common.{if◌then◌else◌, decimal, codes}

-- `base` followed by `suffix`
unfoldable pub join_path_suffix : ℕ → List ℕ → List ℕ → Option (List ℕ)
join_path_suffix path_size base suffix =
    if leb path_size (length base) || leb (path_size - length base) (length suffix)
    then none
    else some (base ++ suffix)

-- `base` and `name` with a slash between them
unfoldable pub join_path_component : ℕ → List ℕ → List ℕ → Option (List ℕ)
join_path_component path_size base name =
    if leb path_size (length base)
      || (leb (path_size - length base) (length name)
          || leb (path_size - length base - length name) 1)
    then none
    else some (base ++ (b'/' ∷ name))

abbrev pub path_max : ℕ
path_max = 4096

-- `log_dir` is `g_log_dir`.
unfoldable pub build_segment_dir : List ℕ → ℕ → List ℕ → Option (List ℕ)
build_segment_dir log_dir bufsz dir_name = join_path_component bufsz log_dir dir_name

-- a file of the segment `seq`, in a name buffer of 32 bytes
abbrev build_file_path : List ℕ → List ℕ → ℕ → List ℕ → ℕ → Option (List ℕ)
build_file_path extension log_dir bufsz dir_name seq =
    let name = decimal seq ++ extension in
    elim (build_segment_dir log_dir path_max dir_name) [
      | none ↦ none
      | some dir ↦ if leb 32 (length name) then none else join_path_component bufsz dir name
    ]

unfoldable pub build_segment_path : List ℕ → ℕ → List ℕ → ℕ → Option (List ℕ)
build_segment_path = build_file_path (codes ".seg")

unfoldable pub build_segment_tmp_path : List ℕ → ℕ → List ℕ → ℕ → Option (List ℕ)
build_segment_tmp_path = build_file_path (codes ".seg.tmp")

unfoldable pub build_index_path : List ℕ → ℕ → List ℕ → ℕ → Option (List ℕ)
build_index_path = build_file_path (codes ".idx")

unfoldable pub build_state_segment_seq_path : List ℕ → ℕ → Option (List ℕ)
build_state_segment_seq_path log_dir bufsz =
    join_path_suffix bufsz log_dir (codes "/state/segment_seq")
