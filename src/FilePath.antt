-- ===== src/FilePath.antt =====
-- sandboxed_api/util/path.cc
pub mod Clean
use googlectf2023_fastbox.Prelude.{
  ℕ, ◌+◌, Bool, false, List, [], ◌∷◌, ◌++◌, ◌==◌, if◌then◌else◌, replicate,
}
use mathlib.Core.List.{reverse}
use googlectf2023_fastbox.Text.{
  Bytes, codes, bytes_eq, empty, starts_with, strip_prefix, str_split, skip_empty, str_join,
}

unfoldable pub is_absolute_path : Bytes → Bool
is_absolute_path [] = false
is_absolute_path (c ∷ path) = c == b'/'

abbrev ends_with_separator : Bytes → Bool
ends_with_separator [] = false
ends_with_separator (c ∷ []) = c == b'/'
ends_with_separator (c ∷ d ∷ s) = ends_with_separator (d ∷ s)

-- One round of the loop of `JoinPathImpl`.
unfoldable pub join_one : Bytes → Bytes → Bytes
join_one result path =
    if empty path
    then result
    else if empty result
    then path
    else if ends_with_separator result
    then result ++ strip_prefix path b'/'
    else result ++ (b'/' ∷ strip_prefix path b'/')

unfoldable pub join_path_impl : Bytes → List Bytes → Bytes
unfolding join_one
join_path_impl result [] = result
join_path_impl result (path ∷ paths) = join_path_impl (join_one result path) paths

unfoldable pub join_path : Bytes → Bytes → Bytes
unfolding join_path_impl
join_path a b = join_path_impl [] (a ∷ b ∷ [])

-- The variables of the loop of `CleanPath`; the parts are kept last one first.
pub record Cleaning : Type 0 where
  pub dotdot_num : ℕ
  pub parts : List Bytes

abbrev pub dot_dot : Bytes
dot_dot = codes ".."

abbrev pub dot : Bytes
dot = codes "."

-- A part that is "..".
abbrev pub go_up : ℕ → List Bytes → Cleaning
go_up n [] = record { dotdot_num = n + 1; parts = [] }
go_up n (part ∷ parts) = record { dotdot_num = n; parts = parts }

unfoldable pub clean_part : Cleaning → Bytes → Cleaning
clean_part c part =
    if bytes_eq part dot_dot
    then go_up c.dotdot_num c.parts
    else if bytes_eq part dot
    then c
    else record c { parts = part ∷ c.parts }

unfoldable pub clean_parts : Cleaning → List Bytes → Cleaning
unfolding clean_part
clean_parts c [] = c
clean_parts c (part ∷ parts) = clean_parts (clean_part c part) parts

abbrev pub or_text : List Bytes → Bytes → Bytes → Bytes
or_text [] none_text text = none_text
or_text (part ∷ parts) none_text text = text

-- What follows the loop: the parts are joined, behind "/" or behind the ".." that are left.
unfoldable pub clean_result : Bytes → Cleaning → Bytes
clean_result unclean_path c =
    if starts_with unclean_path (b'/' ∷ [])
    then or_text c.parts (b'/' ∷ []) (str_join ([] ∷ reverse c.parts) b'/')
    else let parts = replicate c.dotdot_num dot_dot ++ reverse c.parts in
      or_text parts dot (str_join parts b'/')

unfoldable pub clean_path : Bytes → Bytes
unfolding clean_result clean_parts
clean_path unclean_path =
    clean_result unclean_path (
      clean_parts (record { dotdot_num = 0; parts = [] })
        (skip_empty (str_split unclean_path b'/')))
