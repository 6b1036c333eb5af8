-- ===== src/Text.antt =====
-- Texts as lists of bytes, and the string operations that the code takes from the C++ library and
-- from Abseil, by their documented behaviour.
use Prim.Native.Char.{code}
use googlectf2023_fastbox.Prelude.{
  ℕ, ◌≡◌, ◌↔◌, String, Bool, true, false, ◌&&◌, ◌||◌, List, [], ◌∷◌, ◌++◌, arith, ◌==◌,
  if◌then◌else◌,
}

abbrev pub Bytes : Type 0
Bytes = List ℕ

-- The bytes of an ASCII literal.
abbrev pub codes : String → Bytes
codes String.[] = []
codes (String.◌∷◌ c s) = code c ∷ codes s

abbrev pub bytes_eq : Bytes → Bytes → Bool
bytes_eq [] [] = true
bytes_eq (x ∷ xs) (y ∷ ys) = (x == y) && bytes_eq xs ys
bytes_eq [] (y ∷ ys) = false
bytes_eq (x ∷ xs) [] = false

pub bytes_eq_iff : (a b : Bytes) → (bytes_eq a b ≡ true) ↔ (a ≡ b)
bytes_eq_iff [] [] = ground arith
bytes_eq_iff [] (y ∷ b) = ground arith
bytes_eq_iff (x ∷ a) [] = ground arith
bytes_eq_iff (x ∷ a) (y ∷ b) = ground (arith, bytes_eq_iff a b)

abbrev pub empty : Bytes → Bool
empty [] = true
empty (x ∷ s) = false

-- absl::StartsWith
abbrev pub starts_with : Bytes → Bytes → Bool
starts_with s [] = true
starts_with [] (p ∷ prefix) = false
starts_with (c ∷ s) (p ∷ prefix) = (c == p) && starts_with s prefix

-- absl::StrContains, of a single character
abbrev pub str_contains : Bytes → ℕ → Bool
str_contains [] c = false
str_contains (x ∷ s) c = (x == c) || str_contains s c

-- absl::StripPrefix, of a single character
abbrev pub strip_prefix : Bytes → ℕ → Bytes
strip_prefix [] c = []
strip_prefix (x ∷ s) c = if x == c then s else x ∷ s

abbrev pub onto_first : ℕ → List Bytes → List Bytes
onto_first x [] = (x ∷ []) ∷ []
onto_first x (part ∷ parts) = (x ∷ part) ∷ parts

-- absl::StrSplit at a single character: one part more than the character occurs.
abbrev pub str_split : Bytes → ℕ → List Bytes
str_split [] c = [] ∷ []
str_split (x ∷ s) c = let rest = str_split s c in if x == c then [] ∷ rest else onto_first x rest

-- absl::SkipEmpty
abbrev pub skip_empty : List Bytes → List Bytes
skip_empty [] = []
skip_empty (part ∷ parts) = if empty part then skip_empty parts else part ∷ skip_empty parts

-- absl::StrJoin, with a single character
abbrev pub str_join : List Bytes → ℕ → Bytes
str_join [] c = []
str_join (part ∷ []) c = part
str_join (part ∷ next ∷ parts) c = part ++ (c ∷ str_join (next ∷ parts) c)
