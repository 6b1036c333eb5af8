-- ===== src/FilePath/Clean.antt =====
-- `CleanPath` of sandboxed_api/util/path.cc, applied to absolute paths.
use googlectf2023_fastbox.Prelude.{
  ℕ, ◌≡◌, refl, sym, ap, ◌∙◌, Bool, true, false, not, ◌&&◌, Bool-cases, inl, inr, List, [], ◌∷◌,
  ◌++◌, arith, ◌==◌, ==_iff,
}
use mathlib.Core.List.{reverse, reverse_aux, reverse-reverse}
use googlectf2023_fastbox.Text.{
  Bytes, bytes_eq, empty, str_contains, str_split, onto_first, skip_empty, str_join,
}
use googlectf2023_fastbox.FilePath.{
  is_absolute_path, Cleaning, dot, dot_dot, go_up, clean_part, clean_parts, clean_result,
  clean_path, or_text,
}

-- A part between slashes that is kept.
abbrev is_plain : Bytes → Bool
is_plain part =
    not (empty part)
    && not (str_contains part b'/')
    && not (bytes_eq part dot_dot)
    && not (bytes_eq part dot)

abbrev all_plain : List Bytes → Bool
all_plain [] = true
all_plain (p ∷ ps) = is_plain p && all_plain ps

-- A part without a slash.
abbrev all_free : List Bytes → Bool
all_free [] = true
all_free (p ∷ ps) = not (str_contains p b'/') && all_free ps

abbrev all_parts : List Bytes → Bool
all_parts [] = true
all_parts (p ∷ ps) = not (empty p) && not (str_contains p b'/') && all_parts ps

onto_first-all_free :
    (x : ℕ) (rest : List Bytes)
    → (x == b'/') ≡ false
    → all_free rest ≡ true
    → all_free (onto_first x rest) ≡ true
onto_first-all_free x [] e h = ground arith
onto_first-all_free x (p ∷ ps) e h = ground arith

str_split-all_free : (s : Bytes) → all_free (str_split s b'/') ≡ true
str_split-all_free [] = refl
str_split-all_free (x ∷ s) = elim (Bool-cases (x == b'/')) [
  | inl e ↦ rw e (str_split-all_free s)
  | inr e ↦ rw e (onto_first-all_free x (str_split s b'/') e (str_split-all_free s))
]

skip_empty-all_parts : (ps : List Bytes) → all_free ps ≡ true → all_parts (skip_empty ps) ≡ true
skip_empty-all_parts [] h = refl
skip_empty-all_parts ([] ∷ ps) h = skip_empty-all_parts ps h
skip_empty-all_parts ((x ∷ p) ∷ ps) h = ground (arith, skip_empty-all_parts ps (ground arith))

go_up-all_plain :
    (n : ℕ) (ps : List Bytes) → all_plain ps ≡ true → all_plain (go_up n ps).parts ≡ true
go_up-all_plain n [] h = refl
go_up-all_plain n (p ∷ ps) h = ground arith

clean_part-all_plain :
    (c : Cleaning) (p : Bytes)
    → (not (empty p) && not (str_contains p b'/')) ≡ true
    → all_plain c.parts ≡ true
    → all_plain (clean_part c p).parts ≡ true
unfolding clean_part
clean_part-all_plain c p e h = elim (Bool-cases (bytes_eq p dot_dot)) [
  | inl up ↦ rw up (go_up-all_plain c.dotdot_num c.parts h)
  | inr e' ↦ elim (Bool-cases (bytes_eq p dot)) [
    | inl here ↦ rw (e', here) h
    | inr e'' ↦ rw (e', e'') (ground arith)
  ]
]

clean_parts-all_plain :
    (c : Cleaning) (ps : List Bytes)
    → all_parts ps ≡ true
    → all_plain c.parts ≡ true
    → all_plain (clean_parts c ps).parts ≡ true
unfolding clean_parts
clean_parts-all_plain c [] e h = h
clean_parts-all_plain c (p ∷ ps) e h =
    clean_parts-all_plain (clean_part c p) ps (ground arith)
      (clean_part-all_plain c p (ground arith) h)

-- Plain parts are only gathered.
clean_parts-plain :
    (n : ℕ) (ps acc : List Bytes)
    → all_plain ps ≡ true
    → clean_parts (record { dotdot_num = n; parts = acc }) ps
      ≡ record { dotdot_num = n; parts = reverse_aux ps acc }
unfolding clean_parts clean_part
clean_parts-plain n [] acc h = refl
clean_parts-plain n (p ∷ ps) acc h =
    ap (λ c. clean_parts c ps) (kept (ground arith))
    ∙ clean_parts-plain n ps (p ∷ acc) (ground arith)
  where
    kept :
        is_plain p ≡ true
        → clean_part (record { dotdot_num = n; parts = acc }) p
          ≡ record { dotdot_num = n; parts = p ∷ acc }
    kept k = ground arith

reverse_aux-all_plain :
    (s t : List Bytes)
    → all_plain s ≡ true
    → all_plain t ≡ true
    → all_plain (reverse_aux s t) ≡ true
reverse_aux-all_plain [] t hs ht = ht
reverse_aux-all_plain (x ∷ s) t hs ht =
    reverse_aux-all_plain s (x ∷ t) (ground arith) (ground arith)

-- A part without a slash, alone and in front of others.
str_split-free : (p : Bytes) → str_contains p b'/' ≡ false → str_split p b'/' ≡ p ∷ []
str_split-free [] h = refl
str_split-free (x ∷ p) h = ground (arith, str_split-free p (ground arith))

str_split-cons :
    (p s : Bytes)
    → str_contains p b'/' ≡ false
    → str_split (p ++ (b'/' ∷ s)) b'/' ≡ p ∷ str_split s b'/'
str_split-cons [] s h = refl
str_split-cons (x ∷ p) s h = ground (arith, str_split-cons p s (ground arith))

str_split-str_join :
    (p : Bytes) (ps : List Bytes)
    → all_plain (p ∷ ps) ≡ true
    → str_split (str_join (p ∷ ps) b'/') b'/' ≡ p ∷ ps
str_split-str_join p [] h = str_split-free p (ground arith)
str_split-str_join p (q ∷ ps) h =
    str_split-cons p (str_join (q ∷ ps) b'/') (ground arith)
    ∙ ap (λ r. p ∷ r) (str_split-str_join q ps (ground arith))

skip_empty-all_plain : (ps : List Bytes) → all_plain ps ≡ true → skip_empty ps ≡ ps
skip_empty-all_plain [] h = refl
skip_empty-all_plain (p ∷ ps) h = ground (arith, skip_empty-all_plain ps (ground arith))

-- The text of plain parts, the last one first, behind a slash.
abbrev absolute : List Bytes → Bytes
absolute parts = or_text parts (b'/' ∷ []) (str_join ([] ∷ reverse parts) b'/')

clean_path-slash :
    (s : Bytes)
    → clean_path (b'/' ∷ s)
      ≡ absolute
          (clean_parts
            (record { dotdot_num = 0; parts = [] })
            (skip_empty (str_split s b'/'))).parts
unfolding clean_path clean_result
clean_path-slash s = refl

clean_path-joined :
    (p : Bytes) (ps : List Bytes)
    → all_plain (p ∷ ps) ≡ true
    → clean_path (b'/' ∷ str_join (p ∷ ps) b'/') ≡ absolute (reverse (p ∷ ps))
clean_path-joined p ps h =
    clean_path-slash (str_join (p ∷ ps) b'/')
    ∙ ap
        (λ qs. absolute (clean_parts (record { dotdot_num = 0; parts = [] }) (skip_empty qs)).parts)
        (str_split-str_join p ps h)
    ∙ ap (λ qs. absolute (clean_parts (record { dotdot_num = 0; parts = [] }) qs).parts)
        (skip_empty-all_plain (p ∷ ps) h)
    ∙ ap (λ c. absolute c.parts) (clean_parts-plain 0 (p ∷ ps) [] h)

root_again : clean_path (b'/' ∷ []) ≡ b'/' ∷ []
unfolding clean_path clean_result clean_parts
root_again = refl

absolute_again :
    (parts rev : List Bytes)
    → reverse parts ≡ rev
    → all_plain rev ≡ true
    → reverse rev ≡ parts
    → clean_path (absolute parts) ≡ absolute parts
absolute_again [] rev e h back = root_again
absolute_again (x ∷ xs) [] e h back = cc
absolute_again (x ∷ xs) (p ∷ ps) e h back =
    ap (λ r. clean_path (str_join ([] ∷ r) b'/')) e ∙ clean_path-joined p ps h ∙ ap absolute back

-- Cleaning an absolute path twice is cleaning it once.
pub clean_path_idem :
    (path : Bytes) → is_absolute_path path ≡ true → clean_path (clean_path path) ≡ clean_path path
unfolding is_absolute_path
clean_path_idem [] h = cc
clean_path_idem (c ∷ s) h =
    let slash : c ≡ b'/' = (==_iff c b'/').0 h in
    let parts =
      (clean_parts (record { dotdot_num = 0; parts = [] }) (skip_empty (str_split s b'/'))).parts in
    let plain : all_plain parts ≡ true =
      clean_parts-all_plain (record { dotdot_num = 0; parts = [] }) (skip_empty (str_split s b'/'))
        (skip_empty-all_parts (str_split s b'/') (str_split-all_free s)) refl in
    let cleaned : clean_path (c ∷ s) ≡ absolute parts =
      ap (λ x. clean_path (x ∷ s)) slash ∙ clean_path-slash s in
    ap clean_path cleaned
    ∙ absolute_again parts (reverse parts) refl (reverse_aux-all_plain parts [] plain refl)
        (reverse-reverse parts)
    ∙ sym cleaned
