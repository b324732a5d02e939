-- ===== src/Common/Text.antt =====
-- `str.strip`, the order of texts, and sorting by a key.
use Prim.Native.Nat.{ℕ, suc}
use Prim.Native.Char.{code}
use Prim.Native.String.{String, compare}
use mathlib.Core.Path.{◌≡◌, refl, ap, ◌∙◌}
use mathlib.Core.Bool.{Bool, true, false, ◌&&◌, ◌||◌}
use mathlib.Core.List.{List, [], ◌∷◌}
use native.Mathlib.Omega.{arith}
use text.Mathlib.Text.{is_le, ◌==◌ as str_eq}
use tokenity.Common.Tests.{if◌then◌else◌, leb, nat_beq}
use tokenity.Common.Lists.{All, length}

-- The code points that `str.isspace` accepts.
unfoldable pub is_space : ℕ → Bool
is_space c =
    leb 9 c && leb c 13
    || leb 28 c && leb c 32
    || nat_beq c 133
    || nat_beq c 160
    || nat_beq c 5760
    || leb 8192 c && leb c 8202
    || nat_beq c 8232
    || nat_beq c 8233
    || nat_beq c 8239
    || nat_beq c 8287
    || nat_beq c 12288

unfoldable pub strip_left : String → String
unfolding is_space
strip_left String.[] = String.[]
strip_left (String.◌∷◌ c s) =
    let rest = strip_left s in if is_space (code c) then rest else String.◌∷◌ c s

unfoldable pub strip_right : String → String
unfolding is_space
strip_right String.[] = String.[]
strip_right (String.◌∷◌ c s) =
    let rest = strip_right s in
    if is_space (code c) && str_eq rest String.[] then String.[] else String.◌∷◌ c rest

unfoldable pub strip : String → String
unfolding strip_left strip_right
strip s = strip_left (strip_right s)

unfoldable pub starts_with : String → String → Bool
starts_with String.[] t = true
starts_with (String.◌∷◌ c s) String.[] = false
starts_with (String.◌∷◌ c s) (String.◌∷◌ d t) =
    let rest = starts_with s t in nat_beq (code c) (code d) && rest

-- `part in text`
unfoldable pub is_part : String → String → Bool
unfolding starts_with
is_part s String.[] = starts_with s String.[]
is_part s (String.◌∷◌ d t) = let rest = is_part s t in starts_with s (String.◌∷◌ d t) || rest

abbrev pub text_le : String → String → Bool
text_le a b = is_le (compare a b)

-- `sorted(xs, key=key)` for a text key: stable, by insertion.
module _ {ℓ} {A : Type ℓ} (key : A → String) where
  pub insert_sorted : A → List A → List A
  insert_sorted a [] = a ∷ []
  insert_sorted a (x ∷ xs) = if text_le (key a) (key x) then a ∷ x ∷ xs else x ∷ insert_sorted a xs

  unfoldable pub sort : List A → List A
  unfolding insert_sorted
  sort [] = []
  sort (x ∷ xs) = insert_sorted x (sort xs)

  All-insert_sorted {κ} :
      (P : A → Type κ) (a : A) (xs : List A) → P a → All P xs → All P (insert_sorted a xs)
  unfolding insert_sorted
  All-insert_sorted P a [] h k = (h, tt)
  All-insert_sorted P a (x ∷ xs) h k = ground (arith, All-insert_sorted P a xs h k.1)

  pub All-sort {κ} : (P : A → Type κ) (xs : List A) → All P xs → All P (sort xs)
  unfolding sort
  All-sort P [] h = tt
  All-sort P (x ∷ xs) h = All-insert_sorted P x (sort xs) h.0 (All-sort P xs h.1)

  All-insert_sorted_back {κ} :
      (P : A → Type κ) (a : A) (xs : List A) → All P (insert_sorted a xs) → P a × All P xs
  unfolding insert_sorted
  All-insert_sorted_back P a [] h = h
  All-insert_sorted_back P a (x ∷ xs) h = ground (arith, All-insert_sorted_back P a xs)

  pub All-sort_back {κ} : (P : A → Type κ) (xs : List A) → All P (sort xs) → All P xs
  unfolding sort
  All-sort_back P [] h = tt
  All-sort_back P (x ∷ xs) h =
      let (here, rest) = All-insert_sorted_back P x (sort xs) h in (here, All-sort_back P xs rest)

  length-insert_sorted : (a : A) (xs : List A) → length (insert_sorted a xs) ≡ suc (length xs)
  unfolding insert_sorted
  length-insert_sorted a [] = refl
  length-insert_sorted a (x ∷ xs) = ground (arith, length-insert_sorted a xs)

  pub length-sort : (xs : List A) → length (sort xs) ≡ length xs
  unfolding sort
  length-sort [] = refl
  length-sort (x ∷ xs) = length-insert_sorted x (sort xs) ∙ ap suc (length-sort xs)
