-- ===== src/Precompiled/Extraction/Lines.antt =====
-- What the text that is read from a page consists of.
use mathlib.Core.List.{Permᴰ, append-nil}
use notifications_template_p.Prelude.{
  ◌<◌, ◌≤◌, ◌⊎◌, ◌↔◌, ◌≡◌, refl, ap, ◌∙◌, sym, subst, inl, inr, true, false, List, [], ◌∷◌, ◌++◌,
  arith, Bool-cases, map,
}
use notifications_template_p.Python.Text.{join}
use notifications_template_p.External.{Libraries, Word}
use notifications_template_p.Geometry.Layout.{Rect}
use notifications_template_p.Precompiled.Extraction.{
  is_before, insert_word, sort_words_onto, sort_words, words_in, same_line, line_text, put_in_group,
  group_by_line, extract_text_from_page,
}
use notifications_template_p.Precompiled.Extraction.Inside.{IsIn, Meets, words_in_iff}
use notifications_template_p.Precompiled.Extraction.Order.{is_before_asymm, Permᴰ-refl}

-- Two words come in reading order, or stand at the same place.
abbrev pub InOrder : Word → Word → Type 0
InOrder v w =
    (v.paragraph_number < w.paragraph_number)
    ⊎ ((v.paragraph_number ≡ w.paragraph_number)
        × ((v.line_number < w.line_number)
            ⊎ ((v.line_number ≡ w.line_number) × (v.word_position ≤ w.word_position))))

is_before-InOrder : (v w : Word) → is_before w v ≡ false → InOrder v w
is_before-InOrder v w h = ground arith

-- So do a word and the first of others, if there is one.
abbrev pub Follows : Word → List Word → Type 0
Follows v [] = Unit
Follows v (w ∷ ws) = InOrder v w

-- The words come in reading order.
abbrev pub IsSorted : List Word → Type 0
IsSorted [] = Unit
IsSorted (w ∷ ws) = Follows w ws × IsSorted ws

Follows-insert_word :
    (v w : Word) (ws : List Word) → InOrder v w → Follows v ws → Follows v (insert_word w ws)
unfolding insert_word
Follows-insert_word v w [] h k = h
Follows-insert_word v w (u ∷ us) h k = elim (Bool-cases (is_before w u)) [
  | inl e ↦ rw e h
  | inr e ↦ rw e k
]

insert_word-IsSorted : (w : Word) (ws : List Word) → IsSorted ws → IsSorted (insert_word w ws)
unfolding insert_word
insert_word-IsSorted w [] sorted = (tt, tt)
insert_word-IsSorted w (v ∷ vs) (h, sorted) = elim (Bool-cases (is_before w v)) [
  | inl e ↦ rw e (is_before-InOrder w v (is_before_asymm w v e), (h, sorted))
  | inr e ↦
      rw e
        (Follows-insert_word v w vs (is_before-InOrder v w e) h, insert_word-IsSorted w vs sorted)
]

insert_word-perm : (w : Word) (ws : List Word) → Permᴰ (w ∷ ws) (insert_word w ws)
unfolding insert_word
insert_word-perm w [] = Permᴰ-refl _
insert_word-perm w (v ∷ vs) = elim (Bool-cases (is_before w v)) [
  | inl e ↦ rw e (Permᴰ-refl _)
  | inr e ↦ rw e (Permᴰ.trans (Permᴰ.swap refl refl) (Permᴰ.cons refl (insert_word-perm w vs)))
]

sort_words_onto-IsSorted :
    (sorted ws : List Word) → IsSorted sorted → IsSorted (sort_words_onto sorted ws)
unfolding sort_words_onto
sort_words_onto-IsSorted sorted [] h = h
sort_words_onto-IsSorted sorted (w ∷ ws) h =
    sort_words_onto-IsSorted (insert_word w sorted) ws (insert_word-IsSorted w sorted h)

-- A permutation of the end of a list.
append-perm : (ws : List Word) {xs ys : List Word} → Permᴰ xs ys → Permᴰ (ws ++ xs) (ws ++ ys)
append-perm [] d = d
append-perm (w ∷ ws) d = Permᴰ.cons refl (append-perm ws d)

-- A word moved from the front to behind others.
move-perm : (w : Word) (ws xs : List Word) → Permᴰ (w ∷ ws ++ xs) (ws ++ (w ∷ xs))
move-perm w [] xs = Permᴰ-refl _
move-perm w (v ∷ ws) xs = Permᴰ.trans (Permᴰ.swap refl refl) (Permᴰ.cons refl (move-perm w ws xs))

sort_words_onto-words : (sorted ws : List Word) → Permᴰ (ws ++ sorted) (sort_words_onto sorted ws)
unfolding sort_words_onto
sort_words_onto-words sorted [] = Permᴰ-refl _
sort_words_onto-words sorted (w ∷ ws) = Permᴰ.trans (move-perm w ws sorted) (
    Permᴰ.trans (append-perm ws (insert_word-perm w sorted))
      (sort_words_onto-words (insert_word w sorted) ws))

-- Two words have the same numbers of paragraph and line.
abbrev pub OnOneLine : Word → Word → Type 0
OnOneLine v w = (v.paragraph_number ≡ w.paragraph_number) × (v.line_number ≡ w.line_number)

same_line-OnOneLine : (v w : Word) → same_line v w ≡ true → OnOneLine v w
same_line-OnOneLine v w h = ground arith

same_line-apart : (v w : Word) → same_line v w ≡ false → ¬ OnOneLine v w
same_line-apart v w h (p, l) = ground arith

-- A line has a word, and all its words have the same numbers of paragraph and line.
abbrev pub IsLine : List Word → Type 0
IsLine [] = ⊥
IsLine (v ∷ []) = Unit
IsLine (v ∷ w ∷ ws) = OnOneLine v w × IsLine (w ∷ ws)

-- The next line is another one.
abbrev pub IsBroken : List Word → List (List Word) → Type 0
IsBroken (v ∷ g) ((w ∷ h) ∷ gs) = ¬ OnOneLine v w
IsBroken _ _ = Unit

abbrev pub AreLines : List (List Word) → Type 0
AreLines [] = Unit
AreLines (g ∷ gs) = IsLine g × IsBroken g gs × AreLines gs

-- The words of all lines.
abbrev pub words_of : List (List Word) → List Word
words_of [] = []
words_of (g ∷ gs) = g ++ words_of gs

put_in_group-words :
    (w : Word) (gs : List (List Word)) → words_of (put_in_group w gs) ≡ w ∷ words_of gs
unfolding put_in_group
put_in_group-words w [] = refl
put_in_group-words w ([] ∷ gs) = refl
put_in_group-words w ((v ∷ g) ∷ gs) = elim (Bool-cases (same_line w v)) [
  | inl e ↦ rw e refl
  | inr e ↦ rw e refl
]

joined-IsBroken :
    (v w : Word) (g : List Word) (gs : List (List Word))
    → OnOneLine w v
    → IsBroken (v ∷ g) gs
    → IsBroken (w ∷ v ∷ g) gs
joined-IsBroken v w g [] same h = tt
joined-IsBroken v w g ([] ∷ gs) same h = tt
joined-IsBroken v w g ((u ∷ us) ∷ gs) (p, l) h = λ (q, m). h (sym p ∙ q, sym l ∙ m)

put_in_group-AreLines :
    (w : Word) (gs : List (List Word)) → AreLines gs → AreLines (put_in_group w gs)
unfolding put_in_group
put_in_group-AreLines w [] h = (tt, tt, tt)
put_in_group-AreLines w ([] ∷ gs) (h, _, _) = absurd h
put_in_group-AreLines w ((v ∷ g) ∷ gs) (h, k, rest) = elim (Bool-cases (same_line w v)) [
  | inl e ↦
      let same = same_line-OnOneLine w v e in
      rw e ((same, h), joined-IsBroken v w g gs same k, rest)
  | inr e ↦ rw e (tt, same_line-apart w v e, (h, k, rest))
]

group_by_line-words : (ws : List Word) → words_of (group_by_line ws) ≡ ws
unfolding group_by_line
group_by_line-words [] = refl
group_by_line-words (w ∷ ws) =
    put_in_group-words w (group_by_line ws) ∙ ap (λ vs. w ∷ vs) (group_by_line-words ws)

group_by_line-AreLines : (ws : List Word) → AreLines (group_by_line ws)
unfolding group_by_line
group_by_line-AreLines [] = tt
group_by_line-AreLines (w ∷ ws) =
    put_in_group-AreLines w (group_by_line ws) (group_by_line-AreLines ws)

module _ (lib : Libraries) where
  open lib use {MuPage, get_text_words, nfkd}

  -- The text that is read inside a rectangle of a page is made of all words of the page that meet
  -- the rectangle, and of no others, each as often as the page lists it, in the order of their paragraph, line and
  -- position: it is cut into lines exactly where the number of the paragraph or of the line changes,
  -- the words of a line are joined by blanks and the lines by line breaks, and the result is
  -- normalised.
  pub extract_text_from_page-reads :
      (page : MuPage) (rect : Rect)
      → (lines : List (List Word)) × (extract_text_from_page lib page rect
          ≡ nfkd (join (10 ∷ []) (map line_text lines)))
        × Permᴰ (words_in lib rect (get_text_words page)) (words_of lines)
        × ((w : Word)
            → IsIn w (words_in lib rect (get_text_words page))
              ↔ (IsIn w (get_text_words page) × Meets lib rect w))
        × IsSorted (words_of lines)
        × AreLines lines
  unfolding extract_text_from_page sort_words
  extract_text_from_page-reads page rect =
      let ws : List Word = words_in lib rect (get_text_words page) in
      let same : words_of (group_by_line (sort_words ws)) ≡ sort_words ws =
        group_by_line-words (sort_words ws) in
      let all : Permᴰ ws (sort_words ws) =
        subst (λ vs. Permᴰ vs (sort_words ws)) (append-nil ws) (sort_words_onto-words [] ws) in
      (
        group_by_line (sort_words ws),
        refl,
        subst (λ vs. Permᴰ ws vs) (sym same) all,
        words_in_iff lib rect (get_text_words page),
        subst IsSorted (sym same) (sort_words_onto-IsSorted [] ws tt),
        group_by_line-AreLines (sort_words ws),
      )
