-- ===== src/Precompiled/Extraction/Order.antt =====
-- The order in which a page hands out its words does not matter to the text that is read.
use mathlib.Core.List.{Permᴰ}
use notifications_template_p.Prelude.{
  ◌==◌, ◌&&◌, ◌≡◌, refl, sym, subst, ap, ◌∙◌, inl, inr, Bool, true, false, List, [], ◌∷◌, All,
  arith, Bool-cases, map,
}
use notifications_template_p.Python.Text.{join}
use notifications_template_p.External.{Libraries, Word}
use notifications_template_p.Geometry.Layout.{Rect}
use notifications_template_p.Precompiled.Extraction.{
  is_before, insert_word, sort_words_onto, sort_words, words_in, line_text, group_by_line,
  extract_text_from_page,
}

-- Whether two words have the same numbers of paragraph, line and position.
abbrev same_place : Word → Word → Bool
same_place v w =
    v.paragraph_number == w.paragraph_number
    && v.line_number == w.line_number
    && v.word_position == w.word_position

abbrev IsApart : Word → Word → Type 0
IsApart v w = same_place v w ≡ false

-- No two words stand at the same place.
abbrev pub AreApart : List Word → Type 0
AreApart [] = Unit
AreApart (w ∷ ws) = All (IsApart w) ws × AreApart ws

is_before_trans :
    (u v w : Word) → is_before u v ≡ true → is_before v w ≡ true → is_before u w ≡ true
is_before_trans u v w p q = ground arith

pub is_before_asymm : (v w : Word) → is_before v w ≡ true → is_before w v ≡ false
is_before_asymm v w p = ground arith

is_before_total : (v w : Word) → IsApart v w → is_before v w ≡ false → is_before w v ≡ true
is_before_total v w h p = ground arith

insert_word_swap :
    (v w : Word) (ws : List Word)
    → is_before v w ≡ true
    → insert_word v (insert_word w ws) ≡ insert_word w (insert_word v ws)
unfolding insert_word
insert_word_swap v w [] p = rw (p, is_before_asymm v w p)
insert_word_swap v w (u ∷ ws) p = elim (Bool-cases (is_before w u)) [
  | inl q ↦
      let r = is_before_trans v w u p q in
      rw (q, r, insert_word, p, is_before_asymm v w p, insert_word, q)
  | inr q ↦ elim (Bool-cases (is_before v u)) [
    | inl r ↦ rw (q, r, insert_word, is_before_asymm v w p, insert_word, q)
    | inr r ↦ rw (q, r, insert_word, q) (ap (λ l. u ∷ l) (insert_word_swap v w ws p))
  ]
]

insert_word_comm :
    (v w : Word) (ws : List Word)
    → IsApart v w
    → insert_word v (insert_word w ws) ≡ insert_word w (insert_word v ws)
insert_word_comm v w ws h = elim (Bool-cases (is_before v w)) [
  | inl p ↦ insert_word_swap v w ws p
  | inr p ↦ sym (insert_word_swap w v ws (is_before_total v w h p))
]

All-perm : (P : Word → Type 0) {xs ys : List Word} → Permᴰ xs ys → All P xs → All P ys
All-perm P Permᴰ.nil h = h
All-perm P (Permᴰ.cons e d) (h, hs) = (subst P e h, All-perm P d hs)
All-perm P (Permᴰ.swap e f) (h, (k, hs)) = (subst P f k, (subst P e h, hs))
All-perm P (Permᴰ.trans d e) h = All-perm P e (All-perm P d h)

IsApart-symm : (v w : Word) → IsApart v w → IsApart w v
IsApart-symm v w h = ground arith

AreApart-perm : {xs ys : List Word} → Permᴰ xs ys → AreApart xs → AreApart ys
AreApart-perm Permᴰ.nil h = h
AreApart-perm (Permᴰ.cons {b = b} {l₁ = l₁} e d) (h, hs) =
    (All-perm (IsApart b) d (subst (λ w. All (IsApart w) l₁) e h), AreApart-perm d hs)
AreApart-perm (Permᴰ.swap {a = a} {b = b} {a' = a'} {b' = b'} {l = l} e f) ((h, hs), (ks, rest)) =
    let apart = subst (λ v. IsApart v a) f (IsApart-symm a b h) in
    (
      (subst (λ w. IsApart a' w) e apart, subst (λ w. All (IsApart w) l) f ks),
      (subst (λ w. All (IsApart w) l) e hs, rest),
    )
AreApart-perm (Permᴰ.trans d e) h = AreApart-perm e (AreApart-perm d h)

sort_words_onto-perm :
    {xs ys : List Word} (sorted : List Word)
    → Permᴰ xs ys
    → AreApart xs
    → sort_words_onto sorted xs ≡ sort_words_onto sorted ys
unfolding sort_words_onto
sort_words_onto-perm sorted Permᴰ.nil h = refl
sort_words_onto-perm sorted (Permᴰ.cons {l₂ = l₂} e d) (h, hs) =
    sort_words_onto-perm _ d hs ∙ ap (λ w. sort_words_onto (insert_word w sorted) l₂) e
sort_words_onto-perm sorted (Permᴰ.swap {a = a} {b = b} {b' = b'} {l = l} e f)
      ((h, hs), (ks, rest)) =
    ap (λ s. sort_words_onto s l) (insert_word_comm b a sorted (IsApart-symm a b h))
    ∙ ap (λ w. sort_words_onto (insert_word w (insert_word b sorted)) l) e
    ∙ ap (λ v. sort_words_onto (insert_word b' (insert_word v sorted)) l) f
sort_words_onto-perm sorted (Permᴰ.trans d e) h =
    sort_words_onto-perm sorted d h ∙ sort_words_onto-perm sorted e (AreApart-perm d h)

pub Permᴰ-refl : (ws : List Word) → Permᴰ ws ws
Permᴰ-refl [] = Permᴰ.nil
Permᴰ-refl (w ∷ ws) = Permᴰ.cons refl (Permᴰ-refl ws)

module _ (lib : Libraries) where
  open lib use {MuPage, get_text_words, intersects, nfkd}

  abbrev is_inside : Rect → Word → Bool
  is_inside rect w = intersects (record { x1 = w.x1; y1 = w.y1; x2 = w.x2; y2 = w.y2 }) rect

  All-words_in :
      (P : Word → Type 0) (rect : Rect) (ws : List Word) → All P ws → All P (words_in lib rect ws)
  unfolding words_in
  All-words_in P rect [] h = h
  All-words_in P rect (w ∷ ws) (h, hs) = elim (Bool-cases (is_inside rect w)) [
    | inl p ↦ rw p (h, All-words_in P rect ws hs)
    | inr p ↦ rw p (All-words_in P rect ws hs)
  ]

  AreApart-words_in : (rect : Rect) (ws : List Word) → AreApart ws → AreApart (words_in lib rect ws)
  unfolding words_in
  AreApart-words_in rect [] h = h
  AreApart-words_in rect (w ∷ ws) (h, hs) = elim (Bool-cases (is_inside rect w)) [
    | inl p ↦ rw p (All-words_in _ rect ws h, AreApart-words_in rect ws hs)
    | inr p ↦ rw p (AreApart-words_in rect ws hs)
  ]

  words_in-cons :
      (rect : Rect) (w : Word) (xs ys : List Word)
      → Permᴰ (words_in lib rect xs) (words_in lib rect ys)
      → Permᴰ (words_in lib rect (w ∷ xs)) (words_in lib rect (w ∷ ys))
  unfolding words_in
  words_in-cons rect w xs ys d = elim (Bool-cases (is_inside rect w)) [
    | inl p ↦ rw p (Permᴰ.cons refl d)
    | inr p ↦ rw p d
  ]

  words_in-swap :
      (rect : Rect) (v w : Word) (ws : List Word)
      → Permᴰ (words_in lib rect (v ∷ w ∷ ws)) (words_in lib rect (w ∷ v ∷ ws))
  unfolding words_in
  words_in-swap rect v w ws = elim (Bool-cases (is_inside rect v)) [
    | inl p ↦ elim (Bool-cases (is_inside rect w)) [
      | inl q ↦ rw (p, q) (Permᴰ.swap refl refl)
      | inr q ↦ rw (p, q) (Permᴰ-refl _)
    ]
    | inr p ↦ rw p (Permᴰ-refl _)
  ]

  words_in-perm :
      {xs ys : List Word} (rect : Rect)
      → Permᴰ xs ys
      → Permᴰ (words_in lib rect xs) (words_in lib rect ys)
  words_in-perm rect Permᴰ.nil = Permᴰ-refl _
  words_in-perm rect (Permᴰ.cons {a = a} {l₁ = l₁} {l₂ = l₂} e d) =
      subst (λ w. Permᴰ (words_in lib rect (a ∷ l₁)) (words_in lib rect (w ∷ l₂))) e
        (words_in-cons rect a l₁ l₂ (words_in-perm rect d))
  words_in-perm rect (Permᴰ.swap {a = a} {b = b} {a' = a'} {l = l} e f) =
      let before : List Word = words_in lib rect (a ∷ b ∷ l) in
      subst (λ w. Permᴰ before (words_in lib rect (a' ∷ w ∷ l))) e
        (subst (λ v. Permᴰ before (words_in lib rect (v ∷ a ∷ l))) f (words_in-swap rect a b l))
  words_in-perm rect (Permᴰ.trans d e) = Permᴰ.trans (words_in-perm rect d) (words_in-perm rect e)

  -- The text read inside a rectangle depends on which words a page holds and not on the order in
  -- which the page hands them out: when two pages list the same words in different orders, and no
  -- two of them have the same paragraph, line and position numbers, the two texts are equal.
  pub extract_text_from_page-perm :
      (page page' : MuPage) (rect : Rect)
      → Permᴰ (get_text_words page) (get_text_words page')
      → AreApart (get_text_words page)
      → extract_text_from_page lib page rect ≡ extract_text_from_page lib page' rect
  unfolding extract_text_from_page sort_words
  extract_text_from_page-perm page page' rect d h =
      ap (λ ws. nfkd (join (10 ∷ []) (map line_text (group_by_line ws))))
        (sort_words_onto-perm [] (words_in-perm rect d) (AreApart-words_in rect _ h))
