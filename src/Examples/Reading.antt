-- ===== src/Examples/Reading.antt =====
-- Two pages that hold the same two words and hand them out in different orders.
use mathlib.Core.List.{Permᴰ}
use notifications_template_p.Prelude.{◌↔◌, List, map, ℕ, ◌==◌, ◌≡◌, refl, [], ◌∷◌, if◌then◌else◌}
use notifications_template_p.Prelude.Int.{pos}
use notifications_template_p.Python.Text.{Text, join}
use notifications_template_p.External.{Libraries, Word}
use notifications_template_p.Geometry.Layout.{notify_tag_bounding_box}
use notifications_template_p.Precompiled.Extraction.{
  line_text, extract_text_from_page, group_by_line, sort_words, sort_words_onto, words_in,
  insert_word, put_in_group,
}
use notifications_template_p.Precompiled.Extraction.Order.{extract_text_from_page-perm}
use notifications_template_p.Precompiled.Extraction.Inside.{IsIn, Meets}
use notifications_template_p.Precompiled.Extraction.Lines.{
  IsSorted, AreLines, words_of, extract_text_from_page-reads,
}
use notifications_template_p.Examples.{toy}

abbrev word_at : ℕ → Text → Word
word_at position t = record {
  x1 = pos 1;
  y1 = pos 1;
  x2 = pos 2;
  y2 = pos 2;
  word = t;
  paragraph_number = 0;
  line_number = 0;
  word_position = position;
}

abbrev dear : Word
dear = word_at 0 (b'D' ∷ [])

abbrev reader : Word
reader = word_at 1 (b'R' ∷ [])

abbrev shuffled : Libraries
shuffled = record toy {
  get_text_words = λ p. if p == 0 then dear ∷ reader ∷ [] else reader ∷ dear ∷ [];
}

read_in_order : extract_text_from_page shuffled 1 notify_tag_bounding_box ≡ b'D' ∷ b' ' ∷ b'R' ∷ []
unfolding extract_text_from_page join group_by_line sort_words sort_words_onto words_in insert_word
    put_in_group
read_in_order = refl

extract_text_from_page-perm_example :
    extract_text_from_page shuffled 0 notify_tag_bounding_box
    ≡ extract_text_from_page shuffled 1 notify_tag_bounding_box
extract_text_from_page-perm_example =
    extract_text_from_page-perm shuffled 0 1 notify_tag_bounding_box (Permᴰ.swap refl refl)
      ((refl, tt), (tt, tt))

extract_text_from_page-reads_example :
    (lines : List (List Word)) × (extract_text_from_page shuffled 1 notify_tag_bounding_box
      ≡ join (10 ∷ []) (map line_text lines))
    × Permᴰ (words_in shuffled notify_tag_bounding_box (reader ∷ dear ∷ [])) (words_of lines)
    × ((w : Word)
        → IsIn w (words_in shuffled notify_tag_bounding_box (reader ∷ dear ∷ []))
          ↔ (IsIn w (reader ∷ dear ∷ []) × Meets shuffled notify_tag_bounding_box w))
    × IsSorted (words_of lines)
    × AreLines lines
extract_text_from_page-reads_example =
    extract_text_from_page-reads shuffled 1 notify_tag_bounding_box
