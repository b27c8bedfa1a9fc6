-- ===== src/Event/Examples.antt =====
-- src/event.rs: a text with a character of two bytes across the limit.
use signal_fish_client_rust.Common.{ℕ, ◌≤◌, ◌≡◌, refl, true, List, [], ◌∷◌, length}
use signal_fish_client_rust.Event.{
  take, is_char_boundary, truncate_on_char_boundary, truncate_on_char_boundary-longest,
}

abbrev split_text : List ℕ
split_text = 97 ∷ 195 ∷ 169 ∷ 98 ∷ []

truncate_on_char_boundary-longest_example :
    (end : ℕ) × (truncate_on_char_boundary split_text 2 ≡ take end split_text)
    × (is_char_boundary end split_text ≡ true)
    × (length (truncate_on_char_boundary split_text 2) ≤ 2)
    × ((n : ℕ) → n ≤ 2 → is_char_boundary n split_text ≡ true → n ≤ end)
truncate_on_char_boundary-longest_example = truncate_on_char_boundary-longest split_text 2

cut_before_character : truncate_on_char_boundary split_text 2 ≡ 97 ∷ []
unfolding truncate_on_char_boundary
cut_before_character = refl
