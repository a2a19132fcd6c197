-- ===== src/Interest/Tests.antt =====
-- The updates on concrete rows, and instances of their theorems.
use my_tech_pulse.Base.{
  leb_int, int_eq, length, min, ◌++◌, ◌≡◌, ◌≢◌, refl, none, some, [], ◌∷◌, List, map, if◌then◌else◌,
  Text, text_eq, text_lt, codes, lookup, insert,
}
use my_tech_pulse.Unicode.{
  Unicode, ascii, fold, to_lower, trim_space, is_space, trim_left, trim_right, trim_cons,
}
use my_tech_pulse.Interest.{
  Weight, is_empty, has, normalize_tag, key_set, pos, negsuc, update_at, decay, boosted, clamp,
  add_int64, boost_keys, insert_sorted, sort_texts, new_weight, collides, validate_current,
  tag_index, apply_boosts, update_on_click, update_on_save, click_boost,
}
use my_tech_pulse.Interest.Keys.{weight_of}
use my_tech_pulse.Interest.Boosts.{raised}
use my_tech_pulse.Interest.Learning.{decayed, update_on_click_lem}
use my_tech_pulse.Interest.Top.{positive, count_of, comes_before, top, AreInOrder, top_lem}
use my_tech_pulse.Base.{sort_by, insert_by, count_if, ltb, ◌&&◌}

program : Unit {0}
unfolding is_empty has normalize_tag key_set update_at decay boosted clamp add_int64 boost_keys
    insert_sorted sort_texts new_weight collides validate_current tag_index apply_boosts
    update_on_click update_on_save weight_of fold to_lower trim_space is_space trim_left trim_right
    trim_cons text_eq text_lt lookup insert positive count_of comes_before insert_by sort_by top
    leb_int int_eq
program = tt

instance abbrev table : Unicode
table = ascii

abbrev go_tag : Weight
go_tag = record { tag_id = 1; tag = codes "Go"; value = pos 875 }

abbrev other : Weight
other = record { tag_id = 2; tag = codes "other"; value = negsuc 4 }

abbrev rows : List Weight
rows = go_tag ∷ other ∷ []

abbrev clicked : List Text
clicked = codes " go " ∷ codes "Rust" ∷ codes "GO" ∷ codes "AWS" ∷ codes " " ∷ []

abbrev learnt : List Weight
learnt =
    record go_tag { value = pos 2700 }
    ∷ record other { value = pos 0 }
    ∷ record { tag_id = 0; tag = codes "aws"; value = pos 2000 }
    ∷ record { tag_id = 0; tag = codes "rust"; value = pos 2000 }
    ∷ []

click : update_on_click rows clicked ≡ some learnt
unfolding program
click = refl

collision : update_on_click (go_tag ∷ record go_tag { tag = codes " go " } ∷ []) clicked ≡ none
unfolding program
collision = refl

saved : List Weight
saved = record go_tag { value = pos 3875 } ∷ other ∷ []

save : update_on_save rows (codes "GO" ∷ []) ≡ some saved
unfolding program saved
save = refl

go_key : codes "go" ≢ []
go_key e = cc

update_on_click_lem_example : weight_of (codes "go") learnt ≡ (
    if has (codes "go") (map normalize_tag clicked)
    then raised click_boost (decayed (weight_of (codes "go") rows))
    else decayed (weight_of (codes "go") rows))
update_on_click_lem_example = update_on_click_lem (codes "go") rows clicked learnt go_key click

abbrev many : List Weight
many =
    record { tag_id = 1; tag = codes "go"; value = pos 8000 }
    ∷ record { tag_id = 2; tag = codes "none"; value = pos 0 }
    ∷ record { tag_id = 3; tag = codes "Android"; value = pos 8000 }
    ∷ record { tag_id = 4; tag = codes " Rust "; value = pos 9000 }
    ∷ []

top_two :
    top many (pos 2)
    ≡ record { tag_id = 4; tag = codes " Rust "; value = pos 9000 }
      ∷ record { tag_id = 3; tag = codes "Android"; value = pos 8000 }
      ∷ []
unfolding program
top_two = refl

top_lem_example :
    (rest : List Weight) × AreInOrder (top many (pos 2) ++ rest)
    × (count_if (λ w. leb_int (pos 8000) w.value) (top many (pos 2) ++ rest)
        ≡ count_if (λ w. ltb 0 (count_of w.value) && leb_int (pos 8000) w.value) many)
    × (length (top many (pos 2)) ≡ min (count_of (pos 2)) (length (top many (pos 2) ++ rest)))
top_lem_example = top_lem many (pos 2) (λ w. leb_int (pos 8000) w.value)
