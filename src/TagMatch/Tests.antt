-- ===== src/TagMatch/Tests.antt =====
-- The matcher on a concrete table, and an instance of its theorem.
use my_tech_pulse.Base.{
  ◌≡◌, refl, some, [], ◌∷◌, List, codes, text_eq, lookup, insert, insert_by, sort_by,
}
use my_tech_pulse.Unicode.{
  Unicode, ascii, fold, to_lower, trim_space, is_space, trim_left, trim_right, trim_cons,
}
use my_tech_pulse.Interest.{is_empty, normalize_tag}
use my_tech_pulse.TagMatch.{
  TagRef, comes_first, put_exact, put_compact, compact_key, ends_in, ids_of, single, has_id,
  add_refs, new_tag_matcher, match_tag, append_new, match_from, match_all,
}
use my_tech_pulse.TagMatch.Exact.{least_id, id_for, least, match_tag-least}

program : Unit {0}
unfolding is_empty normalize_tag fold to_lower trim_space is_space trim_left trim_right trim_cons
    text_eq lookup insert insert_by sort_by comes_first put_exact put_compact compact_key ends_in
    ids_of single has_id add_refs new_tag_matcher match_tag append_new match_from match_all least_id
    id_for least
program = tt

instance abbrev table : Unicode
table = ascii

abbrev tags : List TagRef
tags =
    record { id = 4; name = codes "Spring Boot" }
    ∷ record { id = 9; name = codes "GO" }
    ∷ record { id = 2; name = codes "go" }
    ∷ []

matched :
    match_all
      (new_tag_matcher tags)
      (codes "SpringBoot" ∷ codes " Go" ∷ codes "vim" ∷ codes "go" ∷ [])
    ≡ 4 ∷ 2 ∷ []
unfolding program
matched = refl

match_tag-least_example : match_tag (new_tag_matcher tags) (codes " Go") ≡ some 2
match_tag-least_example =
    match_tag-least tags (codes " Go") 2 (unfold program in refl) (unfold program in refl)
