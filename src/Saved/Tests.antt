-- ===== src/Saved/Tests.antt =====
-- A user saves, saves again and removes.
use my_tech_pulse.Base.{◌≡◌, ◌≤◌, refl, true, false, some, [], ◌∷◌, pos, negsuc}
use my_tech_pulse.Saved.{
  Db, Faults, created, user_not_found, article_not_found, saved_user_id, has_id, is_saved,
  count_saved, insert_saved, delete_saved, save_row, save_for, save, unsave, saved_articles_limit,
}
use my_tech_pulse.Saved.Limit.{IsUnique, Reach, empty, saves, changes, saved_limit}

program : Unit {0}
unfolding saved_user_id has_id is_saved count_saved insert_saved delete_saved save_row save_for save
    unsave
program = tt

abbrev calm : Faults
calm = record {
  begin_fails = false;
  lock_fails = false;
  exists_fails = false;
  article_fails = false;
  count_fails = false;
  article_gone = false;
  insert_fails = false;
  commit_fails = false;
}

abbrev start : Db
start = record { users = 3 ∷ []; articles = 10 ∷ 11 ∷ []; saved = [] }

abbrev one : Db
one = record start { saved = (3, 10) ∷ [] }

first : save calm start (pos 3) 10 ≡ (one, created true)
unfolding program
first = refl

again : save calm one (pos 3) 10 ≡ (one, created false)
unfolding program
again = refl

no_article : save calm one (pos 3) 12 ≡ (one, article_not_found)
unfolding program
no_article = refl

deleted : save (record calm { article_gone = true }) one (pos 3) 11 ≡ (one, article_not_found)
unfolding program
deleted = refl

negative : save calm one (negsuc 2) 11 ≡ (one, user_not_found)
unfolding program
negative = refl

removed : unsave false one (pos 3) 10 ≡ (start, false)
unfolding program
removed = refl

three : saved_user_id (pos 3) ≡ some 3
unfolding program
three = refl

three_there : has_id 3 (3 ∷ []) ≡ true
unfolding program
three_there = refl

one-Reach : Reach one
unfolding program
one-Reach =
    saves calm start (pos 3) 10
      (changes (3 ∷ []) (10 ∷ 11 ∷ []) (record { users = []; articles = []; saved = [] }) empty)

saved_limit_example :
    (count_saved 3 ((3, 10) ∷ []) ≤ saved_articles_limit) × IsUnique ((3, 10) ∷ [])
saved_limit_example = saved_limit one 3 one-Reach
