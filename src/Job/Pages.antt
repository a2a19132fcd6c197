-- ===== src/Job/Pages.antt =====
-- `qiitaDay`: the loop over the pages of one day.
use my_tech_pulse.Base.{
  ℕ, ◌+◌, ◌-◌, ◌≤◌, ◌≡◌, refl, Bool, ◌||◌, [], ◌∷◌, List, ltb, if◌then◌else◌, length, Time, arith,
  Bool-cases, inl, inr,
}
use my_tech_pulse.Unicode.{Unicode}
use my_tech_pulse.TagMatch.{TagMatcher}
use my_tech_pulse.Job.{cut, Progress, on_outcome, qiita_max_page}
use my_tech_pulse.Job.Qiita.{
  PageTurn, QiitaEvent, qiita_skipped, qiita_page, qiita_turn, qiita_event, run_qiita,
}

-- A round of the loop: whether the context has ended when it starts, and what its call meets.
pub record Round : Type 0 where
  pub has_ended : Bool
  pub turn : PageTurn

module _ ⦃u : Unicode⦄ where
  -- The loop from a page on, with what its rounds meet.
  unfoldable pub pages_from : TagMatcher → Time → ℕ → List Round → Progress → Progress
  unfolding qiita_turn cut
  pages_from m cutoff page [] f = f
  pages_from m cutoff page (r ∷ rounds) f =
      let done = qiita_turn m cutoff (record r.turn { page = page }) f in
      let next = pages_from m cutoff (page + 1) rounds done.0 in
      if ltb qiita_max_page page
      then f
      else if f.stopped || r.has_ended
      then on_outcome cut f
      else if done.1
      then next
      else done.0

  unfoldable pub qiita_day : TagMatcher → Time → List Round → Progress → Progress
  unfolding pages_from
  qiita_day m cutoff rounds f = pages_from m cutoff 1 rounds f

  -- The events of the loop.
  abbrev HasEvents : TagMatcher → Time → ℕ → Progress → Progress → Type 0
  HasEvents m cutoff n f g =
      (events : List QiitaEvent) × (g ≡ run_qiita m cutoff events f) × (length events ≤ n)

  pages_from-HasEvents :
      (m : TagMatcher) (cutoff : Time) (page : ℕ) (rounds : List Round) (f : Progress)
      → HasEvents m cutoff (101 - page) f (pages_from m cutoff page rounds f)
  unfolding pages_from run_qiita qiita_event
  pages_from-HasEvents m cutoff page [] f = ([], refl, omega arith)
  pages_from-HasEvents m cutoff page (r ∷ rounds) f = elim (Bool-cases (ltb qiita_max_page page)) [
    | inl past ↦ rw (past, pages_from) ([], refl, omega arith)
    | inr asked ↦ elim (Bool-cases (f.stopped || r.has_ended)) [
      | inl stop ↦ rw (asked, stop, pages_from) (qiita_skipped ∷ [], refl, ground (arith, asked))
      | inr goes ↦
          let t : PageTurn = record r.turn { page = page } in
          elim (Bool-cases (qiita_turn m cutoff t f).1) [
            | inr last ↦
                rw (asked, goes, last, pages_from) (qiita_page t ∷ [], refl, ground (arith, asked))
            | inl more ↦
                let rest =
                  pages_from-HasEvents m cutoff (page + 1) rounds (qiita_turn m cutoff t f).0 in
                rw (asked, goes, more, pages_from)
                  (qiita_page t ∷ rest.0, rest.1, ground (arith, asked, rest.2))
          ]
    ]
  ]

  -- The loop over the pages of a day comes down to at most 100 events of its worker, whatever its rounds
  -- meet.
  pub qiita_day-events :
      (m : TagMatcher) (cutoff : Time) (rounds : List Round) (f : Progress)
      → (events : List QiitaEvent) × (qiita_day m cutoff rounds f ≡ run_qiita m cutoff events f)
        × (length events ≤ 100)
  unfolding qiita_day
  qiita_day-events m cutoff rounds f = pages_from-HasEvents m cutoff 1 rounds f
