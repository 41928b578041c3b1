-- ===== src/Matches/Tests.antt =====
-- Three matches of two users.
use recruit_me.Prelude.{
  ℕ, ◌≡◌, ◌≢◌, ◌∙◌, sym, ap, refl, String, Bool, false, none, some, List, [], ◌∷◌, select, arith,
  IsOrdered, order_by,
}
use mathlib.Core.List.{Perm, Memᴰ}
use mathlib.Core.List.Memᴰ
use mathlib.Core.Logic.{∥∥₁_elim}
use text.Mathlib.TextEquality.{IsScalar-prop}
use recruit_me.Runs.State.{MatchStatus}
use recruit_me.Matches.{MatchRow, MatchQuery, is_wanted, by_match, list_matches}
use recruit_me.Matches.Pages.{
  IsAnswer, IsUntied, order_by-IsAnswer, items_of_pages, list_matches_complete,
}

abbrev match_of : ℕ → ℕ → ℕ → MatchRow
match_of id user_id percentage = record {
  id = id;
  created_at = id;
  row = record {
    user_id = user_id;
    run_id = some 1;
    job_profile_id = some 1;
    external_hash = "h";
    source = "yc";
    company = "c";
    title = "t";
    location = "";
    url = "";
    description_excerpt = "";
    salary = "";
    posted_date = "";
    match_percentage = percentage;
    matched_skills = [];
    missing_skills = [];
    why_fit = "";
    urgency = "LOW";
    recommended_action = "";
    matched_profile_id = "";
    status = MatchStatus.new;
    applied_at = none;
  };
}

abbrev three : List MatchRow
three = match_of 1 7 60 ∷ match_of 2 8 90 ∷ match_of 3 7 80 ∷ []

abbrev all_matches : MatchQuery
all_matches = record { run = none; profile = none; match_status = none; min_match = 10; q = none }

abbrev never_like : String → String → Bool
never_like text pattern = false

abbrev sorts : ℕ → List MatchRow → List MatchRow
sorts page = order_by by_match

sorts-IsAnswer : (page : ℕ) → IsAnswer (sorts page)
sorts-IsAnswer page = order_by-IsAnswer

MatchStatus-set : IsSet MatchStatus
MatchStatus-set = hlevel

MatchRow-set : IsSet MatchRow
MatchRow-set = hlevel (IsScalar-prop)

one-ne-three : ◌≢◌ {A = ℕ} 1 3
one-ne-three e = omega arith

two-IsUntied :
    (x y : MatchRow)
    → Memᴰ x (match_of 1 7 60 ∷ match_of 3 7 80 ∷ [])
    → Memᴰ y (match_of 1 7 60 ∷ match_of 3 7 80 ∷ [])
    → x.created_at ≡ y.created_at
    → x ≡ y
two-IsUntied x y (Memᴰ.head e) (Memᴰ.head f) t = e ∙ sym f
two-IsUntied x y (Memᴰ.head e) (Memᴰ.tail (Memᴰ.head f)) t = absurd (
    one-ne-three
      (sym (ap (λ (m : MatchRow). m.created_at) e) ∙ t ∙ ap (λ (m : MatchRow). m.created_at) f))
two-IsUntied x y (Memᴰ.tail (Memᴰ.head e)) (Memᴰ.head f) t = absurd (
    one-ne-three
      (sym (ap (λ (m : MatchRow). m.created_at) f) ∙ sym t ∙ ap (λ (m : MatchRow). m.created_at) e))
two-IsUntied x y (Memᴰ.tail (Memᴰ.head e)) (Memᴰ.tail (Memᴰ.head f)) t = e ∙ sym f
two-IsUntied x y (Memᴰ.tail (Memᴰ.tail m)) n t = absurd (Memᴰ.not-nil m)
two-IsUntied x y m (Memᴰ.tail (Memᴰ.tail n)) t = absurd (Memᴰ.not-nil n)

three-IsUntied : IsUntied never_like 7 all_matches three
unfolding select
three-IsUntied x y m n percentage time =
    ∥∥₁_elim m (MatchRow-set x y)
      (λ a. ∥∥₁_elim n (MatchRow-set x y) (λ b. two-IsUntied x y a b time))

list_matches_complete_example :
    Perm
      (items_of_pages sorts never_like 7 all_matches 1 2 1 three)
      (select (is_wanted never_like 7 all_matches) three)
    × IsOrdered by_match (items_of_pages sorts never_like 7 all_matches 1 2 1 three)
unfolding list_matches select
list_matches_complete_example =
    list_matches_complete sorts never_like 7 all_matches 1 three sorts-IsAnswer three-IsUntied 2
      (omega arith)

-- One match on each page, the better one first.
first_page :
    (list_matches (sorts 1) never_like 7 all_matches 1 1 three).items ≡ match_of 3 7 80 ∷ []
unfolding list_matches select order_by
first_page = refl
