-- ===== src/Scrapers/HackerNews.antt =====
-- scrapers/hn_scraper.py. `today` is the date, `item_url` writes a comment's number into its link.
use recruit_me.Prelude.{
  ℕ, zero, suc, String, Bool, true, false, ◌&&◌, ◌||◌, Option, none, some, List, [], ◌∷◌, ◌++◌,
  ◌==◌, if◌then◌else◌, take, prefix, str_eq, contains, exists, strip, split, size,
}
use recruit_me.Scrapers.{ScrapedJob, or_default}

-- What follows the next `>`, if something stands before it.
abbrev after_tag : Bool → String → Option String
after_tag some_text String.[] = none
after_tag some_text (String.◌∷◌ c s) =
    let rest = after_tag true s in
    if str_eq (String.◌∷◌ c String.[]) ">" then (if some_text then some s else none) else rest

-- `re.sub(r"<[^>]+>", " ", text)`, on as much fuel as the text is long
abbrev pub without_tags : ℕ → String → String
without_tags zero s = s
without_tags (suc fuel) String.[] = ""
without_tags (suc fuel) (String.◌∷◌ c s) =
    let kept = String.◌∷◌ c (without_tags fuel s) in
    if str_eq (String.◌∷◌ c String.[]) "<"
    then (elim (after_tag false s) [
      | none ↦ kept
      | some rest ↦ String.◌∷◌ " " (without_tags fuel rest)
    ])
    else kept

-- `text_clean`
abbrev pub clean_text : String → String
clean_text text = strip (without_tags (size text) text)

abbrev first_of : List String → String
first_of [] = ""
first_of (t ∷ ts) = t

abbrev place_hints : List String
place_hints = "india" ∷ "bangalore" ∷ "remote" ∷ "bengaluru" ∷ []

module _ (lower : String → String) where
  abbrev first_place : List String → String
  first_place [] = ""
  first_place (part ∷ parts) =
      if exists (λ k. contains k (lower (strip part))) place_hints
      then strip part
      else first_place parts

  -- `_extract_company_and_location`
  abbrev pub extract_company_and_location : String → String × String
  extract_company_and_location text =
      let parts = split "|" text in (strip (first_of parts), first_place parts)

  abbrev is_there : String → String → Bool
  is_there text loc =
      ((str_eq (lower loc) "bengaluru" || str_eq (lower loc) "bangalore")
        && (contains "india" text || contains "bangalore" text))
      || (str_eq (lower loc) "remote" && contains "remote" text)

  -- `_matches_role_and_location`
  unfoldable pub matches_role_and_location : String → List String → List String → Bool
  matches_role_and_location text roles locations =
      exists (λ r. contains (lower r) (lower text)) roles
      && exists (is_there (lower text)) locations

  abbrev job_of_comment : String → (ℕ → String) → ℕ → String → ScrapedJob
  job_of_comment today item_url kid_id text =
      let (company, location) = extract_company_and_location text in
      record {
        company = or_default company "HN Company";
        title = prefix 200 (first_of (split "\n" text));
        location = or_default location "See description";
        description = prefix 3000 text;
        apply_url = item_url kid_id;
        posted_date = today;
        salary = "";
        company_type = "Startup";
        company_size = "";
        source = "HackerNews";
        job_type = "";
      }

  -- One turn of the loop: a comment that cannot be fetched, or does not match, is passed over.
  abbrev pub comment_job :
      String → (ℕ → String) → List String → List String → ℕ → Option String → List ScrapedJob
  comment_job today item_url roles locations kid_id none = []
  comment_job today item_url roles locations kid_id (some text) =
      if matches_role_and_location (clean_text text) roles locations
      then job_of_comment today item_url kid_id (clean_text text) ∷ []
      else []

  abbrev pub comment_jobs :
      String
      → (ℕ → String)
      → (ℕ → Option String)
      → List String
      → List String
      → List ℕ
      → List ScrapedJob
  comment_jobs today item_url comment roles locations [] = []
  comment_jobs today item_url comment roles locations (kid ∷ kids) =
      comment_job today item_url roles locations kid (comment kid)
      ++ comment_jobs today item_url comment roles locations kids

  -- The thread's comments, unless there is no thread or it cannot be fetched.
  abbrev pub kids_of : (ℕ → Option (List ℕ)) → ℕ → List ℕ
  kids_of thread thread_id =
      if thread_id == 0 then [] else (elim (thread thread_id) [ none ↦ [] | some kids ↦ kids ])

  -- `scrape_hn_hiring`; nothing for the exception that the search for the thread may raise. No
  -- found thread has the number 0.
  unfoldable pub scrape_hn_hiring :
      String
      → (ℕ → String)
      → Option ℕ
      → (ℕ → Option (List ℕ))
      → (ℕ → Option String)
      → List String
      → List String
      → Option (List ScrapedJob)
  scrape_hn_hiring today item_url none thread comment roles locations = none
  scrape_hn_hiring today item_url (some thread_id) thread comment roles locations =
      some
        (comment_jobs today item_url comment roles locations (take 200 (kids_of thread thread_id)))
