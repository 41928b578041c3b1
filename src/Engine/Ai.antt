-- ===== src/Engine/Ai.antt =====
-- packages/engine/src/recruit_engine/ai.py: the answers of the model, the skills of a résumé and the
-- keyword score. `lower` is `str.lower`.
pub mod Laws
use Prim.Native.String
use recruit_me.Prelude.{
  ℕ, String, Bool, true, false, not, ◌&&◌, Option, none, some, List, [], ◌∷◌, ◌++◌, leb,
  if◌then◌else◌, take, length, min, max, select, exists, str_eq, strip, contains, prefix,
}

-- `_extract_json` of an answer: `loads` is `json.loads` of an object, `fenced` and `braced` are what
-- the two regular expressions find. Nothing is the empty object.
module _ {D : Type 0} (loads : String → Option D) (fenced braced : String → Option String) where
  abbrev or_loads : Option D → Option String → Option D
  or_loads (some d) text = some d
  or_loads none none = none
  or_loads none (some text) = loads text

  unfoldable pub extract_json : String → Option D
  extract_json text = or_loads (or_loads (loads (strip text)) (fenced text)) (braced text)

-- The object that the model gives for a résumé, as far as it is read; a list that is missing or null
-- is empty, and so is an error.
pub record Parsed : Type 0 where
  pub technical_skills : List String
  pub languages : List String
  pub frameworks : List String
  pub tools : List String
  pub error : String

abbrev failed_parse : String → Parsed
failed_parse error = record {
  technical_skills = [];
  languages = [];
  frameworks = [];
  tools = [];
  error = error;
}

abbrev reading_of : Option Parsed → Parsed
reading_of none = failed_parse "unparseable LLM response"
reading_of (some p) = p

-- `_resume_skills`
abbrev pub resume_skills : Parsed → List String
resume_skills p = p.technical_skills ++ (p.languages ++ (p.frameworks ++ p.tools))

module _ (lower : String → String) where
  abbrev pub is_seen : List String → String → Bool
  is_seen seen s = exists (λ k. str_eq (lower k) (lower s)) seen

  -- The loop of `skills_from_parse`, with what was seen so far.
  unfoldable pub collect_skills : List String → List String → List String
  collect_skills seen [] = seen
  collect_skills seen (item ∷ items) =
      let skipped = collect_skills seen items in
      let kept = collect_skills (seen ++ strip item ∷ []) items in
      if not (str_eq (strip item) "") && not (is_seen seen (strip item)) then kept else skipped

  -- `skills_from_parse`
  unfoldable pub skills_from_parse : Parsed → List String
  skills_from_parse p = collect_skills [] (resume_skills p)

  -- `parse_resume_text`; the argument `answer` is what the model answers to the prompt.
  unfoldable pub parse_resume_text : (String → Option Parsed) → (String → String) → String → Parsed
  parse_resume_text extract answer text =
      if str_eq (strip text) ""
      then failed_parse "no extractable text"
      else reading_of (extract (answer (prefix 6000 text)))

  -- `{s.lower() for s in ...}`, in the order of the first occurrences; Python leaves it open.
  abbrev lowered_set : List String → List String → List String
  lowered_set seen [] = seen
  lowered_set seen (s ∷ ss) =
      let skipped = lowered_set seen ss in
      let kept = lowered_set (seen ++ lower s ∷ []) ss in
      if exists (λ k. str_eq k (lower s)) seen then skipped else kept

  abbrev pub matched_keywords : Parsed → String → String → List String
  matched_keywords p title description =
      select (λ s. contains s (lower (String.◌++◌ description (String.◌++◌ " " title))))
        (lowered_set [] (resume_skills p))

  -- The percentage, where `scaled m n` is `int(m / n * 100)` in floating point.
  abbrev pub keyword_percentage : (ℕ → ℕ → ℕ) → Parsed → String → String → ℕ
  keyword_percentage scaled p title description =
      min
        (scaled (length (matched_keywords p title description))
          (max (length (lowered_set [] (resume_skills p))) 1))
        100
