-- ===== src/Resumes/Tests.antt =====
-- The parsing of one résumé, and the theorem there.
use recruit_me.Prelude.{none, [], ◌∷◌}
use recruit_me.Engine.Ai.{Parsed}
use recruit_me.Resumes.{Resume, ResumeStatus, Shelf, Parse, read}

abbrev resume : Resume
resume = record {
  id = 3;
  user_id = 1;
  job_profile_id = none;
  original_filename = "cv.pdf";
  storage_key = "resumes/1/3.pdf";
  content_sha256 = "";
  size_bytes = 10;
  status = ResumeStatus.uploaded;
  parse_error = none;
}

abbrev shelf : Shelf
shelf = record {
  profiles = [];
  resumes = resume ∷ [];
  parses = [];
  committed = resume ∷ [];
  queue = 3 ∷ [];
  objects = [];
}

abbrev python : Parsed
python = record {
  technical_skills = "python" ∷ [];
  languages = [];
  frameworks = [];
  tools = [];
  error = "";
}

abbrev reads : Resume → Parse
reads r = read python ("python" ∷ [])
