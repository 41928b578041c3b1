-- ===== src/Resumes/Laws.antt =====
-- The task of parse_resume.py.
use recruit_me.Prelude.{ℕ, ◌⊎◌, ◌≡◌, String, none, some, [], ◌∷◌, ◌++◌, ◌==◌, find}
use recruit_me.Resumes.{ResumeStatus, Resume, ResumeParse, Shelf}

-- The résumé failed with a reason and no parse was added, or it is parsed, without an error, and
-- one parse of it was added.
abbrev pub IsSettled : ℕ → Shelf → Shelf → Type 0
IsSettled id s s' =
    (r' : Resume) × (find (λ r. r.id == id) s'.resumes ≡ some r')
    × (s'.committed ≡ s'.resumes)
    × (((r'.status ≡ ResumeStatus.failed)
          × (reason : String) × (r'.parse_error ≡ some reason)
          × (s'.parses ≡ s.parses))
        ⊎ ((r'.status ≡ ResumeStatus.parsed)
            × (r'.parse_error ≡ none)
            × (p : ResumeParse) × (p.resume_id ≡ r'.id)
            × (s'.parses ≡ s.parses ++ p ∷ [])))
