-- ===== src/Service/Signals/Placed.antt =====
-- service/signals/signals.go: the effect of one write and of one removal.
use lab_env.Common.{
  sym, subst, ◌≡◌, ◌⊎◌, refl, inl, inr, none, some, Option, Option-cases, List, [], drop, ◌∙◌,
}
use lab_env.Common.Errors.{Error}
use lab_env.Common.Bytes.{Bytes}
use lab_env.AtomicFile.{
  replace_file, run_stage, signal_stages, TempFile, Refusals, Stage, Run, Files,
}
use lab_env.AtomicFile.Crash.{stage_failure-target}
use lab_env.Service.Signals.{
  Host, SignalDir, SignalFile, Removal, content, with_content, write_atomic, remove_file,
  next_removal, moved, atomic_error, next_refusals,
}

abbrev pub after_write : SignalDir → Host → Host
after_write d h = moved d (record h { refusals = drop 1 h.refusals })

-- A replacement shows the new content, or there was an error and it shows the old one.
abbrev Replaced : SignalFile → Bytes → Option Bytes → Run (Option Bytes) → Type 0
Replaced f new old run =
    ((atomic_error f run.error ≡ none) × (run.files.target ≡ some new))
    ⊎ ((e : Error) × (atomic_error f run.error ≡ some e) × (run.files.target ≡ old))

stage-Replaced :
    (f : SignalFile) (new : Bytes) (old : Option Bytes) (refuses : Option Error) (stage : Stage)
    (next : Run (Option Bytes)) (fs : Files (Option Bytes)) (seen : List (Files (Option Bytes)))
    → fs.target ≡ old
    → Replaced f new old next
    → Replaced f new old (run_stage refuses stage next fs seen)
unfolding replace_file atomic_error
stage-Replaced f new old none stage next fs seen same h = h
stage-Replaced f new old (some e) stage next fs seen same h =
    inr (_, refl, stage_failure-target stage fs ∙ same)

replaced :
    (f : SignalFile) (r : Refusals) (new : Bytes) (old : Option Bytes)
    → Replaced f new old (
        replace_file r signal_stages
          (some new)
          (record { target = old; temp = TempFile.missing; torn = some [] })
          [])
unfolding replace_file atomic_error
replaced f r new old = stage-Replaced f new old (r Stage.create_temp) _ _ _ _ refl (
    stage-Replaced f new old (r Stage.write) _ _ _ _ refl (
      stage-Replaced f new old (r Stage.close) _ _ _ _ refl (
        stage-Replaced f new old (r Stage.chmod) _ _ _ _ refl
          (stage-Replaced f new old (r Stage.rename) _ _ _ _ refl (inl (refl, refl))))))

with_content-content : (f : SignalFile) (d : SignalDir) → with_content f (content f d) d ≡ d
unfolding with_content content
with_content-content SignalFile.pid_file d = refl
with_content-content SignalFile.healthy_file d = refl
with_content-content SignalFile.loading_file d = refl
with_content-content SignalFile.status_file d = refl

-- A write places the new content and reports no error, or it reports one and the directory is as
-- it was.
pub write_atomic-cases :
    (f : SignalFile) (bytes : Bytes) (h : Host)
    → (write_atomic f bytes h ≡ (none, after_write (with_content f (some bytes) h.dir) h))
      ⊎ ((e : Error) × (write_atomic f bytes h ≡ (some e, after_write h.dir h)))
unfolding write_atomic
write_atomic-cases f bytes h =
    elim (replaced f (next_refusals h.refusals) bytes (content f h.dir)) [
      | inl (e, t) ↦ inl (rw (e, t))
      | inr (x, e, t) ↦ inr (x, rw (e, t, with_content-content f h.dir))
    ]

-- A removal takes the file away and reports nothing else; where the file is not there, or the
-- removal is refused, the directory is as it was.
abbrev pub after_removal : Host → Host
after_removal h = record h { removals = drop 1 h.removals }

pub remove_file-cases :
    (f : SignalFile) (h : Host)
    → (remove_file f h ≡ (Removal.removed, moved (with_content f none h.dir) (after_removal h)))
      ⊎ ((remove_file f h ≡ (Removal.not_exist, after_removal h)) × (content f h.dir ≡ none))
      ⊎ ((e : Error) × (remove_file f h ≡ (Removal.refused e, after_removal h))
          × (next_removal h.removals ≡ some e))
unfolding remove_file
remove_file-cases f h = elim (Option-cases (content f h.dir)) [
  | inl gone ↦ inr (inl (rw gone, gone))
  | inr (c, is) ↦ elim (Option-cases (next_removal h.removals)) [
    | inl may ↦ inl (rw (is, may))
    | inr (e, not) ↦ inr (inr (e, rw (is, not), not))
  ]
]

-- Where the operating system refuses nothing.
pub write_atomic-accepted :
    (f : SignalFile) (bytes : Bytes) (h : Host)
    → h.refusals ≡ []
    → write_atomic f bytes h ≡ (none, after_write (with_content f (some bytes) h.dir) h)
unfolding write_atomic next_refusals replace_file
write_atomic-accepted f bytes h free = rw free refl

pub remove_file-allowed :
    (f : SignalFile) (h : Host)
    → h.removals ≡ []
    → (remove_file f h ≡ (Removal.removed, moved (with_content f none h.dir) (after_removal h)))
      ⊎ ((remove_file f h ≡ (Removal.not_exist, after_removal h)) × (content f h.dir ≡ none))
unfolding next_removal
remove_file-allowed f h free = elim (remove_file-cases f h) [
  | inl e ↦ inl e
  | inr (inl e) ↦ inr e
  | inr (inr (x, e, not)) ↦ let absurd_case = rw free at not in cc
]

pub remove_file-accepted :
    (f : SignalFile) (h : Host)
    → h.removals ≡ []
    → (remove_file f h).1.dir ≡ with_content f none h.dir
remove_file-accepted f h free = elim (remove_file-allowed f h free) [
  | inl e ↦ rw e refl
  | inr (e, gone) ↦
      rw e (sym (subst (λ c. with_content f c h.dir ≡ h.dir) gone (with_content-content f h.dir)))
]

-- A removal uses up its own refusal only.
pub remove_file-kept :
    (f : SignalFile) (h : Host)
    → ((remove_file f h).1.refusals ≡ h.refusals)
      × ((remove_file f h).1.removals ≡ drop 1 h.removals)
remove_file-kept f h = elim (remove_file-cases f h) [
  | inl e ↦ rw e (refl, refl)
  | inr (inl (e, gone)) ↦ rw e (refl, refl)
  | inr (inr (x, e, not)) ↦ rw e (refl, refl)
]
