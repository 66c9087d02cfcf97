-- ===== src/Invariants.antt =====
-- internal/invariants/spec_index.go: the index of the specification, its markdown, and the
-- regeneration of its section in docs/codebase-reference.md. A text is the list of its code points.
pub mod Mapping
pub mod Models
pub mod Contracts
pub mod Texts
pub mod Regenerated
pub mod Complete
use lab_env.Common.{
  ℕ, suc, ◌+◌, String, Bool, true, false, ◌&&◌, ◌==◌, string_eq, Option, none, some, List, [], ◌∷◌,
  ◌++◌, if◌then◌else◌, not, nat_eq, map, keep, length, take, drop, ltb, leb,
}
use lab_env.Common.Errors.{Error, Result, ok, err, message, errorf, text, cause, nil}
use lab_env.Common.Bytes.{Bytes, codes, newline, trim_newlines, drop_newlines}
use Mapping.{SpecSection, SpecMapping}
use Models.{conformance_model, system_state_model, fault_model}
use Texts.{index}
use Contracts.{control_plane_contract, canonical_environment}

-- `SpecIndex`
unfoldable pub spec_index : List SpecMapping
unfolding conformance_model system_state_model fault_model control_plane_contract
    canonical_environment
spec_index =
    conformance_model
    ++ (system_state_model ++ (fault_model ++ (control_plane_contract ++ canonical_environment)))

-- `DocOrder`
abbrev pub doc_order : List String
doc_order =
    "conformance-model.md" ∷ "system-state-model.md" ∷ "fault-model.md"
    ∷ "control-plane-contract.md" ∷ "canonical-enviornment-lab.md" ∷ []

-- `strings.Join(parts, " · ")`
join : List Bytes → Bytes
join [] = []
join (s ∷ []) = s
join (s ∷ t ∷ rest) = s ++ (codes " · " ++ join (t ∷ rest))

-- A text in backquotes.
quoted : Bytes → Bytes
quoted s = codes "`" ++ (s ++ codes "`")

-- `renderImpl`
pub render_impl : SpecMapping → Bytes
unfolding join quoted
render_impl m =
    if m.cross_ref
    then codes "→ (cross-reference)"
    else if m.test_only
    then codes "→ (test-only)"
    else if not (m.constraints == "")
    then codes "constraints: " ++ codes m.constraints
    else if length m.impl_files == 0
    then codes "—"
    else join (map (λ f. quoted (codes f)) m.impl_files)

-- The part of a path behind its last slash.
base_from : Bytes → Bytes → Bytes
base_from base [] = base
base_from base (c ∷ s) = base_from (if c == b'/' then [] else base ++ c ∷ []) s

-- `renderTests`
pub render_tests : SpecMapping → Bytes
unfolding join quoted base_from
render_tests m =
    if length m.test_files == 0
    then codes "—"
    else join (map (λ f. quoted (base_from [] (codes f))) m.test_files)

-- A row of the table of a document.
pub row : SpecMapping → Bytes
unfolding render_impl render_tests
row m =
    codes "| "
    ++ (codes m.spec.section
        ++ (codes " | "
            ++ (codes m.spec.title
                ++ (codes " | "
                    ++ (render_impl m
                        ++ (codes " | "
                            ++ (render_tests m
                                ++ (codes " | " ++ (codes m.note ++ codes " |\n")))))))))

rows : List SpecMapping → Bytes
unfolding row
rows [] = []
rows (m ∷ rest) = row m ++ rows rest

-- The table of a document; a document without entries is skipped.
table : String → List SpecMapping → Bytes
unfolding rows
table doc [] = []
table doc (m ∷ rest) =
    codes "---\n\n### `"
    ++ (codes doc
        ++ (codes "`\n\n"
            ++ (codes "| Section | Title | Primary implementation | Enforcing tests | Notes |\n"
                ++ (codes "|---|---|---|---|---|\n" ++ (rows (m ∷ rest) ++ codes "\n")))))

tables : List String → List SpecMapping → Bytes
unfolding table
tables [] index = []
tables (doc ∷ docs) index = table doc (keep (λ m. m.spec.doc == doc) index) ++ tables docs index

-- The guards of the section.
unfoldable pub begin_guard : Bytes
begin_guard = codes "<!-- BEGIN GENERATED: Specification → Implementation Index -->"

unfoldable pub end_guard : Bytes
end_guard = codes "<!-- END GENERATED: Specification → Implementation Index -->"

-- What stands between the guards.
pub section_body : List SpecMapping → Bytes
unfolding tables
section_body index =
    codes "\n## Specification → Implementation Index\n\n"
    ++ (codes
          "> **Source of truth:** `internal/invariants/spec_index.go` — the Go data structure that backs this table.\n"
        ++ tables doc_order index)

-- A section with a body between the guards.
abbrev pub guarded : Bytes → Bytes
guarded body = begin_guard ++ (body ++ (end_guard ++ newline ∷ []))

-- `GenerateMarkdown`
unfoldable pub generate_markdown : Bytes
unfolding section_body spec_index
generate_markdown = guarded (section_body spec_index)

-- A heading without guards.
abbrev heading : Bytes
heading = codes "## Specification → Implementation Index\n"

abbrev marker : Bytes
marker = codes "\n---\n\n" ++ heading

-- The texts before and behind the section that is replaced; behind a heading without guards
-- everything is replaced.
pub at_heading : Option ℕ → Option ℕ → Bytes → Result (Bytes × Bytes)
at_heading (some i) plain content = ok (trim_newlines (take i content), [])
at_heading none (some i) content = ok (trim_newlines (take i content), [])
at_heading none none content = err (message "neither guard markers nor fallback heading found")

without_guards : Bytes → Result (Bytes × Bytes)
unfolding at_heading index
without_guards content = at_heading (index content marker) (index content heading) content

pub between : Option ℕ → Option ℕ → Bytes → Result (Bytes × Bytes)
unfolding without_guards drop_newlines trim_newlines
between (some i) (some j) content =
    if ltb i j
    then ok (trim_newlines (take i content), drop_newlines (drop (j + length end_guard) content))
    else without_guards content
between _ _ content = without_guards content

-- The new content around the generated section.
pub assembled : Bytes → Bytes × Bytes → Bytes
assembled generated (before, []) = before ++ (newline ∷ newline ∷ (generated ++ newline ∷ []))
assembled generated (before, c ∷ after) =
    before ++ (newline ∷ newline ∷ (generated ++ newline ∷ newline ∷ c ∷ after))

placed : Bytes → Result (Bytes × Bytes) → Result Bytes
unfolding assembled
placed generated (err e) = err e
placed generated (ok parts) = ok (assembled generated parts)

-- The new content of the document.
unfoldable pub regenerate : Bytes → Bytes → Result Bytes
unfolding between placed index
regenerate generated content =
    placed generated (between (index content begin_guard) (index content end_guard) content)

pub written : String → Option Error → Result Bytes → Result Bytes
written path refused (err e) = err e
written path none (ok content) = ok content
written path (some e) (ok content) = err (errorf "write %s: %w" (text path (cause e nil)))

-- `GenerateSpecIndex`: the content that it writes, from what reading the document gives and the
-- refusal of its write.
unfoldable pub generate_spec_index : String → Result Bytes → Option Error → Result Bytes
unfolding written regenerate generate_markdown
generate_spec_index path (err e) refused = err (errorf "read %s: %w" (text path (cause e nil)))
generate_spec_index path (ok content) refused =
    written path refused (regenerate generate_markdown content)
