-- ===== src/Examples/Documents.antt =====
-- A document with a stale section of the specification index.
use lab_env.Common.{◌≡◌, ◌++◌, refl, some, none, arith}
use lab_env.Common.Errors.{Result, ok, err}
use lab_env.Common.Bytes.{Bytes, codes}
use lab_env.Invariants.{begin_guard, end_guard, generate_spec_index}
use lab_env.Invariants.Texts.{index}
use lab_env.Invariants.Complete.{generate_spec_index-twice}

abbrev stale_document : Bytes
stale_document =
    codes "# Reference\n\n"
    ++ (begin_guard ++ (codes "\nold\n" ++ (end_guard ++ codes "\n\n# End\n")))

abbrev contents : Result Bytes → Bytes
contents (ok content) = content
contents (err e) = codes ""

abbrev fresh_document : Bytes
fresh_document =
    contents (generate_spec_index "docs/codebase-reference.md" (ok stale_document) none)

stale-begin : index stale_document begin_guard ≡ some 13
unfolding index begin_guard end_guard
stale-begin = refl

stale-end : index stale_document end_guard ≡ some 80
unfolding index begin_guard end_guard
stale-end = refl

stale-regenerated :
    generate_spec_index "docs/codebase-reference.md" (ok stale_document) none ≡ ok fresh_document
unfolding generate_spec_index index begin_guard end_guard
stale-regenerated = refl

generate_spec_index-twice_example :
    generate_spec_index "docs/codebase-reference.md" (ok fresh_document) none ≡ ok fresh_document
generate_spec_index-twice_example =
    generate_spec_index-twice "docs/codebase-reference.md" stale_document fresh_document 13 80
      stale-begin stale-end (omega arith) stale-regenerated
