-- ===== src/Invariants/Regenerated.antt =====
-- internal/invariants/spec_index.go: regenerating the section twice.
use lab_env.Common.{
  ℕ, ◌+◌, ◌<◌, false, ◌≡◌, refl, some, [], ◌∷◌, ◌++◌, length, take, drop, arith, All, ◌==◌, nat_eq,
  append_assoc, length-append, sym, ◌∙◌, ap, subst,
}
use lab_env.Common.Errors.{Result, ok, err}
use lab_env.Common.Bytes.{
  Bytes, newline, trim_newlines, drop_newlines, has_prefix, has_prefix-append, trim_newlines_back,
  trim_newlines-trim_newlines, drop_newlines-drop_newlines,
}
use lab_env.Invariants.{begin_guard, end_guard, guarded, assembled, between, regenerate, placed}
use lab_env.Invariants.Texts.{
  index, Clear, index-Clear, Clear-index, Clear-append, Clear-front, Clear-newline, Clear-behind,
}

take-append : (p q : Bytes) → take (length p) (p ++ q) ≡ p
take-append [] q = refl
take-append (c ∷ p) q = ap (λ r. c ∷ r) (take-append p q)

drop-append : (p q : Bytes) → drop (length p) (p ++ q) ≡ q
drop-append [] q = refl
drop-append (c ∷ p) q = drop-append p q

-- A text without newlines.
abbrev Plain : Bytes → Type 0
Plain t = All (λ c. (c == newline) ≡ false) t

-- What follows the section: nothing, or a newline and the text behind it.
abbrev tail : Bytes → Bytes
tail [] = newline ∷ []
tail (c ∷ after) = newline ∷ newline ∷ c ∷ after

-- The text before the section, with the empty line.
abbrev head : Bytes → Bytes
head before = before ++ newline ∷ newline ∷ []

guarded-append :
    (body r : Bytes) → guarded body ++ r ≡ begin_guard ++ (body ++ (end_guard ++ newline ∷ r))
guarded-append body r =
    append_assoc begin_guard (body ++ (end_guard ++ newline ∷ [])) r
    ∙ ap (λ s. begin_guard ++ s)
        (append_assoc body (end_guard ++ newline ∷ []) r
          ∙ ap (λ s. body ++ s) (append_assoc end_guard (newline ∷ []) r))

head-append :
    (before body r : Bytes)
    → before ++ newline ∷ newline ∷ (guarded body ++ r)
      ≡ head before ++ (begin_guard ++ (body ++ (end_guard ++ newline ∷ r)))
head-append before body r =
    ap (λ s. before ++ newline ∷ newline ∷ s) (guarded-append body r)
    ∙ sym (append_assoc before (newline ∷ newline ∷ []) _)

assembled_lem :
    (body before after : Bytes)
    → assembled (guarded body) (before, after)
      ≡ head before ++ (begin_guard ++ (body ++ (end_guard ++ newline ∷ tail after)))
unfolding assembled
assembled_lem body before [] = head-append before body (newline ∷ [])
assembled_lem body before (c ∷ after) = head-append before body (newline ∷ newline ∷ c ∷ after)

-- Neither guard begins in a trimmed text that neither begins in.
Clear-head :
    (t before r q : Bytes)
    → Plain t
    → has_prefix (newline ∷ newline ∷ r) t ≡ false
    → has_prefix (newline ∷ r) t ≡ false
    → Clear t before q
    → Clear t (head (trim_newlines before)) r
unfolding Clear
Clear-head t before r q plain far near clear =
    let (back, is) = trim_newlines_back before in
    Clear-append t (trim_newlines before) (newline ∷ newline ∷ []) r
      (Clear-newline t (trim_newlines before) (back ++ q) (newline ∷ r) plain
        (Clear-front t (trim_newlines before) back q (subst (λ p. Clear t p q) is clear)))
      (far, (near, tt))

drop_newlines-tail :
    (after : Bytes) → drop_newlines after ≡ after → drop_newlines (newline ∷ tail after) ≡ after
unfolding drop_newlines
drop_newlines-tail [] h = refl
drop_newlines-tail (c ∷ after) h = h

drop_both : (p e r : Bytes) → drop (length p + length e) (p ++ (e ++ r)) ≡ r
drop_both p e r = rw (← length-append p e, ← append_assoc p e r) (drop-append (p ++ e) r)

begin_guard_some : 0 < length begin_guard
unfolding begin_guard
begin_guard_some = omega arith

between_found :
    (i j : ℕ) (content : Bytes)
    → i < j
    → between (some i) (some j) content
      ≡ ok (trim_newlines (take i content), drop_newlines (drop (j + length end_guard) content))
unfolding between
between_found i j content h = ground (arith, h)

-- The document with the section between a text before it and a text behind it.
abbrev document : Bytes → Bytes → Bytes → Bytes
document front body r = front ++ (begin_guard ++ (body ++ (end_guard ++ r)))

document_lem :
    (front body r : Bytes)
    → document front body r ≡ (front ++ (begin_guard ++ body)) ++ (end_guard ++ r)
document_lem front body r =
    ap (λ s. front ++ s) (sym (append_assoc begin_guard body (end_guard ++ r)))
    ∙ sym (append_assoc front (begin_guard ++ body) (end_guard ++ r))

-- What is found in a document whose front and body have no guard.
between-document :
    (front body r : Bytes)
    → Clear begin_guard front (begin_guard ++ (body ++ (end_guard ++ r)))
    → Clear end_guard front (begin_guard ++ (body ++ (end_guard ++ r)))
    → Clear end_guard (begin_guard ++ body) (end_guard ++ r)
    → between
        (index (document front body r) begin_guard)
        (index (document front body r) end_guard)
        (document front body r)
      ≡ ok (trim_newlines front, drop_newlines r)
between-document front body r b e e' =
    let p = front ++ (begin_guard ++ body) in
    let at_begin =
      index-Clear begin_guard front _ b
        (has_prefix-append begin_guard (body ++ (end_guard ++ r))) in
    let before_end =
      Clear-append end_guard front (begin_guard ++ body) (end_guard ++ r)
        (subst (Clear end_guard front) (sym (append_assoc begin_guard body (end_guard ++ r))) e)
        e' in
    let at_end =
      subst (λ s. index s end_guard ≡ some (length p)) (sym (document_lem front body r))
        (index-Clear end_guard p (end_guard ++ r) before_end (has_prefix-append end_guard r)) in
    let behind =
      ap (drop (length p + length end_guard)) (document_lem front body r)
      ∙ drop_both p end_guard r in
    let later =
      subst (λ n. length front < n) (sym (length-append front (begin_guard ++ body)))
        (subst (λ n. length front < length front + n) (sym (length-append begin_guard body))
          (omega (arith, begin_guard_some))) in
    rw (at_begin, at_end)
      (between_found (length front) (length p) (document front body r) later
        ∙ rw (take-append front (begin_guard ++ (body ++ (end_guard ++ r))), behind) refl)

begin_guard-Plain : Plain begin_guard
unfolding begin_guard
begin_guard-Plain = ground arith

end_guard-Plain : Plain end_guard
unfolding end_guard
end_guard-Plain = ground arith

begin_guard-head :
    (p r q : Bytes) → Clear begin_guard p q → Clear begin_guard (head (trim_newlines p)) r
unfolding begin_guard has_prefix
begin_guard-head p r q clear = Clear-head begin_guard p r q begin_guard-Plain refl refl clear

end_guard-head : (p r q : Bytes) → Clear end_guard p q → Clear end_guard (head (trim_newlines p)) r
unfolding end_guard has_prefix
end_guard-head p r q clear = Clear-head end_guard p r q end_guard-Plain refl refl clear

-- The end guard stands in a section at its end only.
abbrev pub Closed : Bytes → Type 0
Closed body = index (guarded body) end_guard ≡ some (length (begin_guard ++ body))

Closed-Clear :
    (body r : Bytes)
    → Closed body
    → Clear end_guard (begin_guard ++ body) (end_guard ++ newline ∷ r)
Closed-Clear body r closed =
    let p = begin_guard ++ body in
    let at_end =
      subst (λ s. index s end_guard ≡ some (length p))
        (sym (append_assoc begin_guard body (end_guard ++ newline ∷ []))) closed in
    let clear =
      Clear-index end_guard (p ++ (end_guard ++ newline ∷ [])) (length p) (length p) at_end
        (omega arith) in
    Clear-behind end_guard p end_guard [] r end_guard-Plain (
      rw (take-append p (end_guard ++ newline ∷ []), drop-append p (end_guard ++ newline ∷ [])) at
        clear)

-- The section of a regenerated document is found again.
regenerate_document :
    (body p q after : Bytes)
    → Clear begin_guard p q
    → Clear end_guard p q
    → Closed body
    → regenerate (guarded body) (assembled (guarded body) (trim_newlines p, drop_newlines after))
      ≡ ok (assembled (guarded body) (trim_newlines p, drop_newlines after))
unfolding regenerate placed
regenerate_document body p q after b e closed =
    let before = trim_newlines p in
    let behind = drop_newlines after in
    let r = newline ∷ tail behind in
    let found =
      between-document (head before) body r (begin_guard-head p _ q b) (end_guard-head p _ q e)
        (Closed-Clear body (tail behind) closed) in
    let same =
      subst
        (λ s.
          between (index s begin_guard) (index s end_guard) s
          ≡ ok (trim_newlines (head before), drop_newlines r))
        (sym (assembled_lem body before behind)) found in
    rw
      (
        same,
        trim_newlines-trim_newlines p,
        drop_newlines-tail behind (drop_newlines-drop_newlines after),
      )
      refl

regenerate_found :
    (body content : Bytes) (i j : ℕ)
    → index content begin_guard ≡ some i
    → index content end_guard ≡ some j
    → i < j
    → regenerate (guarded body) content
      ≡ ok (
          assembled
            (guarded body)
            (trim_newlines (take i content), drop_newlines (drop (j + length end_guard) content)))
unfolding regenerate placed
regenerate_found body content i j bi ej lt = rw (bi, ej, between_found i j content lt) refl

-- A result that the regeneration does not change.
abbrev Fixed : Bytes → Result Bytes → Type 0
Fixed generated (ok content) = regenerate generated content ≡ ok content
Fixed generated (err e) = Unit

-- Where the document has the two guards in their order, regenerating its section once more changes
-- nothing, whatever stands before and behind the section, and whatever is generated, as long as the
-- end guard does not occur in the generated tables.
pub regenerate-regenerate :
    (body content content' : Bytes) (i j : ℕ)
    → Closed body
    → index content begin_guard ≡ some i
    → index content end_guard ≡ some j
    → i < j
    → regenerate (guarded body) content ≡ ok content'
    → regenerate (guarded body) content' ≡ ok content'
regenerate-regenerate body content content' i j closed bi ej lt h =
    let once =
      regenerate_document body (take i content) (drop i content)
        (drop (j + length end_guard) content) (Clear-index begin_guard content i i bi (omega arith))
        (Clear-index end_guard content i j ej (omega arith)) closed in
    subst (Fixed (guarded body)) (sym (regenerate_found body content i j bi ej lt) ∙ h) once
