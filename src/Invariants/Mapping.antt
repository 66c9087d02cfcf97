-- ===== src/Invariants/Mapping.antt =====
-- internal/invariants/spec_index.go: the types of the specification index.
use lab_env.Common.{String, Bool, false, List}

pub record SpecSection : Type 0 where
  pub doc : String
  pub section : String
  pub title : String

pub record SpecMapping : Type 0 where
  pub spec : SpecSection
  pub impl_files : List String
  pub test_files : List String
  pub test_only : Bool
  pub cross_ref : Bool
  pub constraints : String
  pub note : String

-- A mapping with nothing but files.
abbrev pub mapped : String → String → String → List String → List String → SpecMapping
mapped doc section title impl_files test_files = record {
  spec = record { doc = doc; section = section; title = title };
  impl_files = impl_files;
  test_files = test_files;
  test_only = false;
  cross_ref = false;
  constraints = "";
  note = "";
}
