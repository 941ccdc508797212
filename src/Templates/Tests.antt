-- ===== src/Templates/Tests.antt =====
-- Runs of pkg/template, and its theorems at concrete data.
use toolchain_common.Base.{
  ◌+◌, String, ◌<>◌, ◌≡◌, refl, ap, true, false, none, some, List, [], ◌∷◌, string_eq, ok, length,
}
use toolchain_common.Templates.Process
use toolchain_common.Templates.Process.{
  filter, retain_namespaces, retain_all_but_namespaces, passes, set_at, inject, cast_all, process,
}
use toolchain_common.Templates.FilterLaws.{filter-partition}
use toolchain_common.Templates.Load
use toolchain_common.Templates.Load.{
  Variables, load_objects_from_embed_fs, get_all_template_names, load_files, load_documents,
  replace_template_variables,
}
use toolchain_common.Templates.LoadLaws.{FilesOf, load_objects_from_embed_fs-FilesOf}

-- An object is its kind, and the file system a list of paths.
abbrev processing : Process.Library String String
processing = record {
  get_parameter_by_name = λ ps name. elim ps [ [] ↦ none | p ∷ ps ↦ some 0 ];
  process = λ tmpl. ok tmpl;
  convert = λ tmpl. ok tmpl;
  cast = λ obj. some obj;
  kind = λ obj. obj;
}

abbrev objects : List String
objects = "Namespace" ∷ "Role" ∷ "Namespace" ∷ []

filter-partition_example :
    length (filter (retain_namespaces processing ∷ []) objects)
      + length (filter (retain_all_but_namespaces processing ∷ []) objects)
    ≡ 3
filter-partition_example = filter-partition processing objects

namespaces : filter (retain_namespaces processing ∷ []) objects ≡ "Namespace" ∷ "Namespace" ∷ []
unfolding filter retain_namespaces string_eq
namespaces = refl

abbrev tmpl : Process.Template String
tmpl = record {
  parameters = record { name = "SIZE"; value = "1"; generate = "[a-z]{3}"; rest = "" } ∷ [];
  objects = objects;
}

processed :
    process processing tmpl (("SIZE", "2") ∷ []) (retain_all_but_namespaces processing ∷ [])
    ≡ ok ("Role" ∷ [])
unfolding process retain_all_but_namespaces string_eq
processed = refl

injected :
    inject processing (("SIZE", "2") ∷ []) tmpl.parameters
    ≡ record { name = "SIZE"; value = "2"; generate = ""; rest = "" } ∷ []
unfolding inject
injected = refl

-- Each file has one blank document and one with its text and the namespace.
abbrev loading : Load.Library (List String) String String
loading = record {
  walk = λ fs. ("dir", true) ∷ ("dir/a.yaml", false) ∷ [];
  read_file = λ fs path. ok path;
  parse = λ name content. ok content;
  execute = λ t variables. ok (t <> variables.namespace);
  documents = λ text. ok "null" ∷ ok text ∷ [];
  trim_space = λ text. text;
  decode = λ text. ok text;
}

abbrev variables : Variables
variables = record { namespace = "@host" }

loaded : load_objects_from_embed_fs loading [] variables ≡ ("dir/a.yaml@host" ∷ [], none)
unfolding load_objects_from_embed_fs string_eq
loaded = refl

load_objects_from_embed_fs-FilesOf_example :
    FilesOf loading [] variables
      (get_all_template_names loading [])
      (load_objects_from_embed_fs loading [] variables).0
unfolding load_objects_from_embed_fs load_files load_documents
load_objects_from_embed_fs-FilesOf_example =
    load_objects_from_embed_fs-FilesOf loading [] variables (ap (λ r. r.1) loaded)
