-- ===== src/Templates/Load.antt =====
-- pkg/template/template.go: the objects of all files of an embedded file system.
use toolchain_common.Base.{
  String, Bool, ◌||◌, Option, none, some, List, [], ◌∷◌, ◌++◌, ◌==◌, string_eq, if◌then◌else◌,
  Result, ok, err, Error,
}

pub record Variables : Type 0 where
  pub namespace : String

-- The file system `F`: the entries that a walk from its root visits, each with whether it is a directory,
-- and the contents of a file. With it Go's text templates `T`, the documents of a text as the YAML
-- decoder gives them up to the end of the text, `bytes.TrimSpace`, and the decoding of a document into an
-- object `O`.
pub record Library (F T O : Type 0) : Type 0 where
  pub walk : F → List (String × Bool)
  pub read_file : F → String → Result String
  pub parse : String → String → Result T
  pub execute : T → Variables → Result String
  pub documents : String → List (Result String)
  pub trim_space : String → String
  pub decode : String → Result O

module _ {F T O : Type 0} (lib : Library F T O) where
  abbrev pub files_of : List (String × Bool) → List String
  files_of [] = []
  files_of ((path, is_dir) ∷ entries) = if is_dir then files_of entries else path ∷ files_of entries

  -- The function given to the walk returns no error, so that there is none.
  unfoldable pub get_all_template_names : F → List String
  get_all_template_names efs = files_of (lib.walk efs)

  abbrev pub executed : Variables → Result T → Result String
  executed variables (err e) = err e
  executed variables (ok tmpl) = lib.execute tmpl variables

  unfoldable pub replace_template_variables : String → String → Variables → Result String
  replace_template_variables name content variables = executed variables (lib.parse name content)

  -- The objects so far, and an error.
  abbrev pub Loaded : Type 0
  Loaded = List O × Option Error

  abbrev pub and_object : List O → (List O → Loaded) → Result O → Loaded
  and_object objects rest (err e) = (objects, some e)
  and_object objects rest (ok obj) = rest (objects ++ (obj ∷ []))

  abbrev pub is_blank : String → Bool
  is_blank text = text == "" || text == "null"

  -- The inner loop, and what is left of the outer one.
  unfoldable pub load_documents : List (Result String) → (List O → Loaded) → List O → Loaded
  load_documents [] rest objects = rest objects
  load_documents (err e ∷ docs) rest objects = (objects, some e)
  load_documents (ok raw ∷ docs) rest objects =
      let text = lib.trim_space raw in
      let rest' = load_documents docs rest objects in
      if is_blank text
      then rest'
      else and_object objects (λ objects'. load_documents docs rest objects') (lib.decode text)

  abbrev pub and_documents : List O → (List O → Loaded) → Result String → Loaded
  and_documents objects rest (err e) = (objects, some e)
  and_documents objects rest (ok text) = load_documents (lib.documents text) rest objects

  abbrev pub and_replace : String → Variables → Result String → Result String
  and_replace path variables (err e) = err e
  and_replace path variables (ok content) = replace_template_variables path content variables

  unfoldable pub load_files : F → Variables → List String → List O → Loaded
  unfolding load_documents replace_template_variables
  load_files efs variables [] objects = (objects, none)
  load_files efs variables (path ∷ paths) objects =
      and_documents objects (λ objects'. load_files efs variables paths objects')
        (and_replace path variables (lib.read_file efs path))

  unfoldable pub load_objects_from_embed_fs : F → Variables → Loaded
  unfolding load_files get_all_template_names
  load_objects_from_embed_fs efs variables =
      load_files efs variables (get_all_template_names efs) []
