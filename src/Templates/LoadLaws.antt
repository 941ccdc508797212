-- ===== src/Templates/LoadLaws.antt =====
-- Loading is all or an error: the objects are those of every document of every file, in order.
use mathlib.Core.Path.{subst}
use mathlib.Core.List.{append_assoc, append-nil}
use toolchain_common.Base.{
  String, ◌≡◌, refl, ◌∙◌, ap, sym, Bool, true, false, none, List, [], ◌∷◌, ◌++◌, string_eq,
  if◌then◌else◌, Result, ok, err, arith,
}
use toolchain_common.Templates.Load.{
  Variables, Library, get_all_template_names, Loaded, and_object, is_blank, load_documents,
  and_documents, and_replace, load_files, load_objects_from_embed_fs,
}

module _ {F T O : Type 0} (lib : Library F T O) where
  -- The objects of a list of documents: one for each that is not blank.
  pub data DocumentsOf : List (Result String) → List O → Type 0 where
    no_documents : DocumentsOf [] []
    blank :
        {docs : List (Result String)} {objects : List O}
        → (raw : String) → is_blank lib (lib.trim_space raw) ≡ true
        → DocumentsOf docs objects
        → DocumentsOf (ok raw ∷ docs) objects
    object :
        {docs : List (Result String)} {objects : List O}
        → (raw : String) (obj : O) → is_blank lib (lib.trim_space raw) ≡ false
        → lib.decode (lib.trim_space raw) ≡ ok obj
        → DocumentsOf docs objects
        → DocumentsOf (ok raw ∷ docs) (obj ∷ objects)

  -- The text of a file, with the variables put in.
  abbrev pub text_of : F → Variables → String → Result String
  text_of efs variables path = and_replace lib path variables (lib.read_file efs path)

  -- The objects of a list of files, those of one file after the other.
  pub data FilesOf (efs : F) (variables : Variables) : List String → List O → Type 0 where
    no_files : FilesOf efs variables [] []
    file :
        {paths : List String} {objects more : List O}
        → (path text : String) → text_of efs variables path ≡ ok text
        → DocumentsOf (lib.documents text) objects
        → FilesOf efs variables paths more
        → FilesOf efs variables (path ∷ paths) (objects ++ more)

  -- What is read of documents before the rest is loaded.
  abbrev Reads : List (Result String) → (List O → Loaded lib) → List O → Loaded lib → Type 0
  Reads docs rest objects r =
      (found : List O) × DocumentsOf docs found × (r ≡ rest (objects ++ found))

  load_documents_lem :
      (docs : List (Result String)) (rest : List O → Loaded lib) (objects : List O)
      → (load_documents lib docs rest objects).1 ≡ none
      → Reads docs rest objects (load_documents lib docs rest objects)
  unfolding load_documents
  load_documents_lem [] rest objects done = ([], no_documents, ap rest (sym (append-nil objects)))
  load_documents_lem (err e ∷ docs) rest objects done = ground arith
  load_documents_lem (ok raw ∷ docs) rest objects done =
      by_blank (λ o d. load_documents_lem docs rest o d) (is_blank lib (lib.trim_space raw)) refl
        done
    where
      text : String
      text = lib.trim_space raw

      Rest : Type 0
      Rest =
          (o : List O)
          → (load_documents lib docs rest o).1 ≡ none
          → Reads docs rest o (load_documents lib docs rest o)

      next : Loaded lib
      next = and_object lib objects (λ o. load_documents lib docs rest o) (lib.decode text)

      by_object :
          Rest
          → (r : Result O) → lib.decode text ≡ r
          → is_blank lib text ≡ false
          → (and_object lib objects (λ o. load_documents lib docs rest o) r).1 ≡ none
          → Reads
              (ok raw ∷ docs)
              rest
              objects
              (and_object lib objects (λ o. load_documents lib docs rest o) r)
      by_object ih (err e) is filled done = ground arith
      by_object ih (ok obj) is filled done =
          let (found, of, same) = ih (objects ++ (obj ∷ [])) done in
          (
            obj ∷ found,
            object raw obj filled is of,
            same ∙ ap rest (append_assoc objects (obj ∷ []) found),
          )

      by_blank :
          Rest
          → (b : Bool) → is_blank lib text ≡ b
          → (if b then load_documents lib docs rest objects else next).1 ≡ none
          → Reads
              (ok raw ∷ docs)
              rest
              objects
              (if b then load_documents lib docs rest objects else next)
      by_blank ih true is done =
          let (found, of, same) = ih objects done in (found, blank raw is of, same)
      by_blank ih false is done = by_object ih (lib.decode text) refl is done

  load_files_lem :
      (efs : F) (variables : Variables) (paths : List String) (objects : List O)
      → (load_files lib efs variables paths objects).1 ≡ none
      → (found : List O) × FilesOf efs variables paths found
        × (load_files lib efs variables paths objects ≡ (objects ++ found, none))
  unfolding load_files
  load_files_lem efs variables [] objects done =
      ([], no_files, ap (λ o. (o, none)) (sym (append-nil objects)))
  load_files_lem efs variables (path ∷ paths) objects done =
      by_text (λ o d. load_files_lem efs variables paths o d) (text_of efs variables path) refl done
    where
      by_text :
          ((o : List O)
            → (load_files lib efs variables paths o).1 ≡ none
            → (found : List O) × FilesOf efs variables paths found
              × (load_files lib efs variables paths o ≡ (o ++ found, none)))
          → (r : Result String) → text_of efs variables path ≡ r
          → (and_documents lib objects (λ o. load_files lib efs variables paths o) r).1 ≡ none
          → (found : List O) × FilesOf efs variables (path ∷ paths) found
            × (and_documents lib objects (λ o. load_files lib efs variables paths o) r
                ≡ (objects ++ found, none))
      by_text ih (err e) is done = ground arith
      by_text ih (ok text) is done =
          let (first, of, same) =
            load_documents_lem (lib.documents text) (λ o. load_files lib efs variables paths o)
              objects done in
          let (more, of_more, same') = ih (objects ++ first) (sym (ap (λ r. r.1) same) ∙ done) in
          (
            first ++ more,
            file path text is of of_more,
            same ∙ same' ∙ ap (λ o. (o, none)) (append_assoc objects first more),
          )

  -- When loading returns no error, its objects are those of all files that the walk visits, one file after the
  -- other: of each file the text with its variables put in, and of that one object for each document
  -- that is not blank, in their order.
  pub load_objects_from_embed_fs-FilesOf :
      (efs : F) (variables : Variables)
      → (load_objects_from_embed_fs lib efs variables).1 ≡ none
      → FilesOf efs variables
          (get_all_template_names lib efs)
          (load_objects_from_embed_fs lib efs variables).0
  unfolding load_objects_from_embed_fs
  load_objects_from_embed_fs-FilesOf efs variables done =
      let paths = get_all_template_names lib efs in
      let (found, of, same) = load_files_lem efs variables paths [] done in
      subst (λ o. FilesOf efs variables paths o) (sym (ap (λ r. r.0) same)) of
