-- ===== src/Load/Order.antt =====
-- `Load` of internal/config/load.go: which files a configuration is made of, and in which order.
use mqtt2prometheus.Base.{
  Text, ◌≡◌, ◌≢◌, refl, subst, ◌∙◌, sym, ap, Bool, true, false, ◌==◌, eq_iff, Option, none, some,
  List, [], ◌∷◌, if◌then◌else◌,
}
use mqtt2prometheus.Base.Sort.{sort_texts}
use mqtt2prometheus.Base.Results.{ok, err, ◌>>=◌, >>=-eq-ok, ok-injective}
use mqtt2prometheus.Config.{Config, Source}
use mqtt2prometheus.Load.{Expanded, expanded, missing_env, expand_env}
use mqtt2prometheus.Load.Files.{
  Files, Decoded, decoded, end_of_file, bad_yaml, opened, filled_in, parsed, Loaded, decode_file,
  load_sources, globbed, load_listed, load, main_name, sources_required,
}

module _ {F : Type 0} (files : Files F) where
  open files use {read_file, lookup_env, glob, join_path, base, decode_main, decode_source}

  -- A file that can be read, whose variables are all set, and that decodes to a value.
  pub record Reads {A : Type 0} (decode : Text → Decoded A) (path : Text) (a : A) : Type 0 where
    pub raw : Text
    pub text : Text
    pub read : read_file path ≡ some raw
    pub expands : expand_env base lookup_env raw path ≡ expanded text
    pub decodes : decode text ≡ decoded a

  -- one source for each path, read from the file and marked with its path
  abbrev pub ReadAll : List Text → List (Source F) → Type 0
  ReadAll [] [] = Unit
  ReadAll [] (s ∷ sources) = ⊥
  ReadAll (path ∷ paths) [] = ⊥
  ReadAll (path ∷ paths) (s ∷ sources) =
      ((src : Source F) × Reads decode_source path src × (s ≡ record src { path = path }))
      × ReadAll paths sources

  opened-eq-ok :
      (path : Text) (o : Option Text) (raw : Text) → opened path o ≡ ok raw → o ≡ some raw
  opened-eq-ok path none raw h = cc
  opened-eq-ok path (some r) raw h = ap some (ok-injective _ _ h)

  filled_in-eq-ok : (e : Expanded) (text : Text) → filled_in e ≡ ok text → e ≡ expanded text
  filled_in-eq-ok (expanded t) text h = ap expanded (ok-injective _ _ h)
  filled_in-eq-ok (missing_env names file) text h = cc

  parsed-eq-ok :
      {A : Type 0} (path : Text) (d : Decoded A) (a : A) → parsed path d ≡ ok a → d ≡ decoded a
  parsed-eq-ok path (decoded b) a h = ap decoded (ok-injective _ _ h)
  parsed-eq-ok path end_of_file a h = cc
  parsed-eq-ok path bad_yaml a h = cc

  decode_file-Reads :
      {A : Type 0} (decode : Text → Decoded A) (path : Text) (a : A)
      → decode_file files decode path ≡ ok a
      → Reads decode path a
  unfolding decode_file
  decode_file-Reads decode path a h =
      let (raw, o, h') = >>=-eq-ok (opened path (read_file path)) _ h in
      let (text, e, h'') = >>=-eq-ok (filled_in (expand_env base lookup_env raw path)) _ h' in
      record {
        raw = raw;
        text = text;
        read = opened-eq-ok path _ raw o;
        expands = filled_in-eq-ok _ text e;
        decodes = parsed-eq-ok path _ a h'';
      }

  load_sources-ReadAll :
      (paths : List Text) (sources : List (Source F))
      → load_sources files paths ≡ ok sources
      → ReadAll paths sources
  unfolding load_sources
  load_sources-ReadAll [] sources h = subst (ReadAll []) (ok-injective [] sources h) tt
  load_sources-ReadAll (path ∷ paths) sources h =
      let (src, d, h') = >>=-eq-ok (decode_file files decode_source path) _ h in
      let (rest, loaded, h'') = >>=-eq-ok (load_sources files paths) _ h' in
      subst (ReadAll (path ∷ paths)) (ok-injective (record src { path = path } ∷ rest) sources h'')
        (
          (src, decode_file-Reads decode_source path src d, refl),
          load_sources-ReadAll paths rest loaded,
        )

  -- what a loaded configuration is made of
  pub record IsLoaded (dir : Text) (c : Config F) : Type 0 where
    pub main : Config F
    pub read : Reads decode_main (join_path dir main_name) main
    pub pattern : main.sources ≢ []
    pub matched : List Text
    pub found : glob (join_path dir main.sources) ≡ some matched
    pub some_found : matched ≢ []
    pub process : c ≡ record main { source_list = c.source_list }
    pub order : ReadAll (sort_texts matched) c.source_list

  globbed_lem :
      (pattern : Text) (o : Option (List Text)) (paths : List Text)
      → globbed files pattern o ≡ ok paths
      → (o ≡ some paths) × (paths ≢ [])
  globbed_lem pattern none paths h = cc
  globbed_lem pattern (some []) paths h = cc
  globbed_lem pattern (some (p ∷ ps)) paths h =
      (ap some (ok-injective _ _ h), λ e. cc (ok-injective _ _ h, e))

  load_listed_lem :
      (dir : Text) (main c : Config F)
      → decode_file files decode_main (join_path dir main_name) ≡ ok main
      → load_listed files dir main ≡ ok c
      → IsLoaded dir c
  unfolding load_listed
  load_listed_lem dir main c r h = go (main.sources == []) refl h
    where
      rest : Loaded (Config F)
      rest = do
        paths ← globbed files main.sources (glob (join_path dir main.sources))
        sources ← load_sources files (sort_texts paths)
        ok (record main { source_list = sources })

      go :
          (b : Bool)
          → (main.sources == []) ≡ b
          → (if b then err sources_required else rest) ≡ ok c
          → IsLoaded dir c
      go true e k = cc
      go false e k =
          let (paths, g, k') = >>=-eq-ok (globbed files main.sources _) _ k in
          let (sources, loaded, k'') = >>=-eq-ok (load_sources files (sort_texts paths)) _ k' in
          let same : record main { source_list = sources } ≡ c = ok-injective _ _ k'' in
          let (found, nonempty) = globbed_lem main.sources _ paths g in
          record {
            main = main;
            read = decode_file-Reads decode_main (join_path dir main_name) main r;
            pattern = λ n. cc (e, (eq_iff main.sources []).1 n);
            matched = paths;
            found = found;
            some_found = nonempty;
            process =
                sym same ∙ ap (λ (d : Config F). record main { source_list = d.source_list }) same;
            order =
                subst (λ (d : Config F). ReadAll (sort_texts paths) d.source_list) same
                  (load_sources-ReadAll (sort_texts paths) sources loaded);
          }

  -- A loaded configuration has the process section that the main file decodes to, and one source for
  -- each file that the pattern of the main file matches, at least one, in the order of their paths:
  -- what this file decodes to, marked with its path. Each file is decoded with its variables expanded,
  -- and all of them are set.
  pub load_lem : (dir : Text) (c : Config F) → load files dir ≡ ok c → IsLoaded dir c
  unfolding load
  load_lem dir c h =
      let (main, r, h') = >>=-eq-ok (decode_file files decode_main (join_path dir main_name)) _ h in
      load_listed_lem dir main c r h'
