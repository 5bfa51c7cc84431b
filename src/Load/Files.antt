-- ===== src/Load/Files.antt =====
-- `Load` and `decodeFile` of internal/config/load.go over a file system and a YAML decoder.
use mqtt2prometheus.Base.{
  Text, ◌==◌, codes, Option, none, some, List, [], ◌∷◌, is_empty, if◌then◌else◌,
}
use mqtt2prometheus.Base.Sort.{sort_texts}
use mqtt2prometheus.Base.Results.{Result, ok, err, ◌>>=◌}
use mqtt2prometheus.Config.{Config, Source}
use mqtt2prometheus.Load.{Expanded, expanded, missing_env, expand_env}

-- What `yaml.Decoder.Decode` answers with `KnownFields` set: the value, `io.EOF`, or another error.
pub data Decoded (A : Type 0) : Type 0 where
  decoded : A → Decoded A
  end_of_file : Decoded A
  bad_yaml : Decoded A

-- the errors of `Load`, with what their texts mention
pub data LoadError : Type 0 where
  unreadable : Text → LoadError
  unset : List Text → Text → LoadError
  empty_file : Text → LoadError
  malformed : Text → LoadError
  sources_required : LoadError
  bad_pattern : Text → LoadError
  no_match : Text → LoadError

abbrev pub Loaded : Type 0 → Type 0
Loaded A = Result LoadError A

-- What the functions take from the operating system and the libraries. A path is cleaned before it is
-- read. The decoder of the main file leaves the list of sources empty, and that of a source its path,
-- since YAML sets neither.
pub record Files (F : Type 0) : Type 1 where
  pub read_file : Text → Option Text
  pub lookup_env : Text → Option Text
  pub glob : Text → Option (List Text)
  pub join_path : Text → Text → Text
  pub base : Text → Text
  pub decode_main : Text → Decoded (Config F)
  pub decode_source : Text → Decoded (Source F)

abbrev pub main_name : Text
main_name = codes "mqtt2prometheus.yaml"

abbrev pub opened : Text → Option Text → Loaded Text
opened path none = err (unreadable path)
opened path (some raw) = ok raw

abbrev pub filled_in : Expanded → Loaded Text
filled_in (expanded text) = ok text
filled_in (missing_env names file) = err (unset names file)

abbrev pub parsed : {A : Type 0} → Text → Decoded A → Loaded A
parsed path (decoded a) = ok a
parsed path end_of_file = err (empty_file path)
parsed path bad_yaml = err (malformed path)

module _ {F : Type 0} (files : Files F) where
  open files use {read_file, lookup_env, glob, join_path, base, decode_main, decode_source}

  unfoldable pub decode_file : {A : Type 0} → (Text → Decoded A) → Text → Loaded A
  decode_file decode path = do
    raw ← opened path (read_file path)
    text ← filled_in (expand_env base lookup_env raw path)
    parsed path (decode text)

  -- the loop over the paths
  unfoldable pub load_sources : List Text → Loaded (List (Source F))
  unfolding decode_file
  load_sources [] = ok []
  load_sources (path ∷ paths) = do
    src ← decode_file decode_source path
    rest ← load_sources paths
    ok (record src { path = path } ∷ rest)

  abbrev pub globbed : Text → Option (List Text) → Loaded (List Text)
  globbed pattern none = err (bad_pattern pattern)
  globbed pattern (some paths) = if is_empty paths then err (no_match pattern) else ok paths

  -- the part of `Load` after the main file
  unfoldable pub load_listed : Text → Config F → Loaded (Config F)
  unfolding load_sources
  load_listed dir cfg = if cfg.sources == [] then err sources_required else (do
    paths ← globbed cfg.sources (glob (join_path dir cfg.sources))
    sources ← load_sources (sort_texts paths)
    ok (record cfg { source_list = sources }))

  unfoldable pub load : Text → Loaded (Config F)
  unfolding load_listed
  load dir = do cfg ← decode_file decode_main (join_path dir main_name); load_listed dir cfg
