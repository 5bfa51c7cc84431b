-- ===== src/Platform.antt =====
-- What the program takes from Go's standard library and from its dependencies: IEEE floats with
-- `strconv`, regular expressions, and the decoder of `encoding/json`.
use mqtt2prometheus.Base.{Text, ℕ, Option, Bool, List}

-- The values that `json.Unmarshal` builds in an `any`.
mutual
  pub data Json (F : Type 0) : Type 0 where
    null : Json F
    bool : Bool → Json F
    number : F → Json F
    string : Text → Json F
    array : Items F → Json F
    object : Fields F → Json F

  pub data Items (F : Type 0) : Type 0 where
    nil : Items F
    cons : Json F → Items F → Items F

  -- the entries of a `map[string]any`
  pub data Fields (F : Type 0) : Type 0 where
    end : Fields F
    field : Text → Json F → Fields F → Fields F

pub record Platform : Type 1 where
  -- `float64`
  pub Float : Type 0
  pub zero : Float
  pub one : Float
  pub plus : Float → Float → Float
  pub times : Float → Float → Float
  pub lt : Float → Float → Bool
  pub is_zero : Float → Bool
  -- `strconv.ParseFloat` and `strconv.FormatFloat`; `none` is an error
  pub parse_float : Text → Option Float
  pub format_float : Float → Text
  -- `strings.TrimSpace`
  pub trim_space : Text → Text
  -- `float64(t.UnixNano()) / 1e9`
  pub seconds : ℕ → Float
  -- package `regexp`
  pub Regexp : Type 0
  pub compile : Text → Option Regexp
  pub find_submatch : Regexp → Text → Option (List Text)
  pub subexp_names : Regexp → List Text
  pub num_subexp : Regexp → ℕ
  -- `json.Unmarshal` into an `any`
  pub unmarshal : Text → Option (Json Float)
