-- ===== src/Contract/Params.antt =====
-- shared/script_contract.py, validate_params: the values that are submitted for a run, against the
-- parameter definitions of its script. A definition is a record of what the code reads from it, as
-- the contract accepts it (its `key` is a text, its `type` one of PARAMETER_TYPES).
-- Python's numbers and the values that no parameter takes are a parameter, `Values`.
use Prim.Native.String.{◌++◌ as str_append}
use auto_script_hub.Prelude.{
  String, Bool, true, false, not, ◌&&◌, ◌||◌, Option, none, some, List, [], ◌∷◌, ◌++◌, str_eq,
  if◌then◌else◌, holds,
}

-- int and float, compared as Python compares them, and the numbers that booleans are equal to.
-- `Other` are the lists and dicts.
pub record Values : Type 1 where
  pub Num : Type 0
  pub lt : Num → Num → Bool
  pub num_eq : Num → Num → Bool
  pub of_bool : Bool → Num
  pub show : Num → String
  pub Other : Type 0
  pub other_eq : Other → Other → Bool

pub data ParamType : Type 0 where
  text number file folder select checkbox : ParamType

module _ (V : Values) where
  open V use {Num, lt, num_eq, of_bool, show, Other, other_eq}

  pub data Value : Type 0 where
    null : Value
    bool : Bool → Value
    num : Num → Value
    str : String → Value
    other : Other → Value

  pub record Definition : Type 0 where
    pub key : String
    pub type_of : ParamType
    pub label : Option String
    pub required : Bool
    pub min : Option Num
    pub max : Option Num
    pub options : List Value
    pub widget : Option String

  bools_eq : Bool → Bool → Bool
  bools_eq true b = b
  bools_eq false b = not b

  -- a == b
  unfoldable pub value_eq : Value → Value → Bool
  unfolding bools_eq
  value_eq null null = true
  value_eq (bool a) (bool b) = bools_eq a b
  value_eq (bool a) (num n) = num_eq (of_bool a) n
  value_eq (num n) (bool b) = num_eq n (of_bool b)
  value_eq (num m) (num n) = num_eq m n
  value_eq (str s) (str t) = str_eq s t
  value_eq (other a) (other b) = other_eq a b
  value_eq _ _ = false

  unfoldable pub in_options : Value → List Value → Bool
  unfolding value_eq
  in_options v [] = false
  in_options v (w ∷ ws) = value_eq v w || in_options v ws

  -- params.get(key) and `key in params`
  unfoldable pub lookup : String → List (String × Value) → Option Value
  lookup k [] = none
  lookup k ((j, v) ∷ m) = if str_eq j k then some v else lookup k m

  -- `value is None or value == ""`
  abbrev pub is_blank : Option Value → Bool
  is_blank none = true
  is_blank (some null) = true
  is_blank (some (str s)) = str_eq s ""
  is_blank (some v) = false

  -- One entry of a dict that a comprehension builds: a key keeps its place and takes the new value.
  unfoldable pub define : Definition → List Definition → List Definition
  define d [] = d ∷ []
  define d (e ∷ es) = if str_eq e.key d.key then d ∷ es else e ∷ define d es

  -- definitions = {item.get("key"): item for item in param_defs if … and item.get("key")}
  unfoldable pub definitions_of : List Definition → List Definition → List Definition
  unfolding define
  definitions_of seen [] = seen
  definitions_of seen (d ∷ ds) = definitions_of (if str_eq d.key "" then seen else define d seen) ds

  unfoldable pub is_defined : String → List Definition → Bool
  is_defined k [] = false
  is_defined k (d ∷ ds) = str_eq d.key k || is_defined k ds

  -- `definition.get("label") or key`
  abbrev pub label_of : Definition → String
  label_of d = elim d.label [ none ↦ d.key | some l ↦ (if str_eq l "" then d.key else l) ]

  -- The messages, one for each that applies.
  abbrev pub complain : Bool → String → List String
  complain true message = message ∷ []
  complain false message = []

  -- What the messages of `min` and `max` end in.
  abbrev pub shown : Option Num → String
  shown none = ""
  shown (some n) = show n

  check_number : Definition → Num → List String
  check_number d n =
      complain (holds (λ m. lt n m) d.min)
        (str_append (str_append (label_of d) " 小于最小值 ") (shown d.min))
      ++ complain (holds (λ m. lt m n) d.max)
          (str_append (str_append (label_of d) " 大于最大值 ") (shown d.max))

  -- os.path.isfile and os.path.isdir, where the paths are checked.
  module _ (check_paths : Bool) (is_file is_dir : String → Bool) where
    check_text : Definition → String → List String
    check_text d s =
        if check_paths
          && ((elim d.type_of [
            | file ↦ true
            | text ↦ holds (λ w. str_eq w "browser") d.widget
            | _ ↦ false
          ])
              && not (is_file s))
        then (str_append (str_append (label_of d) " 文件不存在: ") s) ∷ []
        else complain
            (check_paths && ((elim d.type_of [ folder ↦ true | _ ↦ false ]) && not (is_dir s)))
            (str_append (str_append (label_of d) " 文件夹不存在: ") s)

    -- The ladder on `param_type`, for a value that is not blank.
    check_typed : ParamType → Definition → Value → List String
    unfolding check_number check_text in_options
    check_typed number d (num n) = check_number d n
    check_typed number d v = str_append (label_of d) " 必须是数字" ∷ []
    check_typed select d v =
        complain (not (in_options v d.options)) (str_append (label_of d) " 不是有效可选项")
    check_typed checkbox d (bool b) = []
    check_typed checkbox d v = str_append (label_of d) " 必须是布尔值" ∷ []
    check_typed t d (str s) = check_text d s
    check_typed t d v = str_append (label_of d) " 必须是字符串" ∷ []

    check_value : Definition → Value → List String
    unfolding check_typed
    check_value d v = check_typed d.type_of d v

    -- One round of the loop over the definitions.
    unfoldable pub check_definition : Definition → Option Value → List String
    unfolding check_value
    check_definition d none = complain d.required (str_append (label_of d) " 为必填项")
    check_definition d (some v) =
        if is_blank (some v)
        then complain d.required (str_append (label_of d) " 为必填项")
        else check_value d v

    unfoldable pub check_all : List Definition → List (String × Value) → List String
    unfolding check_definition lookup
    check_all [] params = []
    check_all (d ∷ ds) params = check_definition d (lookup d.key params) ++ check_all ds params

    unfoldable pub unknown_keys : List Definition → List (String × Value) → List String
    unfolding is_defined
    unknown_keys ds [] = []
    unknown_keys ds ((k, v) ∷ m) =
        complain (not (is_defined k ds)) (str_append "未知参数: " k) ++ unknown_keys ds m

    unfoldable pub validate_params : List Definition → List (String × Value) → List String
    unfolding definitions_of unknown_keys check_all
    validate_params param_defs params =
        let definitions = definitions_of [] param_defs in
        unknown_keys definitions params ++ check_all definitions params
