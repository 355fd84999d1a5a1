-- ===== src/Graph/Names.antt =====
-- The classification of names and kinds in internal/graph/reachability.go.
use repo_karta.Common.Text.{Text, codes, cut, is_white, text_eq, to_lower, trim_space}
use repo_karta.Common.{
  ℕ, Bool, true, false, ◌&&◌, ◌||◌, Option, none, some, List, [], ◌∷◌, ◌++◌, any, ltb, ◌==◌,
  if◌then◌else◌,
}
use repo_karta.Graph.Structure.{Declaration, Symbol}

abbrev pub is_empty : Text → Bool
is_empty [] = true
is_empty (_ ∷ _) = false

abbrev pub declaration_kinds : List Text
declaration_kinds =
    codes "class"
    ∷ codes "interface"
    ∷ codes "object"
    ∷ codes "enum"
    ∷ codes "function"
    ∷ codes "method"
    ∷ codes "constructor"
    ∷ []

-- `frameworkRootAnnotations`
abbrev pub framework_root_annotations : List (Text × Text)
framework_root_annotations =
    (codes "SpringBootApplication", codes "Spring application")
    ∷ (codes "Configuration", codes "Spring configuration")
    ∷ (codes "Component", codes "Spring component")
    ∷ (codes "Service", codes "Spring service")
    ∷ (codes "Repository", codes "Spring repository")
    ∷ (codes "Controller", codes "Spring controller")
    ∷ (codes "RestController", codes "Spring REST controller")
    ∷ (codes "Bean", codes "Spring bean factory")
    ∷ (codes "RequestMapping", codes "Spring request handler")
    ∷ (codes "GetMapping", codes "Spring GET handler")
    ∷ (codes "PostMapping", codes "Spring POST handler")
    ∷ (codes "PutMapping", codes "Spring PUT handler")
    ∷ (codes "PatchMapping", codes "Spring PATCH handler")
    ∷ (codes "DeleteMapping", codes "Spring DELETE handler")
    ∷ (codes "Scheduled", codes "Spring scheduled method")
    ∷ (codes "EventListener", codes "Spring event listener")
    ∷ (codes "KafkaListener", codes "Kafka listener")
    ∷ (codes "JmsListener", codes "JMS listener")
    ∷ (codes "RabbitListener", codes "RabbitMQ listener")
    ∷ []

unfoldable pub root_of : Text → List (Text × Text) → Option Text
root_of annotation [] = none
root_of annotation ((name, root) ∷ rest) =
    let later = root_of annotation rest in if text_eq annotation name then some root else later

-- The loop over the annotations in `reachabilityRoot`.
unfoldable pub annotated_root : List Text → Text
annotated_root [] = []
annotated_root (a ∷ rest) = elim (root_of a framework_root_annotations) [
  | none ↦ annotated_root rest
  | some root ↦ root
]

-- `reachabilityRoot`
unfoldable pub reachability_root : Text → Symbol → Text
reachability_root language symbol =
    if text_eq symbol.name (codes "main")
      && (text_eq language (codes "go")
          || text_eq language (codes "java")
          || text_eq language (codes "kotlin"))
    then codes "executable main"
    else if text_eq language (codes "go") && text_eq symbol.name (codes "init")
    then codes "Go package initializer"
    else annotated_root symbol.annotations

-- `strings.Trim` with a set of bytes
unfoldable pub trim_left_set : Text → Text → Text
trim_left_set cutset [] = []
trim_left_set cutset (c ∷ s) =
    let rest = trim_left_set cutset s in if any (λ x. x == c) cutset then rest else c ∷ s

unfoldable pub trim_set_after : Text → ℕ → Text → Text
trim_set_after cutset c [] = if any (λ x. x == c) cutset then [] else c ∷ []
trim_set_after cutset c (d ∷ s) = c ∷ d ∷ s

unfoldable pub trim_right_set : Text → Text → Text
trim_right_set cutset [] = []
trim_right_set cutset (c ∷ s) = trim_set_after cutset c (trim_right_set cutset s)

-- What stands behind the last of some separators, if there is one.
unfoldable pub after_last : Text → Text → Option Text
after_last separators [] = none
after_last separators (c ∷ s) = elim (after_last separators s) [
  | some rest ↦ some rest
  | none ↦ if any (λ x. x == c) separators then some s else none
]

-- `strings.Fields`, behind a word that was begun
unfoldable pub fields_from : Text → Text → List Text
fields_from word [] = if is_empty word then [] else word ∷ []
fields_from word (c ∷ s) =
    let next = fields_from [] s in
    let on = fields_from (word ++ c ∷ []) s in
    if is_white c then if is_empty word then next else word ∷ next else on

unfoldable pub last_of : Text → List Text → Text
last_of default [] = default
last_of default (f ∷ fs) = last_of f fs

unfoldable pub behind_separator : Text → Text
behind_separator value = elim (after_last (codes ".:/\\") value) [ none ↦ value | some rest ↦ rest ]

-- `normalizedRelationTarget` on a value that is trimmed and not empty
unfoldable pub normalized : Text → Text
normalized value =
    let set = codes "[]?*& " in
    let plain = trim_right_set set (trim_left_set set (cut b'<' value).0) in
    let last = behind_separator plain in trim_space (last_of last (fields_from [] last))

-- `normalizedRelationTarget`
unfoldable pub normalized_relation_target : Text → Text
normalized_relation_target value =
    if is_empty (trim_space value) then [] else normalized (trim_space value)

-- `declaration.symbol.Name[0]`: none stands for the panic on an empty name. The first byte of what
-- is not ASCII lies above 'Z', and so does its code here.
unfoldable pub not_exported : Text → Option Bool
not_exported [] = none
not_exported (c ∷ s) = some (ltb c b'A' || ltb b'Z' c)

-- `isPrivateDeclaration`
unfoldable pub is_private_declaration : Declaration → Option Bool
is_private_declaration d =
    if any (text_eq (codes "private")) d.source.modifiers
      || any (text_eq (codes "internal")) d.source.modifiers
    then some true
    else if text_eq d.document.language (codes "go") && text_eq d.source.kind (codes "function")
    then not_exported d.source.name
    else some false

module _ (wide : ℕ → ℕ) where
  -- `isReachabilityDeclaration`
  unfoldable pub is_reachability_declaration : Text → Bool
  is_reachability_declaration kind =
      any (text_eq (to_lower wide (trim_space kind))) declaration_kinds
